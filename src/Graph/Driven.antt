-- ===== src/Graph/Driven.antt =====
-- The graph driven by replies that succeed: the nodes of agent/src/agent/orchestrator/graph.py run one
-- after the other, as its library runs them, until the end.
use mathlib.Core.Path.{subst}
use alph_e.Common.{
  ℕ, zero, suc, ◌≤◌, String, ◌≡◌, refl, inl, inr, Option, none, some, ok, err, arith, Supply,
  nonempty, ◌==◌, if◌then◌else◌, Bool-cases, leb,
}
use alph_e.Schemas.{IncidentState}
use alph_e.Investigator.{InvestigatorOutput, InvestigatorUpdate, investigator_node, max_attempts}
use alph_e.Collectors.{Services, collectors_node}
use alph_e.Collectors.Dispatch.{Cache}
use alph_e.Planner.{PlannerDecision, planner_node}
use alph_e.Planner.Decision.{planner_node-IsDecided}
use alph_e.Coordinator.Node.{coordinator_node, coordinator_node-phase}
use alph_e.Coordinator.Phases.{phase_table}
use alph_e.Routing.{node_investigator, node_collectors, node_planner}
use alph_e.Graph.{
  World, Step, Run, at_intake, at_investigator, at_collectors, at_planner, at_coordinator, stay,
  step, successor, intake_node, node_intake, investigated, collected, planned, coordinated,
}
use alph_e.Graph.Runs.{steps_left, IsLive, Step-IsLive, Step-steps_left}
use alph_e.Graph.Kept.{IsLater, run-IsLater}
use alph_e.Graph.Trusted.{HasKeys, IsTrusted, run-phase}

-- What the model and the services answer in each state; the model's calls succeed.
pub record Replies : Type 0 where
  pub at : IncidentState → ℕ
  pub think : IncidentState → InvestigatorOutput
  pub services : IncidentState → Services
  pub rows : IncidentState → Option Cache
  pub supply : IncidentState → Supply
  pub decide : IncidentState → PlannerDecision

module _ (world : World) (replies : Replies) where
  -- One node, `none` where it raises.
  abbrev pub advance : String → IncidentState → Option IncidentState
  advance node s =
      if node == node_intake
      then some (intake_node s (replies.at s))
      else if node == node_investigator
      then elim (investigator_node world.crypto.sha256 s (replies.at s) (ok (replies.think s))) [
        | ok u ↦ some (investigated s u)
        | err e ↦ none
      ]
      else if node == node_collectors
      then some (
          collected s
            (collectors_node (replies.services s) s (replies.rows s) (replies.supply s)).0.0)
      else if node == node_planner
      then elim (planner_node world.crypto world.signing_key s (replies.at s)
          (ok (replies.decide s))) [ ok u ↦ some (planned s u) | err e ↦ none ]
      else elim (coordinator_node world.crypto world.verify_key world.kubeconfig s
          (replies.supply s)).0 [ ok u ↦ some (coordinated s u) | err e ↦ none ]

  -- So many nodes at most; `none` where a node raises or the end is not reached.
  pub drive : ℕ → Option String → IncidentState → Option IncidentState
  drive n none s = some s
  drive zero (some node) s = none
  drive (suc n) (some node) s = elim (advance node s) [
    | none ↦ none
    | some t ↦ drive n (successor node t) t
  ]

  abbrev Advances : String → IncidentState → Type 0
  Advances node s = (t : IncidentState) × (advance node s ≡ some t) × Step world node s t

  investigator_returns :
      (s : IncidentState)
      → (u : InvestigatorUpdate) × (investigator_node world.crypto.sha256 s
            (replies.at s)
            (ok (replies.think s))
          ≡ ok u)
  unfolding investigator_node
  investigator_returns s = elim (Bool-cases (leb max_attempts s.investigation_attempts)) [
    | inl h ↦ rw h (_, refl)
    | inr h ↦ rw h (_, refl)
  ]

  module _ (keys : HasKeys world) where
    live-Advances : (node : String) (s : IncidentState) → IsLive (some node) → Advances node s
    live-Advances node s (inl e) = subst (λ n. Advances n s) e (_, refl, at_intake s _)
    live-Advances node s (inr (inl e)) =
        let (u, q) = investigator_returns s in
        subst (λ n. Advances n s) e (investigated s u, rw q refl, at_investigator s _ _ u q)
    live-Advances node s (inr (inr (inl e))) =
        subst (λ n. Advances n s) e (_, refl, at_collectors s _ _ _)
    live-Advances node s (inr (inr (inr (inl e)))) =
        let (u, q, _) =
          planner_node-IsDecided world.crypto world.signing_key keys.private keys.signing s
            (replies.at s) (replies.decide s) in
        subst (λ n. Advances n s) e (planned s u, rw q refl, at_planner s _ _ u q)
    live-Advances node s (inr (inr (inr (inr (inl e))))) =
        let (u, q, _) =
          coordinator_node-phase world.crypto world.verify_key world.kubeconfig s (replies.supply s)
            keys.public keys.verifying in
        subst (λ n. Advances n s) e (coordinated s u, rw q refl, at_coordinator s _ u q)
    live-Advances node s (inr (inr (inr (inr (inr e))))) = absurd e

    -- Driving for as many nodes as are left ends, and what was driven is a run.
    drive-ends :
        (n : ℕ) (place : Option String) (s : IncidentState)
        → IsLive place
        → steps_left place s.investigation_attempts ≤ n
        → (t : IncidentState) × (drive n place s ≡ some t) × (m : ℕ) × Run world m place s none t
    unfolding drive
    drive-ends n none s live enough = (s, refl, 0, stay none s)
    drive-ends zero (some node) s live enough =
        let (t, e, now) = live-Advances node s live in
        absurd (omega (arith, enough, Step-steps_left world node s t now))
    drive-ends (suc n) (some node) s live enough =
        let (t, e, now) = live-Advances node s live in
        let (u, f, m, rest) =
          drive-ends n (successor node t) t (Step-IsLive world node s t now)
            (omega (arith, enough, Step-steps_left world node s t now)) in
        (u, rw (e, drive) f, suc m, step m node s t none u now rest)

    intake_left : (s : IncidentState) → steps_left (some node_intake) s.investigation_attempts ≤ 11
    intake_left s = elim (Bool-cases (leb 4 s.investigation_attempts)) [
      | inl late ↦ ground arith
      | inr early ↦ ground arith
    ]

    pub drive_completes :
        (s : IncidentState)
        → IsTrusted world keys s
        → (t : IncidentState) × (drive 11 (some node_intake) s ≡ some t)
          × (t.phase ≡ phase_table t.hypotheses (nonempty t.action_intents))
          × IsLater s t
    drive_completes s trusted =
        let (t, e, m, run) = drive-ends 11 (some node_intake) s (inl refl) (intake_left s) in
        (
          t,
          e,
          run-phase world keys m s t run trusted,
          run-IsLater world m (some node_intake) s none t run,
        )
