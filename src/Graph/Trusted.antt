-- ===== src/Graph/Trusted.antt =====
-- With keys that fit, no run ends in a refusal: the coordinator can verify what the planner signs.
use alph_e.Common.{
  ℕ, String, ◌≡◌, refl, sym, ◌∙◌, ap, Option, none, some, nonempty, Result, ok, err, arith, All,
  Supply,
}
use alph_e.Schemas.{IncidentState}
use alph_e.Security.{new_signer, new_verifier, verify}
use alph_e.Security.Laws.{IsKeyPair}
use alph_e.Llm.{LlmError}
use alph_e.Planner.{PlannerDecision, PlannerUpdate, planner_node}
use alph_e.Planner.Decision.{planner_node-verifies}
use alph_e.Coordinator.{CoordinatorUpdate}
use alph_e.Coordinator.Node.{coordinator_node, coordinator_node-phase, all_pass}
use alph_e.Coordinator.Phases.{phase_table}
use alph_e.Coordinator.Verification.{IsOk}
use alph_e.Graph.{
  World, Step, Run, at_intake, at_investigator, at_collectors, at_planner, at_coordinator, stay,
  step, successor, intake_node, node_intake,
}

-- The two variables hold the keys of a pair.
pub record HasKeys (world : World) : Type 0 where
  pub private : world.crypto.PrivateKey
  pub public : world.crypto.PublicKey
  pub pair : IsKeyPair world.crypto private public
  pub signing : new_signer world.crypto world.signing_key ≡ ok private
  pub verifying : new_verifier world.crypto world.verify_key ≡ ok public

module _ (world : World) (keys : HasKeys world) where
  -- Every intent of the incident verifies.
  abbrev pub IsTrusted : IncidentState → Type 0
  IsTrusted s = All (λ i. IsOk (verify world.crypto keys.public i)) s.action_intents

  planner-trusted :
      (s : IncidentState) (now : ℕ) (reply : Result LlmError PlannerDecision) (u : PlannerUpdate)
      → planner_node world.crypto world.signing_key s now reply ≡ ok u
      → IsTrusted s
      → All (λ i. IsOk (verify world.crypto keys.public i)) u.action_intents
  unfolding planner_node
  planner-trusted s now (err x) u e before = absurd (ground arith)
  planner-trusted s now (ok d) u e before =
      planner_node-verifies world.crypto world.signing_key keys.private keys.signing keys.public s
        now d u keys.pair before e

  Step-IsTrusted :
      (node : String) (s t : IncidentState) → Step world node s t → IsTrusted s → IsTrusted t
  unfolding intake_node
  Step-IsTrusted _ _ _ (at_intake s now) h = h
  Step-IsTrusted _ _ _ (at_investigator s now reply u e) h = h
  Step-IsTrusted _ _ _ (at_collectors s services rows supply) h = h
  Step-IsTrusted _ _ _ (at_planner s now reply u e) h = planner-trusted s now reply u e h
  Step-IsTrusted _ _ _ (at_coordinator s supply u e) h = h

  coordinator-settled :
      (s : IncidentState) (supply : Supply) (u : CoordinatorUpdate)
      → (coordinator_node world.crypto world.verify_key world.kubeconfig s supply).0 ≡ ok u
      → IsTrusted s
      → u.phase ≡ phase_table s.hypotheses (nonempty s.action_intents)
  coordinator-settled s supply u e h =
      let (u', e', phase) =
        coordinator_node-phase world.crypto world.verify_key world.kubeconfig s supply keys.public
          keys.verifying in
      let same : u' ≡ u = ground arith in
      sym (ap (λ v. v.phase) same) ∙ (phase ∙ rw (all_pass _ s.action_intents h) refl)

  -- at the end, the phase is that of the table
  abbrev Settled : Option String → IncidentState → Type 0
  Settled none s = s.phase ≡ phase_table s.hypotheses (nonempty s.action_intents)
  Settled (some node) s = Unit

  Step-Settled :
      (node : String) (s t : IncidentState)
      → Step world node s t
      → IsTrusted s
      → Settled (successor node t) t
  unfolding successor
  Step-Settled _ _ _ (at_intake s now) h = tt
  Step-Settled _ _ _ (at_investigator s now reply u e) h = tt
  Step-Settled _ _ _ (at_collectors s services rows supply) h = tt
  Step-Settled _ _ _ (at_planner s now reply u e) h = tt
  Step-Settled _ _ _ (at_coordinator s supply u e) h = coordinator-settled s supply u e h

  run-Settled :
      (n : ℕ) (place : Option String) (s : IncidentState) (last : Option String) (t : IncidentState)
      → Run world n place s last t
      → IsTrusted s
      → Settled place s
      → Settled last t
  run-Settled _ _ _ _ _ (stay place s) h k = k
  run-Settled _ _ _ _ _ (step n node s t last u now rest) h k =
      run-Settled n (successor node t) t last u rest (Step-IsTrusted node s t now h)
        (Step-Settled node s t now h)

  -- With a key pair in the two variables: if every intent of the incident verifies, a run from the intake to the end leaves the phase
  -- that the table says for the hypotheses and the intents then: no intent is refused on the way.
  pub run-phase :
      (n : ℕ) (s t : IncidentState)
      → Run world n (some node_intake) s none t
      → IsTrusted s
      → t.phase ≡ phase_table t.hypotheses (nonempty t.action_intents)
  run-phase n s t run h = run-Settled n (some node_intake) s none t run h tt
