-- ===== src/Graph/Kept.antt =====
-- What every run of the graph keeps: the incident, its audit trail, and verified intents.
use mathlib.Core.Path.{subst}
use alph_e.Common.{
  ℕ, String, ◌≡◌, refl, ◌∙◌, Option, some, [], ◌∷◌, Result, ok, err, arith, Supply, Option-cases,
  inl, inr, leb, Bool-cases, ◌>>=◌,
}
use alph_e.Schemas.{IncidentState}
use alph_e.Llm.{LlmError}
use alph_e.Security.{Crypto, KeyError, new_verifier, verify}
use alph_e.Investigator.{
  InvestigatorOutput, InvestigatorUpdate, investigator_node, after_reply, investigator_event,
}
use alph_e.Collectors.{Services, collectors_node, investigate, focus_hypothesis}
use alph_e.Collectors.Dispatch.{Cache}
use alph_e.Planner.{
  PlannerDecision, PlannerUpdate, planner_node, after_gate, decided, gated, decision_to_plan,
}
use alph_e.Coordinator.{CoordinatorUpdate, coordinate}
use alph_e.Coordinator.Node.{coordinator_node}
use alph_e.Coordinator.Ops.{idempotent_ops}
use alph_e.Coordinator.History.{
  Extends, Extends-refl, Extends-snoc, Extends-trans, Continues, coordinate-Continues,
}
use alph_e.Graph.{
  World, Step, Run, at_intake, at_investigator, at_collectors, at_planner, at_coordinator, stay,
  step, successor, intake_node,
}

-- The same incident, with more events and actions at the end.
pub record IsLater (s t : IncidentState) : Type 0 where
  pub same_id : t.incident_id ≡ s.incident_id
  pub same_alert : t.alert ≡ s.alert
  pub timeline : Extends s.timeline t.timeline
  pub actions : Extends s.actions_taken t.actions_taken

investigator-timeline :
    (sha256 : String → String) (s : IncidentState) (now : ℕ)
    (reply : Result LlmError InvestigatorOutput) (u : InvestigatorUpdate)
    → investigator_node sha256 s now reply ≡ ok u
    → Extends s.timeline u.timeline
unfolding investigator_node after_reply
investigator-timeline sha256 s now (ok output) u e =
    elim (Bool-cases (leb 5 s.investigation_attempts)) [
      | inl late ↦ record {
        added = investigator_event now "investigator.cap_reached" ∷ [];
        split = ground arith;
      }
      | inr early ↦ record {
        added = investigator_event now "investigator.tick" ∷ [];
        split = ground arith;
      }
    ]
investigator-timeline sha256 s now (err x) u e =
    elim (Bool-cases (leb 5 s.investigation_attempts)) [
      | inl late ↦ record {
        added = investigator_event now "investigator.cap_reached" ∷ [];
        split = ground arith;
      }
      | inr early ↦ absurd (ground arith)
    ]

collectors-timeline :
    (services : Services) (s : IncidentState) (rows : Option Cache) (supply : Supply)
    → Extends s.timeline (collectors_node services s rows supply).0.0.timeline
unfolding collectors_node investigate
collectors-timeline services s rows supply = elim (Option-cases (focus_hypothesis s)) [
  | inl lost ↦ rw (lost, collectors_node) (Extends-snoc s.timeline _)
  | inr (h, found) ↦ rw (found, collectors_node) (Extends-snoc s.timeline _)
]

planner-timeline :
    (crypto : Crypto) (signing_key : Option String) (s : IncidentState) (now : ℕ)
    (reply : Result LlmError PlannerDecision) (u : PlannerUpdate)
    → planner_node crypto signing_key s now reply ≡ ok u
    → Extends s.timeline u.timeline
unfolding planner_node after_gate decided
planner-timeline crypto signing_key s now (err x) u e = absurd (ground arith)
planner-timeline crypto signing_key s now (ok d) u e = record {
  added =
      record {
        ts = now;
        actor = "orchestrator:planner";
        event_type = "planner.decided";
        ref_id = some (gated (decision_to_plan d)).id;
      }
      ∷ [];
  split = ground arith;
}

-- what a coordinator that returned has done
pub coordinator_returned :
    (crypto : Crypto) (verify_key kubeconfig : Option String) (s : IncidentState) (supply : Supply)
    (u : CoordinatorUpdate)
    → (coordinator_node crypto verify_key kubeconfig s supply).0 ≡ ok u
    → (key : crypto.PublicKey) × (new_verifier crypto verify_key ≡ ok key)
      × ((coordinate (idempotent_ops kubeconfig) (verify crypto key) s supply).0 ≡ u)
unfolding coordinator_node
coordinator_returned crypto verify_key kubeconfig s supply u e =
    go (new_verifier crypto verify_key) refl
  where
    go :
        (r : Result KeyError crypto.PublicKey)
        → new_verifier crypto verify_key ≡ r
        → (key : crypto.PublicKey) × (new_verifier crypto verify_key ≡ ok key)
          × ((coordinate (idempotent_ops kubeconfig) (verify crypto key) s supply).0 ≡ u)
    go (err x) q = let raised = rw (q, coordinator_node) at e in absurd (ground (arith, raised))
    go (ok key) q =
        let returned = rw (q, coordinator_node, ◌>>=◌) at e in (key, q, ground (arith, returned))

coordinator-Continues :
    (crypto : Crypto) (verify_key kubeconfig : Option String) (s : IncidentState) (supply : Supply)
    (u : CoordinatorUpdate)
    → (coordinator_node crypto verify_key kubeconfig s supply).0 ≡ ok u
    → Continues s.timeline s.actions_taken u
coordinator-Continues crypto verify_key kubeconfig s supply u e =
    let (key, _, same) = coordinator_returned crypto verify_key kubeconfig s supply u e in
    subst (Continues s.timeline s.actions_taken) same
      (coordinate-Continues (idempotent_ops kubeconfig) (verify crypto key) s supply)

IsLater-trans : (s t u : IncidentState) → IsLater s t → IsLater t u → IsLater s u
IsLater-trans s t u a b = record {
  same_id = b.same_id ∙ a.same_id;
  same_alert = b.same_alert ∙ a.same_alert;
  timeline = Extends-trans a.timeline b.timeline;
  actions = Extends-trans a.actions b.actions;
}

module _ (world : World) where
  Step-IsLater : (node : String) (s t : IncidentState) → Step world node s t → IsLater s t
  unfolding intake_node
  Step-IsLater _ _ _ (at_intake s now) = record {
    same_id = refl;
    same_alert = refl;
    timeline = Extends-snoc _ _;
    actions = Extends-refl _;
  }
  Step-IsLater _ _ _ (at_investigator s now reply u e) = record {
    same_id = refl;
    same_alert = refl;
    timeline = investigator-timeline _ s now reply u e;
    actions = Extends-refl _;
  }
  Step-IsLater _ _ _ (at_collectors s services rows supply) = record {
    same_id = refl;
    same_alert = refl;
    timeline = collectors-timeline services s rows supply;
    actions = Extends-refl _;
  }
  Step-IsLater _ _ _ (at_planner s now reply u e) = record {
    same_id = refl;
    same_alert = refl;
    timeline = planner-timeline _ _ s now reply u e;
    actions = Extends-refl _;
  }
  Step-IsLater _ _ _ (at_coordinator s supply u e) =
      let c = coordinator-Continues _ _ _ s supply u e in
      record { same_id = refl; same_alert = refl; timeline = c.timeline; actions = c.actions }

  -- A run of any length, from any node, keeps the incident's id and its alert, and only adds to the
  -- end of its timeline and of its actions.
  pub run-IsLater :
      (n : ℕ) (place : Option String) (s : IncidentState) (last : Option String) (t : IncidentState)
      → Run world n place s last t
      → IsLater s t
  run-IsLater _ _ _ _ _ (stay place s) = record {
    same_id = refl;
    same_alert = refl;
    timeline = Extends-refl _;
    actions = Extends-refl _;
  }
  run-IsLater _ _ _ _ _ (step n node s t last u now rest) =
      IsLater-trans s t u (Step-IsLater node s t now)
        (run-IsLater n (successor node t) t last u rest)
