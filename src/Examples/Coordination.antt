-- ===== src/Examples/Coordination.antt =====
-- The coordinator's theorems at concrete incidents.
use alph_e.Common.{
  truthy, show_ℕ, String, ◌≡◌, refl, none, some, Bool, true, [], ◌∷◌, Result, ok, err, ◌==◌, pure,
  if◌then◌else◌,
}
use alph_e.Schemas.{IncidentPhase, IncidentState, ActionIntent, Action, ActionType, ActionStatus}
use alph_e.Security.{new_verifier, verify, sign, compute_intent_hash, canonical}
use alph_e.Coordinator.{CoordinatorUpdate, coordinate, ExecutorOps}
use alph_e.Coordinator.Preflight.{PreflightOutcome, check_preflight}
use alph_e.Coordinator.Preflight.Table.{check_preflight-eq-table}
use alph_e.Coordinator.Ops.{idempotent_ops}
use alph_e.Coordinator.Node.{coordinator_node, coordinator_node-phase}
use alph_e.Coordinator.History.{Continues, coordinate-Continues}
use alph_e.Coordinator.FailClosed.{IsRefusal, coordinate-IsRefusal}
use alph_e.Samples.{supply, rollback, scale, incident, toy}

abbrev trusting : ActionIntent → Result String Bool
trusting i = ok true

-- a verifier that refuses one intent
abbrev wary : ActionIntent → Result String Bool
wary i = if i.hash == "h-scale" then err "bad signature" else ok true

abbrev done : Action
done = record {
  id = "a-1";
  type = ActionType.rollback;
  description = "done";
  status = ActionStatus.succeeded;
  intent_hash = some "h-rollback";
  ref_id = none;
  executed_at = none;
}

-- an executor that raises on one intent
abbrev breaking : ExecutorOps (Unit {0})
breaking = record {
  initial = tt;
  execute = λ i x. pure (if i.hash == "h-scale" then err "timeout" else ok done, x);
  compensate = λ i x. pure (err "timeout", x);
}

-- with an intent as the planner's key signs it
abbrev signed_incident : IncidentState
signed_incident = record incident { action_intents = sign toy tt rollback ∷ [] }

coordinator_node-phase_example :
    (u : CoordinatorUpdate) × ((coordinator_node toy (some "pem") none signed_incident supply).0
      ≡ ok u)
    × (u.phase ≡ IncidentPhase.resolved)
unfolding new_verifier verify sign truthy compute_intent_hash canonical show_ℕ
coordinator_node-phase_example =
    coordinator_node-phase toy (some "pem") none signed_incident supply tt refl

coordinate-IsRefusal_example :
    IsRefusal incident scale (coordinate (idempotent_ops none) wary incident supply).0
coordinate-IsRefusal_example =
    coordinate-IsRefusal (idempotent_ops none) wary incident scale "bad signature" supply (record {
      before = rollback ∷ [];
      after = [];
      split = refl;
      passed = (tt, tt);
      failed = refl;
    })

coordinate-Continues_example :
    Continues incident.timeline incident.actions_taken
      (coordinate breaking trusting incident supply).0
coordinate-Continues_example = coordinate-Continues breaking trusting incident supply

check_preflight-eq-table_example :
    (check_preflight incident (rollback ∷ [])).outcome ≡ PreflightOutcome.ok
check_preflight-eq-table_example = check_preflight-eq-table incident (rollback ∷ [])
