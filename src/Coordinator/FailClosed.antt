-- ===== src/Coordinator/FailClosed.antt =====
-- A signature that does not verify stops the coordinator before any side effect.
use alph_e.Common.{
  String, ◌≡◌, refl, some, Bool, List, [], ◌∷◌, ◌++◌, map, append_assoc, Result, Supply,
}
use mathlib.Core.List.{map-append}
use alph_e.Schemas.{IncidentState, IncidentPhase, ActionIntent, Action, ActionStatus, TimelineEvent}
use alph_e.Coordinator.{
  CoordinatorUpdate, ExecutorOps, verification_failed, failed_action, escalate, make_event,
  coordinate,
}
use alph_e.Coordinator.Verification.{FirstFailure, verify_loop_of_FirstFailure}

abbrev pub event_types : List TimelineEvent → List String
event_types = map (λ e. e.event_type)

-- What an escalation for a failed verification leaves: one failed action and three events.
pub record IsRefusal (state : IncidentState) (intent : ActionIntent) (u : CoordinatorUpdate)
    : Type 0 where
  pub phase : u.phase ≡ IncidentPhase.escalated
  pub action : Action
  pub status : action.status ≡ ActionStatus.failed
  pub names : action.intent_hash ≡ some intent.hash
  pub actions : u.actions_taken ≡ state.actions_taken ++ action ∷ []
  pub events :
      event_types u.timeline
      ≡ event_types state.timeline
        ++ ("coordinator.started" ∷ "coordinator.verification_failed" ∷ "coordinator.escalated"
            ∷ [])

-- If an intent is the first that fails its verification, then, whatever the executor, the
-- coordinator escalates; the only action added is a failed one that names the intent, and the
-- events added are the start, the failure and the escalation.
pub coordinate-IsRefusal :
    {S : Type 0} (ops : ExecutorOps S) (verify : ActionIntent → Result String Bool)
    (state : IncidentState) (intent : ActionIntent) (exc : String) (s : Supply)
    → FirstFailure verify state.action_intents intent exc
    → IsRefusal state intent (coordinate ops verify state s).0
unfolding coordinate verification_failed failed_action escalate make_event
coordinate-IsRefusal ops verify state intent exc s f =
    rw (verify_loop_of_FirstFailure verify f, coordinate)
      (record {
        phase = refl;
        action = _;
        status = refl;
        names = refl;
        actions = refl;
        events = simp (map-append, append_assoc);
      })
