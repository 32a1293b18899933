-- ===== src/Coordinator.antt =====
-- agent/src/agent/orchestrator/nodes/coordinator.py. The node is written over an interface of its
-- executor, whose instance in Ops is the `IdempotentExecutor` that the node builds; its other
-- parts stand in Preflight, Executor and Escalation. What an executor raises is the text of the
-- exception. The `EscalationPackage`, which the node only logs, is given back beside the update.
pub mod Preflight
pub mod Executor
pub mod Escalation
pub mod Ops
pub mod Verification
pub mod FailClosed
pub mod Phases
pub mod History
pub mod Node
use alph_e.Common.{
  ◌<>◌, ℕ, String, Option, none, some, Bool, List, [], ◌∷◌, ◌++◌, nonempty, Io, pure, now, ◌>>=◌,
  Result, ok, err, first_chars, repr, if◌then◌else◌,
}
use alph_e.Schemas.{
  IncidentState, IncidentPhase, ActionIntent, Action, ActionType, ActionStatus, TimelineEvent,
  EscalationPackage,
}
use alph_e.Coordinator.Preflight.{PreflightOutcome, check_preflight, outcome_name}
use alph_e.Coordinator.Escalation.{build_escalation_package}

pub record CoordinatorUpdate : Type 0 where
  pub phase : IncidentPhase
  pub timeline : List TimelineEvent
  pub updated_at : ℕ
  pub actions_taken : List Action
  pub escalation : Option EscalationPackage

-- What the node asks of its executor, whose state is `S`.
pub record ExecutorOps (S : Type 0) : Type 0 where
  pub initial : S
  pub execute : ActionIntent → S → Io (Result String Action × S)
  pub compensate : ActionIntent → S → Io (Result String Action × S)

unfoldable pub make_event : String → Option String → Io TimelineEvent
make_event event_type ref_id = do
  ts ← now
  pure (record {
    ts = ts;
    actor = "orchestrator:coordinator";
    event_type = event_type;
    ref_id = ref_id;
  })

unfoldable pub failed_action : String → ActionIntent → String → Io Action
failed_action prefix intent description = do
  at ← now
  pure (record {
    id = prefix <> first_chars 8 intent.hash;
    type = intent.action_type;
    description = description;
    status = ActionStatus.failed;
    intent_hash = some intent.hash;
    ref_id = none;
    executed_at = some at;
  })

-- `_escalate`
unfoldable pub escalate :
    IncidentState
    → List TimelineEvent
    → List Action
    → List String
    → List String
    → Io CoordinatorUpdate
unfolding make_event
escalate state timeline actions reasons extra = do
  let report = build_escalation_package state reasons extra (some actions)
  e ← make_event "coordinator.escalated" (some report.incident_id)
  at ← now
  pure (record {
    phase = IncidentPhase.escalated;
    timeline = timeline ++ e ∷ [];
    updated_at = at;
    actions_taken = actions;
    escalation = some report;
  })

-- a return without escalation
unfoldable pub finish : IncidentPhase → List TimelineEvent → List Action → Io CoordinatorUpdate
finish phase timeline actions = do
  at ← now
  pure (record {
    phase = phase;
    timeline = timeline;
    updated_at = at;
    actions_taken = actions;
    escalation = none;
  })

-- Step 1: the loop that verifies; it ends at the first failure.
unfoldable pub verify_loop :
    (ActionIntent → Result String Bool)
    → List ActionIntent
    → List ActionIntent
    → Result (ActionIntent × String) (List ActionIntent)
verify_loop verify verified [] = ok verified
verify_loop verify verified (intent ∷ rest) = elim (verify intent) [
  | ok _ ↦ verify_loop verify (verified ++ intent ∷ []) rest
  | err exc ↦ err (intent, exc)
]

-- the handler of `IntentVerificationError`
unfoldable pub verification_failed :
    IncidentState → List TimelineEvent → ActionIntent → String → Io CoordinatorUpdate
verification_failed state timeline intent exc = do
  a ← failed_action "verify-fail-" intent ("Verification failed: " <> exc)
  e ← make_event "coordinator.verification_failed" (some intent.hash)
  escalate state (timeline ++ e ∷ []) (state.actions_taken ++ a ∷ [])
      (("Intent " <> repr intent.hash <> " failed verification: " <> exc) ∷ [])
      ("Review ActionIntent signing pipeline (F-05)." ∷ [])

-- The variables of step 4 when its loop ends.
pub record Execution (S : Type 0) : Type 0 where
  pub timeline : List TimelineEvent
  pub actions : List Action
  pub reasons : List String
  pub failed : Option ActionIntent
  pub state : S

module _ {S : Type 0} (ops : ExecutorOps S) where
  -- Step 4: the loop that executes; it ends at the first exception.
  unfoldable pub execute_loop :
      List ActionIntent → List TimelineEvent → List Action → S → Io (Execution S)
  execute_loop [] timeline actions x =
      pure
        (record { timeline = timeline; actions = actions; reasons = []; failed = none; state = x })
  execute_loop (intent ∷ rest) timeline actions x = do
    (answer, x') ← ops.execute intent x
    elim answer [
      | ok action ↦ do
        e ← make_event "coordinator.executed" (some intent.hash)
        execute_loop rest (timeline ++ e ∷ []) (actions ++ action ∷ []) x'
      | err exc ↦ do
        a ← failed_action "exec-fail-" intent ("Execution failed: " <> exc)
        e ← make_event "coordinator.execution_failed" (some intent.hash)
        pure (record {
          timeline = timeline ++ e ∷ [];
          actions = actions ++ a ∷ [];
          reasons = ("Execution of intent " <> repr intent.hash <> " raised: " <> exc) ∷ [];
          failed = some intent;
          state = x';
        })
    ]

  -- Step 5: compensation of the failed intent, and escalation
  unfoldable pub compensate_failed :
      IncidentState → Execution S → ActionIntent → Io CoordinatorUpdate
  compensate_failed state run intent = do
    (answer, _) ← ops.compensate intent run.state
    elim answer [
      | ok action ↦ do
        e ← make_event "coordinator.compensated" (some intent.hash)
        escalate state (run.timeline ++ e ∷ []) (run.actions ++ action ∷ []) run.reasons
            ("Verify compensation was effective before retrying." ∷ [])
      | err exc ↦ do
        e ← make_event "coordinator.compensation_failed" (some intent.hash)
        escalate state (run.timeline ++ e ∷ []) run.actions
            (run.reasons
              ++ ("Compensation for intent " <> repr intent.hash <> " also failed: " <> exc) ∷ [])
            ("Verify compensation was effective before retrying." ∷ [])
    ]

  -- what follows the loop of step 4
  unfoldable pub after_execution : IncidentState → Execution S → Io CoordinatorUpdate
  after_execution state run = elim run.failed [
    | some intent ↦ compensate_failed state run intent
    | none ↦
        if nonempty run.reasons then escalate state run.timeline run.actions run.reasons [] else (do
          e ← make_event "coordinator.resolved" none
          finish IncidentPhase.resolved (run.timeline ++ e ∷ []) run.actions)
  ]

  -- Steps 3 and 4
  unfoldable pub execute_intents :
      IncidentState → List TimelineEvent → List ActionIntent → Io CoordinatorUpdate
  execute_intents state timeline verified =
      if nonempty verified
      then (do
        run ← execute_loop verified timeline state.actions_taken ops.initial
        after_execution state run)
      else escalate state timeline state.actions_taken
          ("No executable ActionIntents available after verification." ∷ []) []

  -- the `match` on the outcome of the precondition check
  unfoldable pub after_preflight :
      IncidentState
      → List TimelineEvent
      → List ActionIntent
      → PreflightOutcome
      → Io CoordinatorUpdate
  after_preflight state timeline verified PreflightOutcome.diagnosis_invalidated =
      finish IncidentPhase.investigating timeline state.actions_taken
  after_preflight state timeline verified PreflightOutcome.parameter_drift =
      if nonempty state.action_intents
      then finish IncidentPhase.planning timeline state.actions_taken
      else escalate state timeline state.actions_taken
          ("No ActionIntents available (Planner produced type=none or no intents)." ∷ []) []
  after_preflight state timeline verified PreflightOutcome.already_resolved = do
    at ← now
    e ← make_event "coordinator.resolved.no_op" none
    finish IncidentPhase.resolved (timeline ++ e ∷ []) (
        state.actions_taken
        ++ record {
          id = "coordinator-no-op";
          type = ActionType.no_op;
          description = "Incident self-resolved before coordinator could act.";
          status = ActionStatus.succeeded;
          intent_hash = none;
          ref_id = none;
          executed_at = some at;
        }
          ∷ [])
  after_preflight state timeline verified PreflightOutcome.ok =
      execute_intents state timeline verified

  -- Step 2
  unfoldable pub after_verification :
      IncidentState → List TimelineEvent → List ActionIntent → Io CoordinatorUpdate
  after_verification state timeline verified = do
    let preflight = check_preflight state verified
    e ← make_event ("coordinator.preflight." <> outcome_name preflight.outcome) none
    after_preflight state (timeline ++ e ∷ []) verified preflight.outcome

  -- `_coordinator_async`, from the built verifier on
  unfoldable pub coordinate :
      (ActionIntent → Result String Bool) → IncidentState → Io CoordinatorUpdate
  coordinate verify state = do
    e ← make_event "coordinator.started" none
    let timeline = state.timeline ++ e ∷ []
    elim (verify_loop verify [] state.action_intents) [
      | err (intent, exc) ↦ verification_failed state timeline intent exc
      | ok verified ↦ after_verification state timeline verified
    ]
