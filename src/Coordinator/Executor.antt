-- ===== src/Coordinator/Executor.antt =====
-- agent/src/agent/orchestrator/coordinator/exec.py. An evidence client is the answer of its
-- `put_blob` for each record: whether it returned. What it raises is caught and dropped.
pub mod Once
pub mod Same
use Prim.Native.String.{◌++◌}
use alph_e.Common.{
  ℕ, String, Option, none, some, Bool, true, false, List, [], ◌∷◌, contains, Io, pure, now, uuid4,
  ◌>>=◌, if◌then◌else◌,
}
use mathlib.Core.List
use alph_e.Schemas.{ActionIntent, Action, ActionType, ActionStatus, Params, action_type_name}

pub record ExecutionRecord : Type 0 where
  pub record_id : String
  pub intent_hash : String
  pub action_type : ActionType
  pub target : String
  pub parameters : Params
  pub is_compensation : Bool
  pub dry_run : Bool
  pub kubeconfig_path : Option String
  pub outcome : String
  pub executed_at : ℕ
  pub notes : String

-- The executor's fields, and the records that the evidence store has taken.
pub record Executor : Type 0 where
  pub evidence : Option (ExecutionRecord → Bool)
  pub executed_hashes : List String
  pub stored : List ExecutionRecord

-- `__init__`; `None` for the hashes is the empty list
unfoldable pub new_executor : Option (ExecutionRecord → Bool) → List String → Executor
new_executor client already = record { evidence = client; executed_hashes = already; stored = [] }

unfoldable pub persist_record : ExecutionRecord → Executor → Executor
persist_record r x = elim x.evidence [
  | none ↦ x
  | some put ↦ if put r then record x { stored = List.◌++◌ x.stored (r ∷ []) } else x
]

abbrev action_of : ActionIntent → ActionType → String → String → ExecutionRecord → Action
action_of intent type description id r = record {
  id = id;
  type = type;
  description = description;
  status = ActionStatus.succeeded;
  intent_hash = some intent.hash;
  ref_id = none;
  executed_at = some r.executed_at;
}

-- A record with its default fields: a fresh identifier and the time.
abbrev new_record :
    ActionIntent → ActionType → Option String → Bool → String → String → Io ExecutionRecord
new_record intent type kubeconfig compensation outcome notes = do
  id ← uuid4
  at ← now
  pure (record {
    record_id = id;
    intent_hash = intent.hash;
    action_type = type;
    target = intent.target;
    parameters = intent.parameters;
    is_compensation = compensation;
    dry_run = true;
    kubeconfig_path = kubeconfig;
    outcome = outcome;
    executed_at = at;
    notes = notes;
  })

-- the branch of `execute` for a hash that was executed before
skip_executed : Option String → ActionIntent → Executor → Io (ExecutionRecord × Action × Executor)
skip_executed kubeconfig intent x = do
  r ←
      new_record intent intent.action_type kubeconfig false "skipped_idempotent"
        "Idempotent skip — execution record already present."
  id ← uuid4
  pure (
    r,
    action_of intent intent.action_type ("[idempotent-skip] " ++ intent.expected_effect) id r,
    x,
  )

-- the branch of `execute` for a new hash: a dry run, recorded
run_dry : Option String → ActionIntent → Executor → Io (ExecutionRecord × Action × Executor)
unfolding persist_record
run_dry kubeconfig intent x = do
  r ← new_record intent intent.action_type kubeconfig false "dry_run_success" (
      "DRY-RUN: would execute "
      ++ (action_type_name intent.action_type
          ++ (" on " ++ (intent.target ++ (". Expected effect: " ++ intent.expected_effect)))))
  let x' = persist_record r (record x { executed_hashes = intent.hash ∷ x.executed_hashes })
  id ← uuid4
  pure (r, action_of intent intent.action_type intent.expected_effect id r, x')

-- `IdempotentExecutor.execute`; the first argument is the variable KUBECONFIG_AGENT
unfoldable pub execute :
    Option String → ActionIntent → Executor → Io (ExecutionRecord × Action × Executor)
unfolding skip_executed run_dry
execute kubeconfig intent x =
    if contains intent.hash x.executed_hashes
    then skip_executed kubeconfig intent x
    else run_dry kubeconfig intent x

-- `IdempotentExecutor.compensate`
unfoldable pub compensate :
    Option String → ActionIntent → Executor → Io (ExecutionRecord × Action × Executor)
unfolding persist_record
compensate kubeconfig intent x = do
  r ← new_record intent ActionType.rollback kubeconfig true "dry_run_success" (
      "DRY-RUN compensation: "
      ++ (intent.rollback_hint ++ (". Original target: " ++ intent.target)))
  let x' = persist_record r x
  id ← uuid4
  pure (r, action_of intent ActionType.rollback ("Compensation: " ++ intent.rollback_hint) id r, x')
