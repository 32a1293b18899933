-- ===== src/Planner.antt =====
-- agent/src/agent/orchestrator/nodes/planner.py. The reply of the language model is an argument,
-- and so are the cryptography and the variable PLANNER_SIGNING_KEY.
pub mod Gate
pub mod Decision
pub mod Message
pub mod Fenced
use alph_e.Common.{
  ◌<>◌, ℕ, ◌+◌, ◌*◌, ◌^◌, String, Option, none, some, Bool, List, [], ◌∷◌, ◌++◌, Result, ok, err,
  ltb, score_text, if◌then◌else◌,
}
use alph_e.Schemas.{
  IncidentState, IncidentPhase, TimelineEvent, ActionIntent, ActionType, Params, RemediationPlan,
  RemediationType,
}
use alph_e.Security.{Crypto, KeyError, new_signer, sign}
use alph_e.Llm.{LlmError}

-- `_LLMPlannerDecision`; its plan type is one of the six texts of `RemediationType`.
pub record PlannerDecision : Type 0 where
  pub plan_id : String
  pub plan_type : RemediationType
  pub rationale : String
  pub confidence : ℕ
  pub requires_human_approval : Bool
  pub evidence_ids : List String
  pub target_services : List String
  pub target_repos : List String
  pub rollback_plan : String
  pub action_target : String
  pub action_parameters : Params
  pub expected_effect : String
  pub rollback_hint : String
  pub reasoning : String

-- 0.5
abbrev pub confidence_threshold : ℕ
confidence_threshold = 2 ^ 1073

-- `_PLAN_TO_ACTION_TYPE`; its keys are `_MUTATING_TYPES`
abbrev pub plan_to_action_type : RemediationType → Option ActionType
plan_to_action_type RemediationType.rollback = some ActionType.rollback
plan_to_action_type RemediationType.scale = some ActionType.scale
plan_to_action_type RemediationType.flag_flip = some ActionType.flag_flip
plan_to_action_type RemediationType.pr = none
plan_to_action_type RemediationType.runbook = none
plan_to_action_type RemediationType.none = none

-- `_decision_to_plan`
unfoldable pub decision_to_plan : PlannerDecision → RemediationPlan
decision_to_plan d = record {
  id = d.plan_id;
  type = d.plan_type;
  rationale = d.rationale;
  evidence_ids = d.evidence_ids;
  target_repos = d.target_repos;
  target_services = d.target_services;
  rollback_plan = d.rollback_plan;
  confidence = d.confidence;
  requires_human_approval = d.requires_human_approval;
}

-- `_force_none_plan`
unfoldable pub force_none_plan : RemediationPlan → String → RemediationPlan
force_none_plan plan reason = record plan {
  type = RemediationType.none;
  rationale = "[confidence gate] " <> reason <> "  Original rationale: " <> plan.rationale;
}

-- the reason that the gate gives
abbrev pub gate_reason : RemediationPlan → String
gate_reason plan = "Confidence " <> score_text plan.confidence <> " is below threshold 0.5."

-- the confidence gate
unfoldable pub gated : RemediationPlan → RemediationPlan
gated plan =
    if ltb plan.confidence confidence_threshold
    then force_none_plan plan (gate_reason plan)
    else plan

pub record PlannerUpdate : Type 0 where
  pub phase : IncidentPhase
  pub timeline : List TimelineEvent
  pub updated_at : ℕ
  pub action_intents : List ActionIntent
  pub remediation_plan : RemediationPlan

-- What the node raises: the model's error, or that of the signing key.
pub data PlannerError : Type 0 where
  llm_raised : LlmError → PlannerError
  key_raised : KeyError → PlannerError

-- `new_action_intents`
abbrev with_intent : List ActionIntent → Option ActionIntent → List ActionIntent
with_intent intents none = intents
with_intent intents (some i) = intents ++ i ∷ []

-- the state update
unfoldable pub decided : IncidentState → ℕ → RemediationPlan → Option ActionIntent → PlannerUpdate
decided state now plan intent = record {
  phase = IncidentPhase.planning;
  timeline =
      state.timeline
      ++ record {
        ts = now;
        actor = "orchestrator:planner";
        event_type = "planner.decided";
        ref_id = some plan.id;
      }
        ∷ [];
  updated_at = now;
  action_intents = with_intent state.action_intents intent;
  remediation_plan = plan;
}

-- the intent before it is signed; it may be approved for fifteen minutes
unfoldable pub unsigned_intent : PlannerDecision → ActionType → ℕ → ActionIntent
unsigned_intent d action_type now = record {
  hash = "__unsigned__";
  action_type = action_type;
  target = d.action_target;
  parameters = d.action_parameters;
  expected_effect = d.expected_effect;
  rollback_hint = d.rollback_hint;
  signer = "orchestrator:planner";
  signature = "__unsigned__";
  approval_status = "pending";
  approved_by = none;
  approved_at = none;
  expires_at = now + 15 * 60000000;
}

-- `_build_intent`
unfoldable pub build_intent :
    (crypto : Crypto) → crypto.PrivateKey → PlannerDecision → ActionType → ℕ → ActionIntent
build_intent crypto key d action_type now = sign crypto key (unsigned_intent d action_type now)

module _ (crypto : Crypto) (signing_key : Option String) where
  -- from the plan on: the signer is built only for a plan that mutates
  unfoldable pub after_gate :
      IncidentState → ℕ → PlannerDecision → RemediationPlan → Result PlannerError PlannerUpdate
  after_gate state now d plan = elim (plan_to_action_type plan.type) [
    | none ↦ ok (decided state now plan none)
    | some action_type ↦ elim (new_signer crypto signing_key) [
      | err e ↦ err (key_raised e)
      | ok k ↦ ok (decided state now plan (some (build_intent crypto k d action_type now)))
    ]
  ]

  -- `planner_node`
  unfoldable pub planner_node :
      IncidentState → ℕ → Result LlmError PlannerDecision → Result PlannerError PlannerUpdate
  planner_node state now (err e) = err (llm_raised e)
  planner_node state now (ok d) = after_gate state now d (gated (decision_to_plan d))
