-- ===== src/Reviewer.antt =====
-- agent/src/agent/orchestrator/nodes/reviewer.py; the hard rules stand in Policy.
pub mod Policy
pub mod Gate
pub mod Prompt
use alph_e.Common.{
  ◌<>◌, ℕ, String, Option, none, some, Bool, true, not, ◌&&◌, List, [], ◌∷◌, ◌++◌, map, filter,
  nonempty, Result, ok, err, truthy, joined, if◌then◌else◌,
}
use alph_e.Schemas.{
  IncidentState, IncidentPhase, TimelineEvent, FixProposal, RemediationPlan, ReviewDecision,
  ReviewerOutput, is_confirmed, Hypothesis,
}
use alph_e.Reviewer.Policy.{PolicyViolation, run_all_checks}
use alph_e.Llm.{LlmError, missing_api_key}

pub record ReviewerUpdate : Type 0 where
  pub phase : IncidentPhase
  pub timeline : List TimelineEvent
  pub updated_at : ℕ
  pub reviewer_output : Option ReviewerOutput

abbrev pub decision_name : ReviewDecision → String
decision_name ReviewDecision.approve = "approve"
decision_name ReviewDecision.request_changes_on_fix = "request_changes_on_fix"
decision_name ReviewDecision.challenge_root_cause = "challenge_root_cause"

abbrev is_challenge : ReviewDecision → Bool
is_challenge d = elim d [ ReviewDecision.challenge_root_cause ↦ true | _ ↦ Bool.false ]

-- an output of the node itself, which cites nothing
abbrev request_changes : String → ReviewerOutput
request_changes reasoning = record {
  decision = ReviewDecision.request_changes_on_fix;
  reasoning = reasoning;
  cited_evidence_ids = [];
}

-- `_apply_guardrails`
unfoldable pub apply_guardrails : ReviewerOutput → ReviewerOutput
apply_guardrails output =
    if is_challenge output.decision && not (nonempty output.cited_evidence_ids)
    then request_changes (
        "challenge_root_cause requested but no contradicting evidence cited. Falling back to request_changes_on_fix. Original reasoning: "
        <> output.reasoning)
    else output

abbrev reviewer_event : ℕ → String → TimelineEvent
reviewer_event now event_type = record {
  ts = now;
  actor = "orchestrator:reviewer";
  event_type = event_type;
  ref_id = none;
}

-- `_build_return`
unfoldable pub build_return : IncidentState → ReviewerOutput → ℕ → ReviewerUpdate
build_return state output now = record {
  phase = IncidentPhase.reviewing;
  timeline =
      state.timeline ++ reviewer_event now ("reviewer." <> decision_name output.decision) ∷ [];
  updated_at = now;
  reviewer_output = some output;
}

abbrev violation_text : PolicyViolation → String
violation_text v = "[" <> v.rule <> "] " <> v.detail

-- The soft judgement: `api_key` is the variable ANTHROPIC_API_KEY or the empty text, and `reply`
-- what `complete_typed` gives for the prompt.
unfoldable pub soft_judgement :
    IncidentState → ℕ → String → Result LlmError ReviewerOutput → Result LlmError ReviewerUpdate
soft_judgement state now api_key reply =
    if truthy api_key
    then elim reply [ ok raw ↦ ok (build_return state (apply_guardrails raw) now) | err e ↦ err e ]
    else err missing_api_key

-- the part of the node after the choice of the confirmed hypothesis
unfoldable pub judge :
    IncidentState
    → ℕ
    → FixProposal
    → RemediationPlan
    → String
    → Result LlmError ReviewerOutput
    → Hypothesis
    → Result LlmError ReviewerUpdate
judge state now proposal plan api_key reply hypothesis =
    let violations = run_all_checks proposal plan hypothesis state.findings in
    if nonempty violations
    then ok (
        build_return state
          (request_changes
            ("Hard policy check(s) failed: " <> joined "; " (map violation_text violations)))
          now)
    else soft_judgement state now api_key reply

abbrev with_first : {B : Type 0} → List Hypothesis → B → (Hypothesis → B) → B
with_first [] b f = b
with_first (h ∷ _) b f = f h

-- both of two optional values
abbrev both : {A B C : Type 0} → Option A → Option B → C → (A → B → C) → C
both none _ c f = c
both (some a) none c f = c
both (some a) (some b) c f = f a b

-- `reviewer_node`; the proposal and the plan are the attributes that the state may have.
unfoldable pub reviewer_node :
    IncidentState
    → ℕ
    → Option FixProposal
    → Option RemediationPlan
    → String
    → Result LlmError ReviewerOutput
    → Result LlmError ReviewerUpdate
reviewer_node state now proposal plan api_key reply =
    both proposal plan
      (ok (record {
        phase = IncidentPhase.reviewing;
        timeline = state.timeline ++ reviewer_event now "reviewer.skipped.no_proposal" ∷ [];
        updated_at = now;
        reviewer_output = none;
      }))
      λ p l.
        with_first (filter is_confirmed state.hypotheses)
          (ok (
            build_return state
              (request_changes
                "Hard policy check failed: no confirmed hypothesis found in state. Cannot validate commit message references Hypothesis.id.")
              now))
          (judge state now p l api_key reply)
