-- ===== src/Dev.antt =====
-- agent/src/agent/orchestrator/nodes/dev.py. The two replies of the language model are arguments here;
-- Dialogue has the conversation, Message its texts, Snapshot the reading of a repository.
pub mod DiffValidator
pub mod Validation
pub mod Sound
pub mod Reviewed
pub mod Snapshot
pub mod Message
pub mod Dialogue
use alph_e.Common.{
  ◌<>◌, ℕ, String, Option, none, some, Bool, not, ◌&&◌, List, [], ◌∷◌, ◌++◌, map, filter, contains,
  nonempty, next_where, Result, ok, err, str_in, joined, if◌then◌else◌,
}
use alph_e.Schemas.{
  IncidentState, IncidentPhase, TimelineEvent, Hypothesis, RemediationPlan, FileChange, FixProposal,
  BlockedReport, is_confirmed,
}
use alph_e.Llm.{LlmError, structured_output_error}
use alph_e.Dev.DiffValidator.{validate_file_changes, ChangesError, error_text}

pub record DevLlmOutput : Type 0 where
  pub changes : List FileChange
  pub commit_message : String
  pub pr_body : String
  pub branch_name : String
  pub reasoning : String

pub data DevResult : Type 0 where
  dev_output : FixProposal → String → DevResult
  blocked : BlockedReport → DevResult

abbrev report : RemediationPlan → List String → List String → String → DevResult
report plan tried failed decision = blocked (record {
  work_item_id = "B-04:" <> plan.id;
  what_was_tried = tried;
  what_failed = failed;
  decision_needed = decision;
  partial_artifacts = [];
})

-- The confirmed hypothesis: the first one.
abbrev pub confirmed_hypothesis : IncidentState → Option Hypothesis
confirmed_hypothesis state = next_where is_confirmed state.hypotheses

-- the body of the pull request, with the hypothesis cited
unfoldable pub cite : Option Hypothesis → String → String
cite none body = body
cite (some h) body =
    if str_in h.id body then body else body <> ("\n\n---\n_Hypothesis ref: " <> (h.id <> "_"))

module _ (parse : String → Result String ℕ) (plan : RemediationPlan) (state : IncidentState)
    (proposal_id : String) where
  -- the guardrail on the repos, and the proposal
  unfoldable pub propose : List String → DevLlmOutput → DevResult
  propose tried out =
      let outside = filter (λ c. not (contains c.repo plan.target_repos)) out.changes in
      if nonempty outside
      then report plan tried
          (("LLM attempted to modify files outside target_repos: "
              <> joined ", " (map (λ (c : FileChange). c.repo <> "/" <> c.path) outside))
            ∷ [])
          "The LLM tried to modify repos not listed in the plan.  This is a guardrail violation.  Human must review and re-scope."
      else dev_output
          (record {
            id = proposal_id;
            plan_id = plan.id;
            branch_name = out.branch_name;
            changes = out.changes;
            commit_message = out.commit_message;
            pr_body = cite (confirmed_hypothesis state) out.pr_body;
          })
          out.reasoning

  -- the second reply, after the first one's diffs were refused
  unfoldable pub second_attempt :
      ChangesError → Result LlmError DevLlmOutput → Result LlmError DevResult
  second_attempt first_error (err (structured_output_error exc)) = ok (
      report plan ("LLM call attempt 1" ∷ "LLM call attempt 2 (corrective diff retry)" ∷ [])
        (("Diff validation attempt 1: " <> error_text first_error)
          ∷ ("Schema validation failed on retry: " <> exc)
          ∷ [])
        "After one corrective retry the LLM still could not produce a schema-valid FixProposal.  Human engineer must produce the diff manually.")
  second_attempt first_error (err e) = err e
  second_attempt first_error (ok out) = elim (validate_file_changes parse out.changes) [
    | err e ↦ ok (
        report plan ("LLM call attempt 1" ∷ "LLM call attempt 2 (corrective diff retry)" ∷ [])
          (("Diff validation attempt 1: " <> error_text first_error)
            ∷ ("Diff validation attempt 2: " <> error_text e)
            ∷ [])
          "After one corrective retry the LLM still produced syntactically invalid unified diffs.  A human engineer must write the diff.")
    | ok _ ↦
        ok (propose ("LLM call attempt 1" ∷ "LLM call attempt 2 (corrective diff retry)" ∷ []) out)
  ]

  -- `run_dev`
  unfoldable pub run_dev :
      Result LlmError DevLlmOutput → Result LlmError DevLlmOutput → Result LlmError DevResult
  run_dev (err (structured_output_error exc)) second = ok (
      report plan ("LLM call attempt 1 (schema validation)" ∷ [])
        (("Schema validation failed: " <> exc) ∷ [])
        "The LLM could not produce a schema-valid DevLLMOutput after the first attempt.  A human engineer should review the plan and produce the FixProposal manually.")
  run_dev (err e) second = err e
  run_dev (ok out) second = elim (validate_file_changes parse out.changes) [
    | ok _ ↦ ok (propose ("LLM call attempt 1" ∷ []) out)
    | err e ↦ second_attempt e second
  ]

pub record DevUpdate : Type 0 where
  pub phase : IncidentPhase
  pub timeline : List TimelineEvent
  pub updated_at : ℕ

-- `dev_node`
unfoldable pub dev_node : IncidentState → ℕ → DevUpdate
dev_node state now = record {
  phase = IncidentPhase.fixing;
  timeline =
      state.timeline
      ++ record {
        ts = now;
        actor = "orchestrator:dev";
        event_type = "dev.proposal.skipped";
        ref_id = none;
      }
        ∷ [];
  updated_at = now;
}
