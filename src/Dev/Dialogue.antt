-- ===== src/Dev/Dialogue.antt =====
-- `run_dev` of agent/src/agent/orchestrator/nodes/dev.py with its conversation: the replies of the model
-- are a function of the messages it is sent.
use alph_e.Common.{
  All, true, str_in, ◌≡◌, refl, ◌<>◌, ℕ, String, Option, List, [], ◌∷◌, ◌++◌, filter, contains,
  nonempty, Result, ok, err, Assoc, insert, if◌then◌else◌,
}
use alph_e.Schemas.{IncidentState, RemediationPlan, Finding}
use alph_e.Llm.{LlmError}
use alph_e.Dev.{DevLlmOutput, DevResult, confirmed_hypothesis, run_dev}
use alph_e.Dev.DiffValidator.{
  Failures, ChangesError, no_changes, invalid_diffs, error_text, validate_file_changes,
}
use alph_e.Dev.Message.{
  build_dev_message, corrective_diff_message, failure_item, corrective_diff_message-names,
}
use alph_e.Dev.Snapshot.{RepoEntry, read_repo_snapshot}
use alph_e.Dev.Sound.{IsOutcome, run_dev-IsOutcome}

pub data ChatMessage : Type 0 where
  from_user from_assistant : String → ChatMessage

-- the findings that the plan cites, all where it cites none
unfoldable pub cited_findings : RemediationPlan → IncidentState → List Finding
cited_findings plan state =
    if nonempty plan.evidence_ids
    then filter (λ f. contains f.evidence_id plan.evidence_ids) state.findings
    else state.findings

-- `exc.failures`; a `ValueError` counts as no failures
abbrev failures_of : ChangesError → Failures
failures_of no_changes = []
failures_of (invalid_diffs failures) = failures

-- What the run reads and asks.
pub record Desk : Type 0 where
  pub show_float : ℕ → String
  pub entries : String → Option (List RepoEntry)
  pub parse : String → Result String ℕ
  pub ask : List ChatMessage → Result LlmError DevLlmOutput

module _ (desk : Desk) (plan : RemediationPlan) (state : IncidentState) where
  unfoldable pub repo_snapshots : List String → Assoc String → Assoc String
  repo_snapshots [] snapshots = snapshots
  repo_snapshots (repo ∷ repos) snapshots =
      repo_snapshots repos (insert repo (read_repo_snapshot repo (desk.entries repo)) snapshots)

  -- `messages`
  unfoldable pub opening : List ChatMessage
  opening =
      from_user (
        build_dev_message desk.show_float plan (cited_findings plan state)
          (confirmed_hypothesis state) (repo_snapshots plan.target_repos []))
      ∷ []

  -- `retry_messages`
  unfoldable pub retry_messages : ChangesError → List ChatMessage
  retry_messages e =
      opening
      ++ from_assistant (
          "[Previous response had invalid diffs: Diff validation attempt 1: "
          <> error_text e
          <> "]")
        ∷ from_user (corrective_diff_message (failures_of e))
        ∷ []

  -- The second reply, which is asked for only after diffs that are not valid; where it is not asked
  -- for, it is not read.
  unfoldable pub second_reply : Result LlmError DevLlmOutput → Result LlmError DevLlmOutput
  second_reply (err e) = err e
  second_reply (ok out) = elim (validate_file_changes desk.parse out.changes) [
    | err e ↦ desk.ask (retry_messages e)
    | ok valid ↦ ok out
  ]

  -- `run_dev`, with what it asks
  unfoldable pub dev_dialogue : String → Result LlmError DevResult
  dev_dialogue proposal_id =
      let first = desk.ask opening in
      run_dev desk.parse plan state proposal_id first (second_reply first)

  -- The second reply: not asked for, or the answer to the retry after diffs that are not valid, whose
  -- message names each of them.
  pub data IsSecond (first : Result LlmError DevLlmOutput)
      : Result LlmError DevLlmOutput → Type 0 where
    not_asked : IsSecond first first
    asked_again :
        (out : DevLlmOutput) (e : ChangesError)
        → first ≡ ok out
        → validate_file_changes desk.parse out.changes ≡ err e
        → All
            (λ f. str_in (failure_item f) (corrective_diff_message (failures_of e)) ≡ true)
            (failures_of e)
        → IsSecond first (desk.ask (retry_messages e))

  second_reply-IsSecond :
      (first : Result LlmError DevLlmOutput) → IsSecond first (second_reply first)
  unfolding second_reply
  second_reply-IsSecond (err e) = not_asked
  second_reply-IsSecond (ok out) = go (validate_file_changes desk.parse out.changes) refl
    where
      go :
          (r : Result ChangesError (Unit {0}))
          → validate_file_changes desk.parse out.changes ≡ r
          → IsSecond (ok out) (second_reply (ok out))
      go (ok tt) e = rw (e, second_reply) not_asked
      go (err x) e =
          rw (e, second_reply)
            (asked_again out x refl e (corrective_diff_message-names (failures_of x)))

  -- Whatever the model answers to the conversations of a run of the dev agent: a proposal has changes,
  -- their diffs are valid and lie in the repos of the plan, it names the plan, and its body contains the
  -- id of the first confirmed hypothesis, if there is one; a report names the plan, one or two things
  -- that were tried, and what failed; the agent raises only what one of the two replies raised. The
  -- second reply is asked for only after diffs that are not valid, with a message that names each of them.
  pub dev_dialogue-IsDialogue :
      (proposal_id : String)
      → IsOutcome desk.parse plan state
          (desk.ask opening)
          (second_reply (desk.ask opening))
          (dev_dialogue proposal_id)
        × IsSecond (desk.ask opening) (second_reply (desk.ask opening))
  unfolding dev_dialogue
  dev_dialogue-IsDialogue proposal_id = (
    run_dev-IsOutcome desk.parse plan state proposal_id (desk.ask opening)
        (second_reply (desk.ask opening)),
    second_reply-IsSecond (desk.ask opening),
  )
