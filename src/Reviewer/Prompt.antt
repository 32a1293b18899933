-- ===== src/Reviewer/Prompt.antt =====
-- `_build_review_prompt` of agent/src/agent/orchestrator/nodes/reviewer.py. The texts of floats, and of
-- times in pydantic's JSON, are arguments.
use alph_e.Common.{
  ℕ, String, ◌<>◌, [], ◌∷◌, filter, length, nonempty, repr, repr_list, first_chars, splitlines,
  if◌then◌else◌, Value, dumps, object_of, array_of, fields_of, each,
}
use alph_e.Schemas.{
  IncidentState, Hypothesis, Finding, FixProposal, FileChange, RemediationPlan, is_confirmed,
  status_name,
}

-- `f.model_dump(mode="json")` of a hypothesis
unfoldable pub dumped_hypothesis : (ℕ → String) → Hypothesis → Value
unfolding fields_of each
dumped_hypothesis json_time h = object_of (
    ("id", Value.text h.id)
    ∷ ("text", Value.text h.text)
    ∷ ("score", Value.float h.score)
    ∷ ("status", Value.text (status_name h.status))
    ∷ ("supporting_evidence_ids", array_of Value.text h.supporting_evidence_ids)
    ∷ ("refuting_evidence_ids", array_of Value.text h.refuting_evidence_ids)
    ∷ ("created_at", Value.text (json_time h.created_at))
    ∷ [])

unfoldable pub review_finding : Finding → Value
unfolding fields_of
review_finding f = object_of (
    ("id", Value.text f.id)
    ∷ ("evidence_id", Value.text f.evidence_id)
    ∷ ("summary", Value.text f.summary)
    ∷ ("confidence", Value.float f.confidence)
    ∷ [])

unfoldable pub review_change : FileChange → Value
unfolding fields_of
review_change c = object_of (
    ("repo", Value.text c.repo)
    ∷ ("path", Value.text c.path)
    ∷ ("diff_lines", Value.number (length (splitlines c.diff)))
    ∷ [])

module _ (float_text json_time : ℕ → String) where
  -- `confirmed_summary`
  unfoldable pub confirmed_summary : IncidentState → String
  unfolding dumps each dumped_hypothesis
  confirmed_summary state =
      let confirmed = filter is_confirmed state.hypotheses in
      if nonempty confirmed
      then dumps float_text 0 (array_of (dumped_hypothesis json_time) confirmed)
      else "No confirmed hypothesis."

  -- `findings_summary`
  unfoldable pub findings_summary : IncidentState → String
  unfolding dumps each review_finding
  findings_summary state =
      if nonempty state.findings
      then dumps float_text 0 (array_of review_finding state.findings)
      else "No findings."

  unfoldable pub build_review_prompt : IncidentState → FixProposal → RemediationPlan → String
  unfolding confirmed_summary findings_summary dumps each review_change repr repr_list first_chars
  build_review_prompt state proposal plan =
      "## Incident\nincident_id: "
      <> state.incident_id
      <> "\nservice: "
      <> state.alert.service
      <> "\n\n## Confirmed hypothesis\n"
      <> confirmed_summary state
      <> "\n\n## Findings\n"
      <> findings_summary state
      <> "\n\n## Remediation plan (target_repos: "
      <> repr_list plan.target_repos
      <> ")\nplan_id: "
      <> plan.id
      <> ", rationale: "
      <> plan.rationale
      <> "\n\n## Fix proposal\nproposal_id: "
      <> proposal.id
      <> "\nbranch: "
      <> proposal.branch_name
      <> "\ncommit_message: "
      <> repr proposal.commit_message
      <> "\npr_body (first 500 chars): "
      <> repr (first_chars 500 proposal.pr_body)
      <> "\nchanges: "
      <> dumps float_text 0 (array_of review_change proposal.changes)
      <> "\n\nReview the fix proposal against the confirmed hypothesis and findings. Return your decision, reasoning, and cited_evidence_ids."
