-- ===== src/Reviewer/Policy.antt =====
-- agent/src/agent/orchestrator/reviewer/policy.py
pub mod Laws
use alph_e.Common.{
  ◌<>◌, String, Option, none, some, Bool, not, List, [], ◌∷◌, ◌++◌, map, filter, any, contains,
  nonempty, str_in, repr, repr_list, sorted_set, if◌then◌else◌,
}
use alph_e.Schemas.{Finding, Hypothesis, FixProposal, FileChange, RemediationPlan}

pub record PolicyViolation : Type 0 where
  pub rule : String
  pub detail : String

-- the repos of the changes that lie outside those allowed
abbrev pub out_of_scope : List FileChange → List String → List String
out_of_scope changes allowed =
    map (λ c. c.repo) (filter (λ c. not (contains c.repo allowed)) changes)

unfoldable pub check_diff_repos : FixProposal → RemediationPlan → Option PolicyViolation
check_diff_repos proposal plan =
    if not (nonempty plan.target_repos)
    then some (record {
      rule = "diff_repos";
      detail =
          "RemediationPlan.target_repos is empty — cannot validate that changed files are within approved repositories.";
    })
    else if nonempty (out_of_scope proposal.changes plan.target_repos)
    then some (record {
      rule = "diff_repos";
      detail =
          "PR touches repos outside plan.target_repos. Out-of-scope repos: "
          <> repr_list (sorted_set (out_of_scope proposal.changes plan.target_repos))
          <> ". Allowed: "
          <> repr_list (sorted_set plan.target_repos)
          <> ".";
    })
    else none

unfoldable pub check_commit_message : FixProposal → Hypothesis → Option PolicyViolation
check_commit_message proposal hypothesis =
    if str_in hypothesis.id proposal.commit_message
    then none
    else some (record {
      rule = "commit_message";
      detail =
          "Commit message does not reference the confirmed hypothesis ID '"
          <> hypothesis.id
          <> "'. Commit message: "
          <> repr proposal.commit_message
          <> ".";
    })

abbrev evidence_ids : List Finding → List String
evidence_ids = map (λ f. f.evidence_id)

unfoldable pub check_pr_body_evidence : FixProposal → List Finding → Option PolicyViolation
check_pr_body_evidence proposal findings =
    if not (nonempty (evidence_ids findings))
    then some (record {
      rule = "pr_body_evidence";
      detail =
          "No findings are present in IncidentState — cannot verify that the PR body references a known evidence_id.";
    })
    else if any (λ eid. str_in eid proposal.pr_body) (evidence_ids findings)
    then none
    else some (record {
      rule = "pr_body_evidence";
      detail =
          "PR body does not reference any Finding.evidence_id. Known evidence IDs: "
          <> repr_list (sorted_set (evidence_ids findings))
          <> ".";
    })

abbrev found : Option PolicyViolation → List PolicyViolation
found none = []
found (some v) = v ∷ []

unfoldable pub run_all_checks :
    FixProposal → RemediationPlan → Hypothesis → List Finding → List PolicyViolation
run_all_checks proposal plan hypothesis findings =
    found (check_diff_repos proposal plan)
    ++ (found (check_commit_message proposal hypothesis)
        ++ found (check_pr_body_evidence proposal findings))
