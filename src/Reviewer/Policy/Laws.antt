-- ===== src/Reviewer/Policy/Laws.antt =====
-- What a proposal without violations satisfies.
use alph_e.Common.{
  String, ◌≡◌, ◌≢◌, ◌↔◌, none, true, false, List, [], ◌∷◌, map, any, nonempty, str_in, All, Any,
  Elem, contains-Elem, arith,
}
use alph_e.Schemas.{Finding, Hypothesis, FixProposal, FileChange, RemediationPlan}
use alph_e.Reviewer.Policy.{
  out_of_scope, check_diff_repos, check_commit_message, check_pr_body_evidence, run_all_checks,
}

-- The three rules, as a relation between the proposal and what it is held against.
pub record Complies (proposal : FixProposal) (plan : RemediationPlan) (hypothesis : Hypothesis)
    (findings : List Finding) : Type 0 where
  pub repos : All (λ c. Elem c.repo plan.target_repos) proposal.changes
  pub some_repo : plan.target_repos ≢ []
  pub commit : str_in hypothesis.id proposal.commit_message ≡ true
  pub evidence : Any (λ f. str_in f.evidence_id proposal.pr_body ≡ true) findings

out_of_scope_iff :
    (changes : List FileChange) (allowed : List String)
    → (nonempty (out_of_scope changes allowed) ≡ false) ↔ All (λ c. Elem c.repo allowed) changes
out_of_scope_iff [] allowed = ground arith
out_of_scope_iff (c ∷ changes) allowed =
    ground (arith, out_of_scope_iff changes allowed, contains-Elem c.repo allowed)

cited_iff :
    (body : String) (findings : List Finding)
    → (any (λ eid. str_in eid body) (map (λ f. f.evidence_id) findings) ≡ true)
      ↔ Any (λ f. str_in f.evidence_id body ≡ true) findings
cited_iff body [] = ground arith
cited_iff body (f ∷ findings) = ground (arith, cited_iff body findings)

pub diff_repos_iff :
    (proposal : FixProposal) (plan : RemediationPlan)
    → (check_diff_repos proposal plan ≡ none)
      ↔ ((plan.target_repos ≢ []) × All (λ c. Elem c.repo plan.target_repos) proposal.changes)
unfolding check_diff_repos
diff_repos_iff proposal plan = ground (arith, out_of_scope_iff proposal.changes plan.target_repos)

commit_message_iff :
    (proposal : FixProposal) (hypothesis : Hypothesis)
    → (check_commit_message proposal hypothesis ≡ none)
      ↔ (str_in hypothesis.id proposal.commit_message ≡ true)
unfolding check_commit_message
commit_message_iff proposal hypothesis = ground arith

pr_body_iff :
    (proposal : FixProposal) (findings : List Finding)
    → (check_pr_body_evidence proposal findings ≡ none)
      ↔ Any (λ f. str_in f.evidence_id proposal.pr_body ≡ true) findings
unfolding check_pr_body_evidence
pr_body_iff proposal [] = ground arith
pr_body_iff proposal (f ∷ findings) = ground (arith, cited_iff proposal.pr_body (f ∷ findings))

-- There is no violation exactly when the plan names a repo, every change lies in a repo that the
-- plan names, the commit message contains the id of the hypothesis, and the body of the pull
-- request contains the evidence id of one of the findings.
pub run_all_checks_iff :
    (proposal : FixProposal) (plan : RemediationPlan) (hypothesis : Hypothesis)
    (findings : List Finding)
    → (run_all_checks proposal plan hypothesis findings ≡ [])
      ↔ Complies proposal plan hypothesis findings
unfolding run_all_checks
run_all_checks_iff proposal plan hypothesis findings = (
  λ clean.
      let repos : check_diff_repos proposal plan ≡ none = ground arith in
      let commit : check_commit_message proposal hypothesis ≡ none = ground arith in
      let body : check_pr_body_evidence proposal findings ≡ none = ground arith in
      record {
        repos = ((diff_repos_iff proposal plan).0 repos).1;
        some_repo = ((diff_repos_iff proposal plan).0 repos).0;
        commit = (commit_message_iff proposal hypothesis).0 commit;
        evidence = (pr_body_iff proposal findings).0 body;
      },
  λ c. rw (
    (diff_repos_iff proposal plan).1 (c.some_repo, c.repos),
    (commit_message_iff proposal hypothesis).1 c.commit,
    (pr_body_iff proposal findings).1 c.evidence,
  ),
)
