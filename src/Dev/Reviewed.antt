-- ===== src/Dev/Reviewed.antt =====
-- What the hard rules of the reviewer say of the dev agent's proposals: agent/src/agent/orchestrator/nodes/dev.py
-- and agent/src/agent/orchestrator/reviewer/policy.py together.
use alph_e.Common.{String, ℕ, ◌≡◌, ◌↔◌, true, List, [], Any, str_in, Result, ok}
use mathlib.Core.Path.{subst}
use alph_e.Schemas.{FixProposal, RemediationPlan, Hypothesis, IncidentState, Finding}
use alph_e.Llm.{LlmError}
use alph_e.Dev.{DevLlmOutput, dev_output, run_dev}
use alph_e.Dev.Sound.{IsSound, IsOutcome, run_dev-IsOutcome, some_target}
use alph_e.Reviewer.Policy.{run_all_checks}
use alph_e.Reviewer.Policy.Laws.{run_all_checks_iff}

module _ (parse : String → Result String ℕ) (plan : RemediationPlan) (state : IncidentState)
    (proposal_id : String) where
  -- Of a proposal of the dev agent for a plan the rule on repos never complains: there is no violation
  -- exactly when the commit message contains the id of the hypothesis and the body of the pull request
  -- contains the evidence id of one of the findings.
  pub run_dev-reviewed_iff :
      (first second : Result LlmError DevLlmOutput) (p : FixProposal) (reasoning : String)
      (hypothesis : Hypothesis) (findings : List Finding)
      → run_dev parse plan state proposal_id first second ≡ ok (dev_output p reasoning)
      → (run_all_checks p plan hypothesis findings ≡ []) ↔ (
          (str_in hypothesis.id p.commit_message ≡ true)
          × Any (λ f. str_in f.evidence_id p.pr_body ≡ true) findings)
  run_dev-reviewed_iff first second p reasoning hypothesis findings e =
      let sound : IsSound parse plan state p =
        subst (IsOutcome parse plan state first second) e
          (run_dev-IsOutcome parse plan state proposal_id first second) in
      let rules = run_all_checks_iff p plan hypothesis findings in
      (
        λ clean. ((rules.0 clean).commit, (rules.0 clean).evidence),
        λ (commit, evidence). rules.1 (record {
          repos = sound.repos;
          some_repo = some_target p.changes plan.target_repos sound.has_changes sound.repos;
          commit = commit;
          evidence = evidence;
        }),
      )
