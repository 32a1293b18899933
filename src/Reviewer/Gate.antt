-- ===== src/Reviewer/Gate.antt =====
-- What must hold for each decision that the reviewer gives back.
use alph_e.Common.{ℕ, String, ◌≡◌, ◌≢◌, refl, some, List, [], ◌∷◌, filter, Result, ok, arith}
use alph_e.Schemas.{
  IncidentState, FixProposal, RemediationPlan, ReviewDecision, ReviewerOutput, is_confirmed,
  Hypothesis,
}
use alph_e.Llm.{LlmError}
use alph_e.Reviewer.{
  ReviewerUpdate, reviewer_node, judge, soft_judgement, apply_guardrails, build_return,
}
use alph_e.Reviewer.Policy.{PolicyViolation, run_all_checks}
use alph_e.Reviewer.Policy.Laws.{Complies, run_all_checks_iff}

-- A decision other than a request for changes: the hard rules hold for the first confirmed
-- hypothesis, the decision is the model's own, and a challenge cites evidence.
pub record IsGated (state : IncidentState) (proposal : FixProposal) (plan : RemediationPlan)
    (reply : Result LlmError ReviewerOutput) (output : ReviewerOutput) : Type 0 where
  pub hypothesis : Hypothesis
  pub others : List Hypothesis
  pub first : filter is_confirmed state.hypotheses ≡ hypothesis ∷ others
  pub complies : Complies proposal plan hypothesis state.findings
  pub own : reply ≡ ok output
  pub cited : output.decision ≡ ReviewDecision.challenge_root_cause → output.cited_evidence_ids ≢ []

module _ (state : IncidentState) (now : ℕ) (proposal : FixProposal) (plan : RemediationPlan)
    (api_key : String) (reply : Result LlmError ReviewerOutput) (u : ReviewerUpdate)
    (output : ReviewerOutput) (given : u.reviewer_output ≡ some output)
    (other : output.decision ≢ ReviewDecision.request_changes_on_fix) where
  soft_IsOwn :
      soft_judgement state now api_key reply ≡ ok u
      → (reply ≡ ok output)
        × (output.decision ≡ ReviewDecision.challenge_root_cause → output.cited_evidence_ids ≢ [])
  unfolding soft_judgement apply_guardrails build_return
  soft_IsOwn e = ground arith

  judge-Complies :
      (h : Hypothesis)
      → judge state now proposal plan api_key reply h ≡ ok u
      → Complies proposal plan h state.findings × (soft_judgement state now api_key reply ≡ ok u)
  unfolding judge build_return
  judge-Complies h e = go (run_all_checks proposal plan h state.findings) refl
    where
      go :
          (vs : List PolicyViolation)
          → run_all_checks proposal plan h state.findings ≡ vs
          → Complies proposal plan h state.findings
            × (soft_judgement state now api_key reply ≡ ok u)
      go [] clean =
          ((run_all_checks_iff proposal plan h state.findings).0 clean, rw (clean, judge) at e)
      go (v ∷ vs) dirty = absurd (ground arith)

  reviewer_node-IsGated_of_filter :
      (hs : List Hypothesis)
      → filter is_confirmed state.hypotheses ≡ hs
      → reviewer_node state now (some proposal) (some plan) api_key reply ≡ ok u
      → IsGated state proposal plan reply output
  unfolding reviewer_node build_return
  reviewer_node-IsGated_of_filter [] e run = absurd (ground arith)
  reviewer_node-IsGated_of_filter (h ∷ hs) e run =
      let (complies, soft) = judge-Complies h (rw (e, reviewer_node) at run) in
      let (own, cited) = soft_IsOwn soft in
      record {
        hypothesis = h;
        others = hs;
        first = e;
        complies = complies;
        own = own;
        cited = cited;
      }

  -- Where the reviewer returns a decision other than a request for changes (an approval or a
  -- challenge), the hard rules hold for the first confirmed hypothesis, the decision is the
  -- model's, and a challenge cites evidence.
  pub reviewer_node-IsGated :
      reviewer_node state now (some proposal) (some plan) api_key reply ≡ ok u
      → IsGated state proposal plan reply output
  reviewer_node-IsGated =
      reviewer_node-IsGated_of_filter (filter is_confirmed state.hypotheses) refl
