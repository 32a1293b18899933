-- ===== src/Dev/Sound.antt =====
-- What a run of the dev agent gives back.
use Prim.Native.String
use text.Mathlib.TextLemmas.{append_assoc}
use alph_e.Common.{
  ◌<>◌, ap, if◌then◌else◌, ◌≤◌, ℕ, String, ◌≡◌, ◌≢◌, refl, sym, ◌∙◌, ◌↔◌, ◌⊎◌, inl, inr, Option,
  none, some, Bool, true, false, not, List, [], ◌∷◌, length, nonempty, filter, contains, Result, ok,
  err, All, Elem, contains-Elem, arith, str_in, str_in-append, Bool-cases,
}
use alph_e.Schemas.{
  FileChange, FixProposal, RemediationPlan, Hypothesis, IncidentState, BlockedReport,
}
use alph_e.Llm.{LlmError, structured_output_error}
use alph_e.Dev.{
  DevLlmOutput, DevResult, dev_output, blocked, run_dev, propose, second_attempt, cite,
  confirmed_hypothesis,
}
use alph_e.Dev.DiffValidator.{validate_file_changes, is_valid_diff, ChangesError}
use alph_e.Dev.Validation.{validate_file_changes_iff}

-- The body cites the hypothesis, if there is one.
abbrev pub Cites : Option Hypothesis → String → Type 0
Cites none body = Unit
Cites (some h) body = str_in h.id body ≡ true

-- A proposal that keeps to its plan: it has changes, their diffs are valid and they lie in the
-- repos of the plan, which it names; its body cites the confirmed hypothesis.
pub record IsSound (parse : String → Result String ℕ) (plan : RemediationPlan)
    (state : IncidentState) (p : FixProposal) : Type 0 where
  pub has_changes : p.changes ≢ []
  pub diffs : All (λ c. is_valid_diff parse c.diff ≡ true) p.changes
  pub repos : All (λ c. Elem c.repo plan.target_repos) p.changes
  pub of_plan : p.plan_id ≡ plan.id
  pub cites : Cites (confirmed_hypothesis state) p.pr_body

-- A report says for which plan it is, what was tried, at most twice, and what failed.
pub record IsReport (plan : RemediationPlan) (b : BlockedReport) : Type 0 where
  pub item : b.work_item_id ≡ String.◌++◌ "B-04:" plan.id
  pub tried : b.what_was_tried ≢ []
  pub twice : length b.what_was_tried ≤ 2
  pub failed : b.what_failed ≢ []

module _ (parse : String → Result String ℕ) (plan : RemediationPlan) (state : IncidentState) where
  abbrev pub IsAnswer : DevResult → Type 0
  IsAnswer (dev_output p reasoning) = IsSound parse plan state p
  IsAnswer (blocked b) = IsReport plan b

  -- an answer, or the error of one of the two replies, which no schema explains
  abbrev pub IsOutcome :
      Result LlmError DevLlmOutput
      → Result LlmError DevLlmOutput
      → Result LlmError DevResult
      → Type 0
  IsOutcome first second (ok r) = IsAnswer r
  IsOutcome first second (err e) = (first ≡ err e) ⊎ (second ≡ err e)

cite-Cites : (h : Option Hypothesis) (body : String) → Cites h (cite h body)
unfolding cite
cite-Cites none body = tt
cite-Cites (some h) body = go (str_in h.id body) refl
  where
    go :
        (b : Bool)
        → str_in h.id body ≡ b
        → str_in h.id
            (if b then body else (body <> ("\n\n---\n_Hypothesis ref: " <> (h.id <> "_"))))
          ≡ true
    go true e = e
    go false e =
        ap (str_in h.id) (sym (append_assoc body "\n\n---\n_Hypothesis ref: " (h.id <> "_")))
        ∙ str_in-append (body <> "\n\n---\n_Hypothesis ref: ") h.id "_"

in_scope_iff :
    (cs : List FileChange) (allowed : List String)
    → (nonempty (filter (λ c. not (contains c.repo allowed)) cs) ≡ false)
      ↔ All (λ c. Elem c.repo allowed) cs
in_scope_iff [] allowed = ground arith
in_scope_iff (c ∷ cs) allowed =
    ground (arith, in_scope_iff cs allowed, contains-Elem c.repo allowed)

module _ (parse : String → Result String ℕ) (plan : RemediationPlan) (state : IncidentState)
    (proposal_id : String) where
  propose-IsAnswer :
      (tried : List String) (out : DevLlmOutput)
      → tried ≢ []
      → length tried ≤ 2
      → validate_file_changes parse out.changes ≡ ok tt
      → IsAnswer parse plan state (propose parse plan state proposal_id tried out)
  unfolding propose
  propose-IsAnswer tried out h k v =
      let (some_change, valid) = (validate_file_changes_iff parse out.changes).0 v in
      elim (Bool-cases
        (nonempty (filter (λ c. not (contains c.repo plan.target_repos)) out.changes))) [
          | inl outside ↦
              rw (outside, propose)
                (record { item = refl; tried = h; twice = k; failed = λ e. ground arith })
          | inr inside ↦
              rw (inside, propose)
                (record {
                  has_changes = some_change;
                  diffs = valid;
                  repos = (in_scope_iff out.changes plan.target_repos).0 inside;
                  of_plan = refl;
                  cites = cite-Cites (confirmed_hypothesis state) out.pr_body;
                })
        ]

  second_attempt-IsOutcome :
      (e : ChangesError) (first second : Result LlmError DevLlmOutput)
      → IsOutcome parse plan state first second
          (second_attempt parse plan state proposal_id e second)
  unfolding second_attempt
  second_attempt-IsOutcome e first (err (structured_output_error exc)) = record {
    item = refl;
    tried = λ z. ground arith;
    twice = ground arith;
    failed = λ z. ground arith;
  }
  second_attempt-IsOutcome e first (err x) = inr refl
  second_attempt-IsOutcome e first (ok out) = go (validate_file_changes parse out.changes) refl
    where
      go :
          (r : Result ChangesError (Unit {0}))
          → validate_file_changes parse out.changes ≡ r
          → IsOutcome parse plan state first
              (ok out)
              (second_attempt parse plan state proposal_id e (ok out))
      go (err x) q =
          rw (q, second_attempt)
            (record {
              item = refl;
              tried = λ z. ground arith;
              twice = ground arith;
              failed = λ z. ground arith;
            })
      go (ok tt) q =
          rw (q, second_attempt) (propose-IsAnswer _ out (λ z. ground arith) (ground arith) q)

  -- If a run of the dev agent gives a proposal, the proposal has changes, `is_valid_diff` accepts
  -- each diff, each change lies in a repo of the plan, the proposal names the plan, and its body
  -- contains the id of the first confirmed hypothesis, if there is one. If it gives a report, the
  -- report names the plan, one or two things that were tried, and what failed. It raises only
  -- what one of the two replies raised.
  pub run_dev-IsOutcome :
      (first second : Result LlmError DevLlmOutput)
      → IsOutcome parse plan state first second (run_dev parse plan state proposal_id first second)
  unfolding run_dev
  run_dev-IsOutcome (err (structured_output_error exc)) second = record {
    item = refl;
    tried = λ z. ground arith;
    twice = ground arith;
    failed = λ z. ground arith;
  }
  run_dev-IsOutcome (err x) second = inl refl
  run_dev-IsOutcome (ok out) second = go (validate_file_changes parse out.changes) refl
    where
      go :
          (r : Result ChangesError (Unit {0}))
          → validate_file_changes parse out.changes ≡ r
          → IsOutcome parse plan state
              (ok out)
              second
              (run_dev parse plan state proposal_id (ok out) second)
      go (err x) q = rw (q, run_dev) (second_attempt-IsOutcome x (ok out) second)
      go (ok tt) q = rw (q, run_dev) (propose-IsAnswer _ out (λ z. ground arith) (ground arith) q)

Any-nonempty : (x : String) (xs : List String) → Elem x xs → xs ≢ []
Any-nonempty x [] h = ground arith
Any-nonempty x (y ∷ ys) h = λ z. ground arith

-- a plan that one of the changes fits has a repo
pub some_target :
    (cs : List FileChange) (repos : List String)
    → cs ≢ []
    → All (λ c. Elem c.repo repos) cs
    → repos ≢ []
some_target [] repos h k = ground arith
some_target (c ∷ cs) repos h k = Any-nonempty c.repo repos k.0
