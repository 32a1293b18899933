-- ===== src/Dev/Validation.antt =====
-- `validate_file_changes` and `is_valid_diff` agree.
use alph_e.Common.{
  ℕ, zero, suc, String, ◌≡◌, ◌≢◌, refl, ◌↔◌, Bool, true, false, List, [], ◌∷◌, nonempty, Result, ok,
  err, All, arith, truthy, strip, ltb, if◌then◌else◌,
}
use alph_e.Schemas.{FileChange}
use alph_e.Dev.DiffValidator.{
  Verdict, valid, invalid, judged, diff_verdict, Failures, record_failure, collect, after_verdict,
  validate_file_changes, is_valid_diff,
}

module _ (parse : String → Result String ℕ) where
  verdict_iff :
      (diff : String) → (diff_verdict parse diff ≡ valid) ↔ (is_valid_diff parse diff ≡ true)
  unfolding diff_verdict is_valid_diff judged
  verdict_iff diff = go (truthy (strip diff)) (parse (strip diff))
    where
      go :
          (b : Bool) (r : Result String ℕ)
          → ((if b then judged r else invalid "diff is empty") ≡ valid)
            ↔ ((if b then elim r [ ok n ↦ ltb 0 n | err exc ↦ false ] else false) ≡ true)
      go false r = ground arith
      go true (err exc) = ground arith
      go true (ok zero) = ground arith
      go true (ok (suc n)) = ground arith

  recorded :
      (key : String × String) (detail : String) (fs : Failures)
      → nonempty (record_failure key detail fs) ≡ true
  unfolding record_failure
  recorded key detail [] = refl
  recorded key detail (((r, p), d) ∷ rest) = ground arith

  kept_one :
      (fs : Failures) (c : FileChange) (v : Verdict)
      → nonempty fs ≡ true
      → nonempty (after_verdict fs c v) ≡ true
  unfolding after_verdict
  kept_one fs c valid h = h
  kept_one fs c (invalid detail) h = recorded (c.repo, c.path) detail fs

  kept :
      (cs : List FileChange) (fs : Failures)
      → nonempty fs ≡ true
      → nonempty (collect parse fs cs) ≡ true
  unfolding collect
  kept [] fs h = h
  kept (c ∷ cs) fs h = kept cs _ (kept_one fs c _ h)

  collect_iff :
      (cs : List FileChange)
      → (nonempty (collect parse [] cs) ≡ false) ↔ All (λ c. is_valid_diff parse c.diff ≡ true) cs
  unfolding collect after_verdict
  collect_iff [] = ground arith
  collect_iff (c ∷ cs) = go (diff_verdict parse c.diff) refl (collect_iff cs)
    where
      go :
          (v : Verdict)
          → diff_verdict parse c.diff ≡ v
          → ((nonempty (collect parse [] cs) ≡ false)
              ↔ All (λ c. is_valid_diff parse c.diff ≡ true) cs)
          → (nonempty (collect parse (after_verdict [] c v) cs) ≡ false) ↔ (
              (is_valid_diff parse c.diff ≡ true) × All (λ c. is_valid_diff parse c.diff ≡ true) cs)
      go valid e rest = ground (arith, verdict_iff c.diff, e)
      go (invalid detail) e rest =
          ground (arith, kept cs _ (recorded (c.repo, c.path) detail []), verdict_iff c.diff, e)

  -- The validation of a proposal's changes succeeds exactly when there is a change and
  -- `is_valid_diff` accepts the diff of each.
  pub validate_file_changes_iff :
      (changes : List FileChange)
      → (validate_file_changes parse changes ≡ ok tt)
        ↔ ((changes ≢ []) × All (λ c. is_valid_diff parse c.diff ≡ true) changes)
  unfolding validate_file_changes
  validate_file_changes_iff [] = ground arith
  validate_file_changes_iff (c ∷ cs) = ground (arith, collect_iff (c ∷ cs))
