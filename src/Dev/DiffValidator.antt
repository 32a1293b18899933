-- ===== src/Dev/DiffValidator.antt =====
-- agent/src/agent/orchestrator/dev/diff_validator.py. `unidiff.PatchSet` is the argument `parse`:
-- the number of files in the patch, or the text of its parse error.
use alph_e.Common.{
  ◌<>◌, ℕ, zero, suc, String, Bool, false, not, ◌&&◌, ◌==◌, List, [], ◌∷◌, map, length, nonempty,
  Result, ok, err, strip, truthy, joined, show_ℕ, ltb, if◌then◌else◌,
}
use alph_e.Schemas.{FileChange}

-- `DiffValidationError.failures`: the detail of each (repo, path)
abbrev pub Failures : Type 0
Failures = List ((String × String) × String)

-- `ValueError` for no changes, or `DiffValidationError`
pub data ChangesError : Type 0 where
  no_changes : ChangesError
  invalid_diffs : Failures → ChangesError

-- one line of the message
abbrev failure_line : (String × String) × String → String
failure_line ((repo, path), detail) = "  " <> repo <> "/" <> path <> ": " <> detail

-- `str(exc)`
unfoldable pub error_text : ChangesError → String
error_text no_changes = "FixProposal.changes must contain at least one FileChange."
error_text (invalid_diffs failures) =
    "Diff validation failed for "
    <> show_ℕ (length failures)
    <> " file(s):\n"
    <> joined "\n" (map failure_line failures)

-- `failures[key] = detail`
unfoldable pub record_failure : String × String → String → Failures → Failures
record_failure (repo, path) detail [] = ((repo, path), detail) ∷ []
record_failure (repo, path) detail (((r, p), d) ∷ rest) =
    if r == repo && p == path
    then ((r, p), detail) ∷ rest
    else ((r, p), d) ∷ record_failure (repo, path) detail rest

-- the failure of one diff, if there is one
pub data Verdict : Type 0 where
  valid : Verdict
  invalid : String → Verdict

unfoldable pub judged : Result String ℕ → Verdict
judged (err exc) = invalid exc
judged (ok zero) = invalid "diff parsed but contains no hunks"
judged (ok (suc n)) = valid

-- what one turn of the loop leaves in the dictionary
unfoldable pub after_verdict : Failures → FileChange → Verdict → Failures
after_verdict failures c valid = failures
after_verdict failures c (invalid detail) = record_failure (c.repo, c.path) detail failures

module _ (parse : String → Result String ℕ) where
  unfoldable pub diff_verdict : String → Verdict
  diff_verdict diff =
      if truthy (strip diff) then judged (parse (strip diff)) else invalid "diff is empty"

  -- the loop over the changes
  unfoldable pub collect : Failures → List FileChange → Failures
  collect failures [] = failures
  collect failures (c ∷ rest) = collect (after_verdict failures c (diff_verdict c.diff)) rest

  -- `validate_file_changes`
  unfoldable pub validate_file_changes : List FileChange → Result ChangesError (Unit {0})
  validate_file_changes changes =
      if not (nonempty changes)
      then err no_changes
      else if nonempty (collect [] changes)
      then err (invalid_diffs (collect [] changes))
      else ok tt

  -- `is_valid_diff`
  unfoldable pub is_valid_diff : String → Bool
  is_valid_diff diff =
      if truthy (strip diff)
      then elim (parse (strip diff)) [ ok n ↦ ltb 0 n | err exc ↦ false ]
      else false
