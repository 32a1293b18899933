-- ===== src/Verifier/Contents.antt =====
-- What `_extract_new_content` of agent/src/agent/orchestrator/verifier/checks.py gives for the diff of
-- a new file.
use Prim.Native.Char.{Char}
use Prim.Native.String.{◌∷◌ as ◌:>◌, [] as empty}
use text.Mathlib.Text.{starts_with}
use text.Mathlib.TextEquality.{starts_with_iff}
use text.Mathlib.TextPositions.{starts_with-append}
use text.Mathlib.TextLemmas.{
  cons-append, nil-append, append_assoc as text_assoc, append_cancel_left, cons-ne-nil,
}
use mathlib.Core.Path.{subst}
use alph_e.Common.{
  ◌<>◌, String, ◌≡◌, ◌≢◌, refl, sym, ap, ◌∙◌, true, false, List, [], ◌∷◌, ◌++◌, map, filter, joined,
  is_break, All, IsLine, AreLines, splitlines-joined, Bool-cases, inl, inr, arith,
}
use alph_e.Verifier.Manifests.{is_added, without_first, extract_new_content}

abbrev plus : Char
plus = "+"

-- A line of a diff that adds a line to the file.
abbrev pub added_line : String → String
added_line line = "+" <> line

-- A line of the file, which its added line does not make a header.
abbrev pub IsContent : String → Type 0
IsContent line = IsLine line × (starts_with line "++" ≡ false)

-- A header: a line that adds nothing.
abbrev pub IsHeader : String → Type 0
IsHeader line = IsLine line × (is_added line ≡ false)

plus_cons : (line : String) → added_line line ≡ plus :> line
plus_cons line = cons-append plus empty line ∙ rw nil-append refl

no_header : (line : String) → IsContent line → starts_with (added_line line) "+++" ≡ false
no_header line h = elim (Bool-cases (starts_with (added_line line) "+++")) [
  | inr no_prefix ↦ no_prefix
  | inl prefix ↦
      let (rest, e) = (starts_with_iff (added_line line) "+++").0 prefix in
      let same = append_cancel_left "+" ("++" <> rest) line (sym (text_assoc "+" "++" rest) ∙ e) in
      let header = (starts_with_iff line "++").1 (rest, same) in
      absurd (ground (arith, header, h.1))
]

added-is_added : (line : String) → IsContent line → is_added (added_line line) ≡ true
unfolding is_added
added-is_added line h = rw (starts_with-append "+" line, no_header line h) refl

added-IsLine : (line : String) → IsLine line → IsLine (added_line line) × (added_line line ≢ "")
unfolding is_break
added-IsLine line h =
    subst (λ s. IsLine s × (s ≢ "")) (sym (plus_cons line)) ((refl, h), cons-ne-nil plus line)

-- The lines of a diff: headers, then the lines added.
abbrev pub diff_lines : List String → List String → List String
diff_lines headers lines = headers ++ map added_line lines

added-AreLines : (lines : List String) → All IsContent lines → AreLines (map added_line lines)
added-AreLines [] h = tt
added-AreLines (line ∷ []) h = added-IsLine line h.0.0
added-AreLines (line ∷ next ∷ rest) h =
    ((added-IsLine line h.0.0).0, added-AreLines (next ∷ rest) h.1)

diff_lines-AreLines :
    (headers lines : List String)
    → All IsHeader headers
    → All IsContent lines
    → lines ≢ []
    → AreLines (diff_lines headers lines)
diff_lines-AreLines [] lines h k some_line = added-AreLines lines k
diff_lines-AreLines (header ∷ []) [] h k some_line = absurd (some_line refl)
diff_lines-AreLines (header ∷ []) (line ∷ rest) h k some_line =
    (h.0.0, added-AreLines (line ∷ rest) k)
diff_lines-AreLines (header ∷ next ∷ headers) lines h k some_line =
    (h.0.0, diff_lines-AreLines (next ∷ headers) lines h.1 k some_line)

filter-added :
    (lines : List String)
    → All IsContent lines
    → map without_first (filter is_added (map added_line lines)) ≡ lines
unfolding without_first
filter-added [] h = refl
filter-added (line ∷ lines) h =
    rw (added-is_added line h.0, plus_cons line) (ap (λ xs. line ∷ xs) (filter-added lines h.1))

filter-diff_lines :
    (headers lines : List String)
    → All IsHeader headers
    → All IsContent lines
    → map without_first (filter is_added (diff_lines headers lines)) ≡ lines
filter-diff_lines [] lines h k = filter-added lines k
filter-diff_lines (header ∷ headers) lines h k = rw h.0.1 (filter-diff_lines headers lines h.1 k)

-- Let a diff consist of header lines, none of which counts as added, and then of every line of a new
-- file that has at least one, added, where no header and no line contains a line break of any kind that
-- `splitlines` knows, and no line of the file begins with two plus signs. What is handed to kubectl is
-- then the lines of the file, joined by newlines.
pub extract_new_content-diff_lines :
    (headers lines : List String)
    → All IsHeader headers
    → All IsContent lines
    → lines ≢ []
    → extract_new_content (joined "\n" (diff_lines headers lines)) ≡ joined "\n" lines
unfolding extract_new_content
extract_new_content-diff_lines headers [] h k some_line = absurd (some_line refl)
extract_new_content-diff_lines headers (line ∷ lines) h k some_line =
    rw
      (
        splitlines-joined (diff_lines headers (line ∷ lines))
            (diff_lines-AreLines headers (line ∷ lines) h k some_line),
        filter-diff_lines headers (line ∷ lines) h k,
      )
      refl
