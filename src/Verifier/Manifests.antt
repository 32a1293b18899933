-- ===== src/Verifier/Manifests.antt =====
-- The dry run of agent/src/agent/orchestrator/verifier/checks.py: which changes are manifests, and
-- what is handed to kubectl, whose run on its standard input is an argument; an error
-- is what `subprocess.run` raises.
use Prim.Native.Char.{code}
use Prim.Native.String.{[], ◌∷◌}
use text.Mathlib.Text.{starts_with}
use alph_e.Common.{
  ◌<>◌, String, Option, none, some, Bool, true, List, map, filter, nonempty, any, contains, joined,
  lower, str_in, splitlines, split_at, lstrip_chars, lstrip, not, nat_eq, ◌==◌, ◌&&◌, ◌||◌,
  if◌then◌else◌, Result, ok, err,
}
use alph_e.Schemas.{FixProposal, FileChange}

-- `_K8S_EXTENSIONS`
abbrev k8s_extensions : List String
k8s_extensions = List.◌∷◌ ".yaml" (List.◌∷◌ ".yml" (List.◌∷◌ ".json" List.[]))

-- `_K8S_PATH_KEYWORDS`
abbrev k8s_path_keywords : List String
k8s_path_keywords = List.◌∷◌ "deploy" (
    List.◌∷◌ "manifest"
      (List.◌∷◌ "k8s" (List.◌∷◌ "kubernetes" (List.◌∷◌ "helm" (List.◌∷◌ "chart" List.[])))))

-- What the program uses of `pathlib.PurePosixPath`: the parts, the text and the suffix of a path.
unfoldable pub path_parts : String → List String
path_parts path =
    filter (λ part. not (part == "" || part == ".")) (split_at (λ c. nat_eq (code c) 0x2f) path)

unfoldable pub str_path : String → String
str_path path =
    let root =
      if starts_with path "//" && not (starts_with path "///")
      then "//"
      else if starts_with path "/"
      then "/"
      else "" in
    let text = root <> joined "/" (path_parts path) in if text == "" then "." else text

-- the name of the path: its last part
unfoldable pub last_part : List String → String
last_part List.[] = ""
last_part (List.◌∷◌ part List.[]) = part
last_part (List.◌∷◌ part (List.◌∷◌ next rest)) = last_part (List.◌∷◌ next rest)

-- the text from its last dot on
unfoldable pub from_last_dot : String → Option String
from_last_dot [] = none
from_last_dot (c ∷ s) = elim (from_last_dot s) [
  | some t ↦ some t
  | none ↦ if nat_eq (code c) 0x2e then some (c ∷ s) else none
]

-- from a dot that is neither the first nor the last character of the name
unfoldable pub suffix_of_name : String → String
suffix_of_name [] = ""
suffix_of_name (c ∷ s) = elim (from_last_dot s) [ none ↦ "" | some t ↦ if t == "." then "" else t ]

unfoldable pub path_suffix : String → String
path_suffix path = suffix_of_name (last_part (path_parts path))

-- one line of `_has_k8s_markers`
unfoldable pub is_marker : String → Bool
is_marker line =
    let stripped = lstrip (lstrip_chars (λ c. nat_eq (code c) 0x2b || nat_eq (code c) 0x2d) line) in
    starts_with stripped "apiVersion:" || starts_with stripped "kind:"

-- `_has_k8s_markers`
unfoldable pub has_k8s_markers : String → Bool
has_k8s_markers diff = any is_marker (splitlines diff)

-- `_looks_like_k8s_manifest`
unfoldable pub looks_like_k8s_manifest : FileChange → Bool
looks_like_k8s_manifest change =
    if not (contains (path_suffix change.path) k8s_extensions)
    then Bool.false
    else (let lowered = lower (str_path change.path) in
        any (λ kw. str_in kw lowered) k8s_path_keywords || has_k8s_markers change.diff)

-- an added line, but no header of a file
unfoldable pub is_added : String → Bool
is_added line = starts_with line "+" && not (starts_with line "+++")

-- `line[1:]`
unfoldable pub without_first : String → String
without_first [] = []
without_first (c ∷ s) = s

-- `_extract_new_content`
unfoldable pub extract_new_content : String → String
extract_new_content diff =
    let plus_lines = map without_first (filter is_added (splitlines diff)) in
    if nonempty plus_lines then joined "\n" plus_lines else diff

-- the text that is piped to kubectl
unfoldable pub combined_yaml : List FileChange → String
combined_yaml changes = joined "\n---\n" (map (λ c. extract_new_content c.diff) changes)

-- `check_kubectl_dry_run`
unfoldable pub check_kubectl_dry_run :
    (String → Result String (Bool × String)) → FixProposal → Result String (Bool × String)
check_kubectl_dry_run kubectl proposal =
    let k8s_changes = filter looks_like_k8s_manifest proposal.changes in
    if not (nonempty k8s_changes)
    then ok (true, "")
    else elim (kubectl (combined_yaml k8s_changes)) [
      | err exc ↦ err exc
      | ok (passed, output) ↦ ok (passed, joined "\n" (List.◌∷◌ output List.[]))
    ]
