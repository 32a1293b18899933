-- ===== src/Examples/Checks.antt =====
-- The verifier's theorems at concrete inputs.
use alph_e.Common.{
  ◌≡◌, refl, some, true, false, String, List, [], ◌∷◌, ok, arith, joined, All, is_break, is_line,
  is_line_lem,
}
use alph_e.Schemas.{VerifierResultKind}
use alph_e.Verifier.{RunOf}
use alph_e.Verifier.Manifests.{extract_new_content, is_added}
use alph_e.Verifier.Contents.{IsHeader, IsContent, diff_lines, extract_new_content-diff_lines}
use alph_e.Verifier.Node.{Checks, verifier_node}
use alph_e.Verifier.Verdict.{IsVerdict, verifier_node-IsVerdict}
use alph_e.Samples.{proposal, incident}

-- a git that takes every diff
abbrev takes : RunOf
takes c = ok (true, "")

-- the diff of a new manifest
abbrev headers : List String
headers = "--- /dev/null" ∷ "+++ b/k8s/a.yaml" ∷ "@@ -0,0 +1,2 @@" ∷ []

abbrev contents : List String
contents = "kind: Pod" ∷ "  - x" ∷ []

headers-IsHeader : All IsHeader headers
unfolding is_break is_line is_added
headers-IsHeader = (
  (is_line_lem "--- /dev/null" refl, refl),
  ((is_line_lem "+++ b/k8s/a.yaml" refl, refl), ((is_line_lem "@@ -0,0 +1,2 @@" refl, refl), tt)),
)

contents-IsContent : All IsContent contents
unfolding is_break is_line
contents-IsContent = ((is_line_lem "kind: Pod" refl, refl), ((is_line_lem "  - x" refl, refl), tt))

extract_new_content-diff_lines_example :
    extract_new_content (joined "\n" (diff_lines headers contents)) ≡ joined "\n" contents
extract_new_content-diff_lines_example =
    extract_new_content-diff_lines headers contents headers-IsHeader contents-IsContent
      (λ e. ground arith)

-- a kubectl that refuses, and a model that passes the proposal all the same
abbrev checks : Checks
checks = record {
  git = takes;
  kubectl = λ yaml. ok (false, "error: no kind");
  live_state_snapshot = [];
  ask = λ message.
      ok (record { kind = VerifierResultKind.passed; reasoning = "fine"; failures = [] });
}

verifier_node-IsVerdict_example :
    IsVerdict checks (some proposal) incident 5 (verifier_node checks (some proposal) incident 5)
verifier_node-IsVerdict_example = verifier_node-IsVerdict checks (some proposal) incident 5
