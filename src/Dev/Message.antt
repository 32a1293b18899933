-- ===== src/Dev/Message.antt =====
-- The messages to the language model in agent/src/agent/orchestrator/nodes/dev.py. The text of a float is
-- an argument.
use alph_e.Common.{
  ◌≡◌, true, Elem-left, Elem-right, All, All-map, All-Elem-map, str_in, str_in-joined, ◌<>◌, ℕ,
  String, Option, none, some, List, [], ◌∷◌, ◌++◌, map, joined, repr_list, truthy, Assoc,
  if◌then◌else◌,
}
use alph_e.Schemas.{RemediationPlan, RemediationType, Finding, Hypothesis}
use alph_e.Dev.DiffValidator.{Failures}

-- The values of `RemediationType`, a `StrEnum`.
abbrev remediation_name : RemediationType → String
remediation_name RemediationType.pr = "pr"
remediation_name RemediationType.rollback = "rollback"
remediation_name RemediationType.scale = "scale"
remediation_name RemediationType.flag_flip = "flag_flip"
remediation_name RemediationType.runbook = "runbook"
remediation_name RemediationType.none = "none"

module _ (show_float : ℕ → String) where
  unfoldable pub plan_lines : RemediationPlan → List String
  plan_lines plan =
      "## RemediationPlan"
      ∷ ("- id: " <> plan.id)
      ∷ ("- type: " <> remediation_name plan.type)
      ∷ ("- rationale: " <> plan.rationale)
      ∷ ("- target_repos: " <> repr_list plan.target_repos)
      ∷ ("- rollback_plan: "
          <> (if truthy plan.rollback_plan then plan.rollback_plan else "(none)"))
      ∷ ("- confidence: " <> show_float plan.confidence)
      ∷ []

  unfoldable pub hypothesis_lines : Option Hypothesis → List String
  hypothesis_lines none = []
  hypothesis_lines (some h) =
      ""
      ∷ "## Confirmed Hypothesis"
      ∷ ("- id: **" <> h.id <> "**")
      ∷ ("- text: " <> h.text)
      ∷ ("- score: " <> show_float h.score)
      ∷ []

  unfoldable pub each_finding : List Finding → List String
  each_finding [] = []
  each_finding (f ∷ fs) =
      ("### Finding " <> f.id)
      ∷ ("- collector: " <> f.collector_name)
      ∷ ("- question: " <> f.question)
      ∷ ("- summary: " <> f.summary)
      ∷ ("- evidence_id: " <> f.evidence_id)
      ∷ ("- confidence: " <> show_float f.confidence)
      ∷ each_finding fs

  unfoldable pub finding_section : List Finding → List String
  finding_section [] = []
  finding_section (f ∷ fs) = "" ∷ "## Cited Findings" ∷ each_finding (f ∷ fs)

  unfoldable pub snapshot_lines : Assoc String → List String
  snapshot_lines [] = []
  snapshot_lines ((repo, snapshot) ∷ rest) =
      "" ∷ ("## Repo snapshot: " <> repo) ∷ snapshot ∷ snapshot_lines rest

  -- `_build_user_message`
  unfoldable pub build_dev_message :
      RemediationPlan → List Finding → Option Hypothesis → Assoc String → String
  build_dev_message plan findings confirmed_hypothesis repo_snapshots = joined "\n" (
      plan_lines plan
      ++ hypothesis_lines confirmed_hypothesis
      ++ finding_section findings
      ++ snapshot_lines repo_snapshots
      ++ (""
          ∷ "Produce a FixProposal for this plan.  Call the devllmoutput tool with valid unified diffs for every changed file.  The PR body MUST reference the confirmed hypothesis id verbatim.  Never touch files in repos not listed in target_repos."
          ∷ []))

-- the line on one failure
abbrev pub failure_item : (String × String) × String → String
failure_item ((repo, path), detail) = "  - " <> repo <> "/" <> path <> ": " <> detail

-- `_corrective_diff_message`
unfoldable pub corrective_diff_message : Failures → String
corrective_diff_message failures = joined "\n" (
    ("Your previous response contained invalid unified diffs.  Fix each diff listed below and call the devllmoutput tool again."
      ∷ "" ∷ "Diff validation failures:" ∷ [])
    ++ map failure_item failures
    ++ (""
        ∷ "A valid unified diff must start with '--- a/path' and '+++ b/path' headers followed by one or more '@@ ... @@' hunks.  Do not omit the file headers."
        ∷ []))

-- Each failed diff is named, with its repo, its path and what is wrong.
pub corrective_diff_message-names :
    (failures : Failures)
    → All (λ f. str_in (failure_item f) (corrective_diff_message failures) ≡ true) failures
unfolding corrective_diff_message
corrective_diff_message-names failures =
    All-map
      (λ f h. str_in-joined "\n" (failure_item f) _ (Elem-right _ intro _ (Elem-left _ _ _ h)))
      failures (All-Elem-map failure_item failures)
  where
    intro : List String
    intro =
        "Your previous response contained invalid unified diffs.  Fix each diff listed below and call the devllmoutput tool again."
        ∷ "" ∷ "Diff validation failures:" ∷ []
