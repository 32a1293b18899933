-- ===== src/Examples/Review.antt =====
-- The theorems on proposals and their review at concrete inputs.
use alph_e.Common.{
  strip, truthy, arith, ℕ, ◌≡◌, ◌↔◌, refl, String, none, true, [], ◌∷◌, Result, ok, err, inl,
  str_in, List, ◌==◌, if◌then◌else◌, some, All, Any, ◌≤◌,
}
use alph_e.Schemas.{FixProposal, ReviewDecision, ReviewerOutput}
use alph_e.Llm.{LlmError}
use alph_e.Reviewer.{
  reviewer_node, ReviewerUpdate, build_return, judge, soft_judgement, apply_guardrails,
}
use alph_e.Reviewer.Policy.{
  run_all_checks, check_diff_repos, check_commit_message, check_pr_body_evidence,
}
use alph_e.Reviewer.Policy.Laws.{Complies, run_all_checks_iff}
use alph_e.Reviewer.Gate.{IsGated, reviewer_node-IsGated}
use alph_e.Dev.{DevLlmOutput, run_dev, propose, cite}
use alph_e.Dev.DiffValidator.{
  is_valid_diff, validate_file_changes, collect, after_verdict, diff_verdict, judged,
}
use alph_e.Dev.Sound.{IsOutcome}
use alph_e.Dev.Reviewed.{run_dev-reviewed_iff}
use alph_e.Dev.Dialogue.{
  Desk, opening, second_reply, dev_dialogue, IsSecond, dev_dialogue-IsDialogue,
}
use alph_e.Dev.Snapshot.{
  RepoEntry, IsVisible, taken, snapshot_items, max_repo_snapshot_bytes, snapshot_items-bounded,
}
use alph_e.Samples.{incident, plan, proposal, change, sure, finding}

-- a parser that finds one file in each patch
abbrev one_file : String → Result String ℕ
one_file diff = ok 1

run_all_checks_iff_example :
    (run_all_checks proposal plan sure (finding ∷ []) ≡ [])
    ↔ Complies proposal plan sure (finding ∷ [])
run_all_checks_iff_example = run_all_checks_iff proposal plan sure (finding ∷ [])

abbrev approve : ReviewerOutput
approve = record { decision = ReviewDecision.approve; reasoning = "ok"; cited_evidence_ids = [] }

abbrev dev_reply : DevLlmOutput
dev_reply = record {
  changes = change ∷ [];
  commit_message = "fix: pin the tag";
  pr_body = "see ev-1";
  branch_name = "fix/tag";
  reasoning = "the tag moved";
}

-- a parser that refuses an empty patch, and a model that sends one first
abbrev strict : String → Result String ℕ
strict diff = if diff == "" then err "empty" else ok 1

abbrev desk : Desk
desk = record {
  show_float = λ x. "0.5";
  entries = λ repo. none;
  parse = strict;
  ask = λ messages. elim messages [
    | [] ↦ err LlmError.missing_api_key
    | m ∷ rest ↦ elim rest [
      | [] ↦ ok (record dev_reply { changes = record change { diff = "" } ∷ [] })
      | n ∷ more ↦ ok dev_reply
    ]
  ];
}

dev_dialogue-IsDialogue_example :
    IsOutcome strict plan incident
      (desk.ask (opening desk plan incident))
      (second_reply desk plan incident (desk.ask (opening desk plan incident)))
      (dev_dialogue desk plan incident "fix-1")
    × IsSecond desk plan incident
        (desk.ask (opening desk plan incident))
        (second_reply desk plan incident (desk.ask (opening desk plan incident)))
dev_dialogue-IsDialogue_example = dev_dialogue-IsDialogue desk plan incident "fix-1"

abbrev approved : ReviewerUpdate
approved = build_return incident approve 5

-- The three rules, for the sample.
proposal-Complies : Complies proposal plan sure incident.findings
unfolding str_in
proposal-Complies = record {
  repos = (inl refl, tt);
  some_repo = λ e. ground arith;
  commit = refl;
  evidence = inl refl;
}

reviewer_node-IsGated_example : IsGated incident proposal plan (ok approve) approve
unfolding reviewer_node judge build_return soft_judgement apply_guardrails run_all_checks
    check_diff_repos check_commit_message check_pr_body_evidence str_in truthy
reviewer_node-IsGated_example =
    reviewer_node-IsGated incident 5 proposal plan "key" (ok approve) approved approve refl
      (λ e. ground arith) refl

abbrev reviewed : FixProposal
reviewed = record {
  id = "fix-1";
  plan_id = "plan-1";
  branch_name = "fix/tag";
  changes = change ∷ [];
  commit_message = "fix: pin the tag";
  pr_body = "see ev-1\n\n---\n_Hypothesis ref: hyp-1_";
}

run_dev-reviewed_iff_example : (run_all_checks reviewed plan sure (finding ∷ []) ≡ []) ↔ (
    (str_in sure.id reviewed.commit_message ≡ true)
    × Any (λ f. str_in f.evidence_id reviewed.pr_body ≡ true) (finding ∷ []))
unfolding run_dev propose cite validate_file_changes is_valid_diff strip truthy str_in collect
    after_verdict diff_verdict judged
run_dev-reviewed_iff_example =
    run_dev-reviewed_iff one_file plan incident "fix-1" (ok dev_reply) (ok dev_reply) reviewed
      "the tag moved" sure (finding ∷ []) refl

-- a manifest, a hidden file and one that cannot be read
abbrev entries : List RepoEntry
entries =
    record { parts = "k8s" ∷ "a.yaml" ∷ []; is_file = true; text = some "kind: Pod" }
    ∷ record { parts = ".git" ∷ "config" ∷ []; is_file = true; text = some "secret" }
    ∷ record { parts = "b.bin" ∷ []; is_file = true; text = none }
    ∷ []

snapshot_items-bounded_example :
    (taken (snapshot_items 0 entries) ≤ max_repo_snapshot_bytes)
    × All IsVisible (snapshot_items 0 entries)
snapshot_items-bounded_example = snapshot_items-bounded entries
