-- ===== src/Verifier.antt =====
-- agent/src/agent/orchestrator/nodes/verifier.py: the choice of the intent and the state update, and
-- the two checks of agent/src/agent/orchestrator/verifier/checks.py that do without kubectl. What
-- `subprocess.run` gives for a diff is an argument; the snapshot is given by `repr` of its values.
-- Manifests has the check with kubectl, Node the node; Contents and Verdict say what these two do.
pub mod Laws
pub mod Manifests
pub mod Contents
pub mod Node
pub mod Verdict
use alph_e.Common.{
  ◌<>◌, ℕ, String, ◌==◌, Option, none, some, Bool, true, false, ◌&&◌, List, [], ◌∷◌, ◌++◌, map,
  filter, joined, lookup, Assoc, Result, ok, err,
}
use alph_e.Schemas.{
  IncidentState, IncidentPhase, TimelineEvent, ActionIntent, FixProposal, FileChange,
  VerifierResult, VerifierResultKind,
}
use alph_e.Llm.{LlmError}

-- `_run`: whether the return code is 0, and the combined output, or what `subprocess.run` raises
abbrev pub RunOf : Type 0
RunOf = FileChange → Result String (Bool × String)

module _ (run : RunOf) where
  -- the loop over the changes: the flag and the outputs
  unfoldable pub apply_loop :
      List FileChange → Bool → List String → Result String (Bool × List String)
  apply_loop [] passed outputs = ok (passed, outputs)
  apply_loop (c ∷ rest) passed outputs = elim (run c) [
    | err exc ↦ err exc
    | ok (ok_now, output) ↦
        apply_loop rest (passed && ok_now) (outputs ++ ("# " <> c.path <> "\n" <> output) ∷ [])
  ]

  -- `check_git_apply`
  unfoldable pub check_git_apply : FixProposal → Result String (Bool × String)
  check_git_apply proposal = elim (apply_loop proposal.changes true []) [
    | err exc ↦ err exc
    | ok (passed, outputs) ↦ ok (passed, joined "\n" outputs)
  ]

-- `check_action_intent_precondition`
unfoldable pub check_action_intent_precondition : ActionIntent → Assoc String → Bool × String
check_action_intent_precondition intent snapshot = elim (lookup intent.target snapshot) [
  | none ↦ (
    false,
    joined "\n" (
        ("target: " <> intent.target)
        ∷ ("expected_effect: " <> intent.expected_effect)
        ∷ ("FAIL: target '" <> intent.target <> "' not found in live state snapshot.")
        ∷ []),
  )
  | some found ↦ (
    true,
    joined "\n" (
        ("target: " <> intent.target)
        ∷ ("expected_effect: " <> intent.expected_effect)
        ∷ ("PASS: target found in snapshot: " <> found)
        ∷ []),
  )
]

-- `xs[-1]` of a list that is not empty
unfoldable pub last_of : ActionIntent → List ActionIntent → ActionIntent
last_of i [] = i
last_of i (j ∷ rest) = last_of j rest

abbrev pub pending_of : List ActionIntent → List ActionIntent
pending_of = filter (λ i. i.approval_status == "pending")

-- The intent that is checked: the last pending one, else the last one.
unfoldable pub active_intent : List ActionIntent → Option ActionIntent
active_intent [] = none
active_intent (i ∷ rest) = elim (pending_of (i ∷ rest)) [
  | [] ↦ some (last_of i rest)
  | p ∷ ps ↦ some (last_of p ps)
]

-- `VerifierLLMOutput`
pub record VerifierLlmOutput : Type 0 where
  pub kind : VerifierResultKind
  pub reasoning : String
  pub failures : List String

abbrev pub kind_name : VerifierResultKind → String
kind_name VerifierResultKind.passed = "passed"
kind_name VerifierResultKind.implementation_error = "implementation_error"
kind_name VerifierResultKind.diagnosis_invalidated = "diagnosis_invalidated"

pub record VerifierUpdate : Type 0 where
  pub phase : IncidentPhase
  pub timeline : List TimelineEvent
  pub updated_at : ℕ
  pub verifier_result : VerifierResult

-- the state update
unfoldable pub verified : IncidentState → ℕ → VerifierResult → VerifierUpdate
verified state now result = record {
  phase = IncidentPhase.verifying;
  timeline =
      state.timeline
      ++ record {
        ts = now;
        actor = "orchestrator:verifier";
        event_type = "verifier.result";
        ref_id = some (kind_name result.kind);
      }
        ∷ [];
  updated_at = now;
  verifier_result = result;
}
