-- ===== src/Verifier/Node.antt =====
-- `make_verifier_node` of agent/src/agent/orchestrator/nodes/verifier.py, for a proposal too, with the
-- message to the language model. The model's answer is a function of the message.
use alph_e.Common.{
  ◌<>◌, ℕ, String, Option, none, some, Bool, List, [], ◌∷◌, ◌++◌, map, filter, take, joined, repr,
  truthy, first_chars, Assoc, Result, ok, err, if◌then◌else◌,
}
use alph_e.Schemas.{
  IncidentState, IncidentPhase, ActionIntent, ActionType, FixProposal, VerifierResult,
  VerifierResultKind, Finding, action_type_name,
}
use alph_e.Llm.{LlmError}
use alph_e.Verifier.{
  RunOf, check_git_apply, check_action_intent_precondition, active_intent, VerifierLlmOutput,
  VerifierUpdate, verified,
}
use alph_e.Verifier.Manifests.{check_kubectl_dry_run}

-- A check that was run: its name, whether it passed, and its output.
pub record CheckResult : Type 0 where
  pub name : String
  pub passed : Bool
  pub output : String

abbrev pub phase_name : IncidentPhase → String
phase_name IncidentPhase.intake = "intake"
phase_name IncidentPhase.investigating = "investigating"
phase_name IncidentPhase.planning = "planning"
phase_name IncidentPhase.fixing = "fixing"
phase_name IncidentPhase.verifying = "verifying"
phase_name IncidentPhase.reviewing = "reviewing"
phase_name IncidentPhase.escalated = "escalated"
phase_name IncidentPhase.resolved = "resolved"

-- `repr` of a member of `ActionType`
abbrev action_type_repr : ActionType → String
action_type_repr type =
    "<ActionType." <> action_type_name type <> ": '" <> action_type_name type <> "'>"

-- the lines on the findings
unfoldable pub finding_lines : List Finding → List String
finding_lines [] = "- (none recorded)" ∷ []
finding_lines (f ∷ fs) = map (λ g. "- [" <> g.collector_name <> "] " <> g.summary) (take 5 (f ∷ fs))

-- the lines on what is verified
unfoldable pub subject_lines : Option FixProposal → Option ActionIntent → List String
subject_lines (some p) intent =
    ("FixProposal id=" <> repr p.id <> " plan_id=" <> repr p.plan_id)
    ∷ ("Branch: " <> repr p.branch_name)
    ∷ "Changes:"
    ∷ map (λ c. "  - " <> c.path) p.changes
subject_lines none (some i) =
    ("ActionIntent target=" <> repr i.target <> " type=" <> action_type_repr i.action_type)
    ∷ ("Expected effect: " <> i.expected_effect)
    ∷ []
subject_lines none none = "(no subject — noop verification)" ∷ []

-- the lines on one check
unfoldable pub check_lines : CheckResult → List String
check_lines c =
    ("### " <> c.name <> ": " <> (if c.passed then "PASS" else "FAIL"))
    ∷ (if truthy c.output then "```" ∷ first_chars 4000 c.output ∷ "```" ∷ [] else [])

unfoldable pub all_check_lines : List CheckResult → List String
all_check_lines [] = []
all_check_lines (c ∷ cs) = check_lines c ++ all_check_lines cs

-- `_build_user_message`
unfoldable pub build_user_message :
    IncidentState → Option FixProposal → Option ActionIntent → List CheckResult → String
build_user_message state fix_proposal intent check_results = joined "\n" (
    ("## Incident context"
      ∷ ("- incident_id: " <> state.incident_id)
      ∷ ("- service: " <> state.alert.service)
      ∷ ("- phase: " <> phase_name state.phase)
      ∷ ""
      ∷ "## Findings summary"
      ∷ [])
    ++ finding_lines state.findings
    ++ ("" ∷ "## Subject under review" ∷ [])
    ++ subject_lines fix_proposal intent
    ++ ("" ∷ "## Dry-run check results" ∷ [])
    ++ all_check_lines check_results
    ++ ("" ∷ "## Task"
        ∷ "Based on the findings and check results above, return a VerifierLLMOutput with the correct kind.  Follow the decision rule from your system prompt: prefer `diagnosis_invalidated` over `implementation_error` when uncertain."
        ∷ []))

-- The runs of git and kubectl, the snapshot, and the model.
pub record Checks : Type 0 where
  pub git : RunOf
  pub kubectl : String → Result String (Bool × String)
  pub live_state_snapshot : Assoc String
  pub ask : String → Result LlmError VerifierLlmOutput

-- What the node raises: the error of the model, or what the run of git or kubectl raised.
pub data VerifierError : Type 0 where
  llm_raised : LlmError → VerifierError
  run_raised : String → VerifierError

-- the two results; kubectl counts only where it has an output
unfoldable pub both_checks : Bool × String → Bool × String → List CheckResult
both_checks (git_passed, git_output) (kube_passed, kube_output) =
    record { name = "git.apply.check"; passed = git_passed; output = git_output }
    ∷ (if truthy kube_output
        then record {
          name = "kubectl.apply.dry-run.server";
          passed = kube_passed;
          output = kube_output;
        }
          ∷ []
        else [])

-- the checks of a proposal
unfoldable pub proposal_checks : Checks → FixProposal → Result String (List CheckResult)
proposal_checks checks proposal = elim (check_git_apply checks.git proposal) [
  | err exc ↦ err exc
  | ok git ↦ elim (check_kubectl_dry_run checks.kubectl proposal) [
    | err exc ↦ err exc
    | ok kube ↦ ok (both_checks git kube)
  ]
]

-- the check of an intent
unfoldable pub intent_checks : Checks → ActionIntent → List CheckResult
intent_checks checks intent =
    let (passed, output) = check_action_intent_precondition intent checks.live_state_snapshot in
    record { name = "action_intent.precondition"; passed = passed; output = output } ∷ []

-- `"\n".join(o for _, _, o in check_results if o)`
unfoldable pub dry_run_output_of : List CheckResult → String
dry_run_output_of results =
    joined "\n" (map (λ c. c.output) (filter (λ c. truthy c.output) results))

-- the part of the node from the call of the model on
unfoldable pub conclude :
    IncidentState
    → ℕ
    → List CheckResult
    → String
    → Result LlmError VerifierLlmOutput
    → Result VerifierError VerifierUpdate
conclude state now results dry_run_output (err e) = err (llm_raised e)
conclude state now results dry_run_output (ok output) = ok (
    verified state now (record {
      kind = output.kind;
      checks_run = map (λ c. c.name) results;
      failures = output.failures;
      dry_run_output = dry_run_output;
      reasoning = output.reasoning;
    }))

abbrev pub noop_result : VerifierResult
noop_result = record {
  kind = VerifierResultKind.passed;
  checks_run = "noop" ∷ [];
  failures = [];
  dry_run_output = "";
  reasoning = "No FixProposal or ActionIntent present; verification skipped.";
}

-- the node without a proposal
unfoldable pub verify_intent :
    Checks → IncidentState → ℕ → Option ActionIntent → Result VerifierError VerifierUpdate
verify_intent checks state now none = ok (verified state now noop_result)
verify_intent checks state now (some intent) =
    let results = intent_checks checks intent in
    conclude state now results
      (check_action_intent_precondition intent checks.live_state_snapshot).1
      (checks.ask (build_user_message state none (some intent) results))

-- `_verifier_node`
unfoldable pub verifier_node :
    Checks → Option FixProposal → IncidentState → ℕ → Result VerifierError VerifierUpdate
verifier_node checks none state now =
    verify_intent checks state now (active_intent state.action_intents)
verifier_node checks (some proposal) state now = elim (proposal_checks checks proposal) [
  | err exc ↦ err (run_raised exc)
  | ok results ↦
      conclude state now results (dry_run_output_of results)
        (checks.ask (build_user_message state (some proposal) none results))
]
