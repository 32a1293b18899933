-- ===== src/Examples/Runs.antt =====
-- A run of the graph, and the theorems of its nodes, at concrete inputs.
use alph_e.Common.{
  show_ℕ, ◌^◌, ◌≡◌, ◌≤◌, refl, none, some, true, [], ◌∷◌, ok, err, arith, nonempty, All, truthy,
  insert,
}
use alph_e.Schemas.{
  IncidentState, IncidentPhase, RemediationType, ParamValue, ActionType, accepts_state,
  accepts_hypothesis,
}
use alph_e.Security.{new_signer, new_verifier, verify}
use alph_e.Security.Laws.{IsKeyPair}
use alph_e.Routing.{route_after_investigator, node_coordinator, node_planner, node_investigator}
use alph_e.Investigator.{
  InvestigatorOutput, InvestigatorUpdate, investigator_node, after_reply, merge_hypotheses, add_all,
  ensure_id,
}
use alph_e.Investigator.Tick.{IsTick, investigator_node-IsTick}
use alph_e.Collectors.{Services}
use alph_e.Collectors.Dispatch.{timeout}
use alph_e.Planner.{
  PlannerDecision, PlannerUpdate, planner_node, decided, gated, decision_to_plan, build_intent,
  after_gate,
}
use alph_e.Planner.Decision.{IsDecided, planner_node-IsDecided, planner_node-verifies}
use alph_e.Coordinator.Verification.{IsOk}
use alph_e.Coordinator.Phases.{phase_table}
use alph_e.Coordinator.Node.{coordinator_node-phase}
use alph_e.Graph.{
  World, Run, at_intake, at_investigator, at_planner, at_coordinator, stay, step, successor,
  intake_node, node_intake, investigated, planned, coordinated,
}
use alph_e.Graph.Runs.{run_bounded}
use alph_e.Graph.Kept.{IsLater, run-IsLater}
use alph_e.Graph.Conform.{IsConforming, run-IsConforming}
use alph_e.Graph.Trusted.{HasKeys, run-phase}
use alph_e.Samples.{supply, incident, sure, toy}

abbrev pub world : World
world = record {
  crypto = toy;
  signing_key = some "pem";
  verify_key = some "pem";
  kubeconfig = none;
}

toy-IsKeyPair : IsKeyPair toy tt tt
toy-IsKeyPair = record { decode-encode = λ message. refl; verify-sign = λ message. refl }

toy_signer : new_signer toy (some "pem") ≡ ok tt
unfolding new_signer truthy
toy_signer = refl

toy_verifier : new_verifier toy (some "pem") ≡ ok tt
unfolding new_verifier truthy
toy_verifier = refl

pub keys : HasKeys world
keys = record {
  private = tt;
  public = tt;
  pair = toy-IsKeyPair;
  signing = toy_signer;
  verifying = toy_verifier;
}

-- a new incident
abbrev pub start : IncidentState
start = record incident {
  hypotheses = [];
  findings = [];
  action_intents = [];
  investigation_attempts = 0;
  phase = IncidentPhase.intake;
}

abbrev pub reply : InvestigatorOutput
reply = record {
  hypotheses = sure ∷ [];
  current_focus_hypothesis_id = "hyp-1";
  reasoning = "the tag";
}

abbrev pub decision : PlannerDecision
decision = record {
  plan_id = "plan-1";
  plan_type = RemediationType.rollback;
  rationale = "the tag";
  confidence = 2 ^ 1074;
  requires_human_approval = true;
  evidence_ids = [];
  target_services = [];
  target_repos = [];
  rollback_plan = "";
  action_target = "deploy/checkout";
  action_parameters = ("revision", ParamValue.plus 7) ∷ [];
  expected_effect = "the old image runs";
  rollback_hint = "roll forward";
  reasoning = "the tag";
}

investigator_node-IsTick_example :
    (u : InvestigatorUpdate) × (investigator_node toy.sha256 start 6 (ok reply) ≡ ok u)
    × IsTick toy.sha256 start reply u
investigator_node-IsTick_example =
    investigator_node-IsTick toy.sha256 start 6 reply (ground arith) (λ e. ground arith)

planner_node-IsDecided_example :
    (u : PlannerUpdate) × (planner_node toy (some "pem") start 7 (ok decision) ≡ ok u)
    × IsDecided toy tt start 7 decision u
planner_node-IsDecided_example =
    planner_node-IsDecided toy (some "pem") tt toy_signer start 7 decision

abbrev pub services : Services
services = record {
  env = λ name. none;
  parse = λ text. err "no JSON";
  sha256 = λ text. text;
  isoformat = λ at. show_ℕ at;
  reply = timeout "30s";
  cache_read = true;
  cache_written = true;
  database_now = 0;
}

abbrev focused : IncidentState
focused = record start { hypotheses = sure ∷ []; current_focus_hypothesis_id = some "hyp-1" }

-- The states of a run that ends with a rollback.
abbrev taken : IncidentState
taken = intake_node start 5

abbrev understood : IncidentState
understood = investigated taken (after_reply toy.sha256 taken 6 reply)

abbrev update : PlannerUpdate
update =
    decided understood 7 (gated (decision_to_plan decision))
      (some (build_intent toy tt decision ActionType.rollback 7))

abbrev ready : IncidentState
ready = planned understood update

sample_run : (t : IncidentState) × Run world 4 (some node_intake) start none t
unfolding successor intake_node investigator_node after_reply planner_node after_gate gated
    decision_to_plan new_signer truthy route_after_investigator merge_hypotheses add_all insert
    ensure_id
sample_run =
    let (u, e, _) = coordinator_node-phase toy (some "pem") none ready supply tt toy_verifier in
    (
      coordinated ready u,
      step 3 node_intake start taken none _ (at_intake start 5) (
          step 2 node_investigator taken understood none _
            (at_investigator taken 6 (ok reply) _ refl)
            (step 1 node_planner understood ready none _
              (at_planner understood 7 (ok decision) update refl)
              (step 0 node_coordinator ready _ none _ (at_coordinator ready supply u e)
                (stay none _)))),
    )

run_bounded_example : 4 ≤ 11
run_bounded_example = run_bounded world 4 start none (sample_run.0) (sample_run.1)

run-IsLater_example : IsLater start (sample_run.0)
run-IsLater_example =
    run-IsLater world 4 (some node_intake) start none (sample_run.0) (sample_run.1)

run-IsConforming_example : (accepts_state sample_run.0 ≡ true) × IsConforming sample_run.0
unfolding sample_run accepts_hypothesis
run-IsConforming_example =
    run-IsConforming world 4 (some node_intake) start none sample_run.0 sample_run.1
      (tt, (refl, (tt, (tt, tt))))
      (record {
        accepted_hypotheses = refl;
        accepted_findings = refl;
        hypotheses_distinct = tt;
        findings_distinct = tt;
        focused = refl;
        attempts = refl;
      })

run-phase_example :
    sample_run.0.phase ≡ phase_table sample_run.0.hypotheses (nonempty sample_run.0.action_intents)
run-phase_example = run-phase world keys 4 start (sample_run.0) (sample_run.1) tt

planner_node-verifies_example : All (λ i. IsOk (verify toy tt i)) update.action_intents
unfolding planner_node after_gate gated decision_to_plan new_signer truthy intake_node
planner_node-verifies_example =
    planner_node-verifies toy (some "pem") tt toy_signer tt understood 7 decision update
      toy-IsKeyPair tt refl
