-- ===== src/Graph.antt =====
-- agent/src/agent/orchestrator/graph.py and agent/src/agent/orchestrator/nodes/intake.py: the
-- graph as a step relation. A node's update replaces the fields that it names, as the graph's
-- library documents for a state without reducers. The nodes dev, verifier and reviewer have no
-- step: no edge leads to one.
pub mod Runs
pub mod Kept
pub mod Trusted
pub mod Driven
pub mod RunOnce
pub mod Conform
use alph_e.Common.{
  ℕ, zero, suc, String, ◌≡◌, Option, none, some, Bool, List, [], ◌∷◌, ◌++◌, ◌==◌, Result, ok,
  Supply, get_or, if◌then◌else◌,
}
use alph_e.Schemas.{IncidentState, IncidentPhase, TimelineEvent}
use alph_e.Security.{Crypto}
use alph_e.Llm.{LlmError}
use alph_e.Routing.{
  route_after_investigator, node_investigator, node_collectors, node_planner, node_dev,
  node_reviewer, node_coordinator,
}
use alph_e.Investigator.{InvestigatorOutput, InvestigatorUpdate, investigator_node}
use alph_e.Collectors.{CollectorsUpdate, Services, collectors_node}
use alph_e.Collectors.Dispatch.{Cache}
use alph_e.Planner.{PlannerDecision, PlannerUpdate, planner_node}
use alph_e.Coordinator.{CoordinatorUpdate}
use alph_e.Coordinator.Node.{coordinator_node}

abbrev pub node_intake : String
node_intake = "intake"

abbrev pub node_verifier : String
node_verifier = "verifier"

-- `intake_node`, with the state that its update gives
unfoldable pub intake_node : IncidentState → ℕ → IncidentState
intake_node state now = record state {
  phase = IncidentPhase.investigating;
  timeline =
      state.timeline
      ++ record {
        ts = now;
        actor = "orchestrator:intake";
        event_type = "intake.accepted";
        ref_id = none;
      }
        ∷ [];
  updated_at = now;
}

abbrev pub investigated : IncidentState → InvestigatorUpdate → IncidentState
investigated state u = record state {
  hypotheses = get_or u.hypotheses state.hypotheses;
  current_focus_hypothesis_id = elim u.current_focus_hypothesis_id [
    | none ↦ state.current_focus_hypothesis_id
    | some focus ↦ some focus
  ];
  investigation_attempts = u.investigation_attempts;
  timeline = u.timeline;
  updated_at = u.updated_at;
}

abbrev pub collected : IncidentState → CollectorsUpdate → IncidentState
collected state u = record state {
  findings = get_or u.findings state.findings;
  services_touched = get_or u.services_touched state.services_touched;
  timeline = u.timeline;
  updated_at = u.updated_at;
}

abbrev pub planned : IncidentState → PlannerUpdate → IncidentState
planned state u = record state {
  phase = u.phase;
  timeline = u.timeline;
  updated_at = u.updated_at;
  action_intents = u.action_intents;
}

abbrev pub coordinated : IncidentState → CoordinatorUpdate → IncidentState
coordinated state u = record state {
  phase = u.phase;
  timeline = u.timeline;
  updated_at = u.updated_at;
  actions_taken = u.actions_taken;
}

-- The edges of `build_graph`: the node that follows, `none` for the end.
unfoldable pub successor : String → IncidentState → Option String
successor node state =
    if node == node_intake
    then some node_investigator
    else if node == node_investigator
    then some (route_after_investigator state)
    else if node == node_collectors
    then some node_investigator
    else if node == node_planner
    then some node_coordinator
    else if node == node_dev
    then some node_verifier
    else if node == node_verifier
    then some node_reviewer
    else if node == node_reviewer
    then some node_coordinator
    else none

-- The environment of the process: the cryptography and its variables, and SHA-256.
pub record World : Type 1 where
  pub crypto : Crypto
  pub signing_key : Option String
  pub verify_key : Option String
  pub kubeconfig : Option String

module _ (world : World) where
  open world use {crypto, signing_key, verify_key, kubeconfig}

  -- One node runs and returns, for some replies of the model and of the services.
  pub data Step : String → IncidentState → IncidentState → Type 0 where
    at_intake : (s : IncidentState) (now : ℕ) → Step node_intake s (intake_node s now)
    at_investigator :
        (s : IncidentState) (now : ℕ) (reply : Result LlmError InvestigatorOutput)
        (u : InvestigatorUpdate)
        → investigator_node crypto.sha256 s now reply ≡ ok u
        → Step node_investigator s (investigated s u)
    at_collectors :
        (s : IncidentState) (services : Services) (rows : Option Cache) (supply : Supply)
        → Step node_collectors s (collected s (collectors_node services s rows supply).0.0)
    at_planner :
        (s : IncidentState) (now : ℕ) (reply : Result LlmError PlannerDecision) (u : PlannerUpdate)
        → planner_node crypto signing_key s now reply ≡ ok u
        → Step node_planner s (planned s u)
    at_coordinator :
        (s : IncidentState) (supply : Supply) (u : CoordinatorUpdate)
        → (coordinator_node crypto verify_key kubeconfig s supply).0 ≡ ok u
        → Step node_coordinator s (coordinated s u)

  -- A run of so many steps, from one node and state to another; `none` is the end.
  pub data Run : ℕ → Option String → IncidentState → Option String → IncidentState → Type 0 where
    stay : (node : Option String) (s : IncidentState) → Run 0 node s node s
    step :
        (n : ℕ) (node : String) (s t : IncidentState) (last : Option String) (u : IncidentState)
        → Step node s t
        → Run n (successor node t) t last u
        → Run (suc n) (some node) s last u
