-- ===== src/Lib.antt =====
-- alph-e: the incident agent of agent/src/agent, in Python.
--
-- An alert of Alertmanager or a message of Slack becomes an `IncidentState`. The nodes of a graph pass
-- on that of an alert: collectors gather findings, the investigator keeps the hypotheses, the planner
-- signs an `ActionIntent`, the dev agent proposes a change, the verifier and the reviewer judge it, and
-- the coordinator verifies, executes, compensates and escalates. Evidence is kept in an object store
-- with a table of references.
--
-- Files, with the code that they model (paths are under agent/src/agent/ of the repository):
-- - Schemas: schemas/*.py and the reviewer's part of orchestrator/nodes/_models.py; Schemas/Bounds has the
--   ranges that pydantic checks.
-- - Security: security/action_intent.py. `compute_intent_hash`, `sign`, `verify` are the functions
--   of the same names, `new_signer` and `new_verifier` the constructors; Security/Canonical writes the
--   JSON text that is hashed.
-- - Coordinator: orchestrator/nodes/coordinator.py. `coordinate` is `_coordinator_async`, its steps
--   are functions of their own; Node has `coordinator_node`. Preflight, Executor and Escalation model
--   orchestrator/coordinator/{preflight,exec,escalation}.py. The node is written over the interface
--   `ExecutorOps`, which Ops fills with the `IdempotentExecutor`.
-- - Routing: orchestrator/routing.py.
-- - Reviewer: orchestrator/nodes/reviewer.py, with the hard rules of orchestrator/reviewer/policy.py
--   in Reviewer/Policy and the prompt in Reviewer/Prompt.
-- - Dev: orchestrator/nodes/dev.py and orchestrator/dev/diff_validator.py. `run_dev` takes the two replies
--   of the model; Dev/Dialogue has the conversation that they answer.
-- - Evidence: evidence/client.py and evidence/errors.py.
-- - Investigator: orchestrator/nodes/investigator.py; Planner: orchestrator/nodes/planner.py. Their
--   messages to the model, `_build_user_message`, stand in the two modules Message.
-- - Prompts: prompts/loader.py. Cli: cli.py.
-- - Collectors: orchestrator/nodes/collectors.py and orchestrator/dispatch/{registry,http,cache}.py.
-- - Verifier: orchestrator/nodes/verifier.py, the node in Verifier/Node, and
--   orchestrator/verifier/checks.py, the check with kubectl in Verifier/Manifests.
-- - Graph: orchestrator/graph.py and orchestrator/nodes/intake.py. `Step` has one constructor for each
--   node that an edge leads to, `Run` composes them along `successor`; Graph/RunOnce: orchestrator/run.py.
-- - Intake: intake/webhook.py; Intake/Slack: intake/slack.py, with the client in Web, the investigation in
--   Investigation and the handler of events in Events.
-- - Llm: llm/errors.py; Llm/Client: the loop of llm/client.py, on fuel, which is `max_retries` + 1 and
--   is enough; Llm/Structured: llm/structured.py; Llm/Observability: llm/observability.py.
-- - Common: shared helpers; Common/Json writes JSON as `json.dumps` does, Common/Json/Document with indents. Samples and Examples: the theorems at concrete inputs.
--
-- Conventions. A time is a number of microseconds, read from a `Supply` that also gives the fresh
-- identifiers; a score or a confidence is a multiple of 2^-1074. Cryptography, the parser of diffs,
-- the replies of language models and the answers of services are arguments. An exception is a value.
-- Loops over lists are structural. The loop of the graph is a relation, which Graph/Driven runs on fuel of
-- eleven nodes; the only other fuel is that of Llm/Client. A request to a store
-- can raise although the store has performed it. The zone of a time is not modelled, so `isoformat` is an argument, and so is the text of a float in JSON.
-- Not modelled: orchestrator/checkpoint.py, which opens a library's saver, and `generate_test_keypair`,
-- which only tests call. Logging is left out, and so are the texts of the prompt files, the parsing of
-- arguments, the HTTP server and the clients of services.
pub mod Common
pub mod Schemas
pub mod Security
pub mod Coordinator
pub mod Routing
pub mod Llm
pub mod Reviewer
pub mod Evidence
pub mod Dev
pub mod Investigator
pub mod Planner
pub mod Collectors
pub mod Graph
pub mod Verifier
pub mod Intake
pub mod Prompts
pub mod Cli
pub mod Samples
pub mod Examples
