-- ===== src/Samples.antt =====
-- One incident, its services and its keys, at which the theorems are tried.
use alph_e.Common.{
  ℕ, String, ◌==◌, Option, none, some, Bool, List, [], ◌∷◌, ok, err, Supply, nat_eq, if◌then◌else◌,
}
use alph_e.Schemas.{
  Alert, Severity, Hypothesis, HypothesisStatus, IncidentState, IncidentPhase, ActionIntent,
  ActionType, ParamValue, Finding, FixProposal, FileChange, RemediationPlan, RemediationType,
}
use alph_e.Security.{Crypto}

abbrev pub supply : Supply
supply = record {
  clock = λ n. n;
  uuids = λ n. if nat_eq n 0 then "uuid-a" else "uuid-b";
  reads = 0;
  draws = 0;
}

abbrev pub alert : Alert
alert = record {
  source = "alertmanager";
  raw_message = "CrashLoopBackOff";
  service = "checkout";
  severity = Severity.high;
  fired_at = 1700000000000000;
  labels = ("app", "checkout") ∷ [];
}

abbrev pub sure : Hypothesis
sure = record {
  id = "hyp-1";
  text = "bad image tag";
  score = 1;
  status = HypothesisStatus.confirmed;
  supporting_evidence_ids = "ev-1" ∷ [];
  refuting_evidence_ids = [];
  created_at = 1;
}

abbrev pub doubt : Hypothesis
doubt = record sure { id = "hyp-2"; status = HypothesisStatus.still_open }

abbrev pub rollback : ActionIntent
rollback = record {
  hash = "h-rollback";
  action_type = ActionType.rollback;
  target = "deploy/checkout";
  parameters = ("revision", ParamValue.plus 7) ∷ [];
  expected_effect = "the old image runs";
  rollback_hint = "roll forward";
  signer = "planner";
  signature = "AQ==";
  approval_status = "pending";
  approved_by = none;
  approved_at = none;
  expires_at = 9;
}

abbrev pub scale : ActionIntent
scale = record rollback { hash = "h-scale"; action_type = ActionType.scale }

abbrev pub finding : Finding
finding = record {
  id = "f-1";
  collector_name = "kube";
  question = "why";
  summary = "image pull error";
  evidence_id = "ev-1";
  confidence = 1;
  suggested_followups = [];
  created_at = 1;
}

abbrev pub incident : IncidentState
incident = record {
  incident_id = "inc-1";
  alert = alert;
  hypotheses = doubt ∷ sure ∷ [];
  findings = finding ∷ [];
  timeline = [];
  actions_taken = [];
  action_intents = rollback ∷ scale ∷ [];
  services_touched = [];
  current_focus_hypothesis_id = none;
  investigation_attempts = 1;
  phase = IncidentPhase.planning;
  created_at = 0;
  updated_at = 0;
}

abbrev pub plan : RemediationPlan
plan = record {
  id = "plan-1";
  type = RemediationType.pr;
  rationale = "pin the tag";
  evidence_ids = "ev-1" ∷ [];
  target_repos = "org/checkout" ∷ [];
  target_services = "checkout" ∷ [];
  rollback_plan = "revert";
  confidence = 1;
  requires_human_approval = Bool.true;
}

abbrev pub change : FileChange
change = record {
  repo = "org/checkout";
  path = "deploy.yaml";
  diff = "--- a\n+++ b\n@@ -1 +1 @@\n-x\n+y";
}

abbrev pub proposal : FixProposal
proposal = record {
  id = "fix-1";
  plan_id = "plan-1";
  branch_name = "fix/tag";
  changes = change ∷ [];
  commit_message = "fix: pin the tag (hyp-1)";
  pr_body = "see ev-1 and hyp-1";
}

-- A toy of the cryptography: one signature, which is right for each message.
abbrev signature_bytes : List ℕ
signature_bytes = 1 ∷ []

abbrev accepts : List ℕ → Option String
accepts [] = some "InvalidSignature"
accepts (n ∷ _) = if nat_eq n 1 then none else some "InvalidSignature"

abbrev pub toy : Crypto
toy = record {
  PrivateKey = Unit;
  PublicKey = Unit;
  sha256 = λ s. s;
  load_private_key = λ pem. ok tt;
  load_public_key = λ pem. ok tt;
  sign_bytes = λ k m. signature_bytes;
  verify_bytes = λ k raw m. accepts raw;
  b64encode = λ raw. "AQ==";
  b64decode = λ s. if s == "AQ==" then ok signature_bytes else err "Incorrect padding";
}
