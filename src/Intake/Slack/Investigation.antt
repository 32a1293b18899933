-- ===== src/Intake/Slack/Investigation.antt =====
-- `investigate_incident` of agent/src/agent/intake/slack.py. The collectors and the language model are
-- arguments; an exception of theirs is a value that carries its text.
use alph_e.Common.{
  ◌<>◌, ℕ, ◌-◌, ◌*◌, String, Option, none, some, List, [], ◌∷◌, ◌++◌, map, take, nonempty, Result,
  ok, err, Io, pure, now, ◌>>=◌, joined, get_or, truthy, ◌&&◌, if◌then◌else◌,
}
use alph_e.Schemas.{IncidentState, CollectorInput, EnvironmentFingerprint}

-- What a collector's endpoint gives: an exception, on the way or in the JSON; a status other than
-- 200; or the finding's summary and follow-ups. Slicing the follow-ups raises where they are no list.
pub data CollectorReply : Type 0 where
  raised : String → CollectorReply
  refused : ℕ → CollectorReply
  answered : Option String → Result String (List String) → CollectorReply

-- The services of one investigation.
pub record Desk : Type 0 where
  pub env : String → Option String
  pub collect : String → CollectorInput → CollectorReply
  pub create_message : String → String → Result String String

abbrev demo_fingerprint : EnvironmentFingerprint
demo_fingerprint = record {
  cluster = "devops-agent";
  account = "local";
  region = "local";
  deploy_revision = "latest";
  rollout_generation = "demo";
}

abbrev pub collector_payload : IncidentState → String → String → ℕ → CollectorInput
collector_payload incident question hypothesis_id end_time = record {
  incident_id = incident.incident_id;
  question = question;
  hypothesis_id = hypothesis_id;
  time_range = record { start = end_time - 2 * 3600000000; end = end_time };
  scope_services = "demo/leaky-service" ∷ [];
  environment_fingerprint = demo_fingerprint;
  max_internal_iterations = 3;
}

-- `kube_payload`
unfoldable pub kube_payload : IncidentState → ℕ → CollectorInput
kube_payload incident end_time =
    collector_payload incident
      ("Show events for pods in demo namespace related to " <> incident.alert.service
        <> ", especially OOMKilled, crashes, or resource issues")
      "hyp_k8s" end_time

-- `prom_payload`
unfoldable pub prom_payload : IncidentState → ℕ → CollectorInput
prom_payload incident end_time =
    collector_payload incident
      ("Show memory usage, CPU usage, and resource metrics for " <> incident.alert.service
        <> " in the last 2 hours. Look for memory spikes or OOM conditions.")
      "hyp_metrics" end_time

abbrev pub kube_error : String → String
kube_error e = "**🔍 Kubernetes Analysis:** Error during investigation: " <> e

-- the follow-ups of the Kubernetes collector
unfoldable pub suggested_actions : Result String (List String) → List String
suggested_actions (err e) = kube_error e ∷ []
suggested_actions (ok []) = []
suggested_actions (ok (f ∷ fs)) =
    ("**🔧 Suggested Actions:**\n"
      <> joined "\n" (map (λ followup. "• " <> followup) (take 3 (f ∷ fs))))
    ∷ []

-- the first `try`
unfoldable pub kube_findings : CollectorReply → List String
kube_findings (raised e) = kube_error e ∷ []
kube_findings (refused code) = "**🔍 Kubernetes Analysis:** Unable to connect to kube-collector" ∷ []
kube_findings (answered summary followups) =
    ("**🔍 Kubernetes Analysis:**\n" <> get_or summary "No data available")
    ∷ suggested_actions followups

-- the second `try`
unfoldable pub prom_findings : CollectorReply → List String
prom_findings (raised e) = ("**📊 Metrics Analysis:** Error during metrics collection: " <> e) ∷ []
prom_findings (refused code) =
    "**📊 Metrics Analysis:** Unable to connect to prometheus collector" ∷ []
prom_findings (answered summary followups) =
    ("**📊 Metrics Analysis:**\n" <> get_or summary "No metrics data available") ∷ []

-- `analysis_prompt`
unfoldable pub analysis_prompt : String → List String → String
analysis_prompt user_description findings =
    "\n            User reported: \""
    <> user_description
    <> "\"\n\n            Investigation findings:\n            "
    <> joined "\n" findings
    <> "\n\n            Based on these findings, provide a concise diagnosis and recommended next steps for this incident.\n            Focus on actionable recommendations for the DevOps team.\n            "

-- the third `try`, where there are a key and findings
unfoldable pub ai_findings : Desk → String → List String → List String
ai_findings desk user_description findings = elim (desk.env "ANTHROPIC_API_KEY") [
  | none ↦ []
  | some anthropic_key ↦
      if truthy anthropic_key && nonempty findings
      then elim (desk.create_message anthropic_key (analysis_prompt user_description findings)) [
        | ok text ↦ ("**🤖 AI Analysis:**\n" <> text) ∷ []
        | err e ↦ ("**🤖 AI Analysis:** Error during LLM analysis: " <> e) ∷ []
      ]
      else []
]

-- the sections of the report
unfoldable pub investigation_findings : Desk → IncidentState → String → ℕ → List String
investigation_findings desk incident user_description end_time =
    let kube_url =
      get_or (desk.env "COLLECTOR_KUBE_URL") "http://kube-collector.agent.svc.cluster.local:8003" in
    let prom_url =
      get_or (desk.env "COLLECTOR_PROM_URL") "http://prom-collector.agent.svc.cluster.local:8001" in
    let findings =
      kube_findings (desk.collect (kube_url <> "/collect") (kube_payload incident end_time))
      ++ prom_findings (desk.collect (prom_url <> "/collect") (prom_payload incident end_time)) in
    findings ++ ai_findings desk user_description findings

-- `investigate_incident`
unfoldable pub investigate_incident : Desk → IncidentState → String → Io String
investigate_incident desk incident user_description = do
  end_time ← now
  let findings = investigation_findings desk incident user_description end_time
  pure (
      if nonempty findings
      then joined "\n\n" findings
      else "*No investigation data available. Collectors may not be accessible.*")
