-- ===== src/Intake.antt =====
-- agent/src/agent/intake/webhook.py: an incident for each firing alert of a payload of Alertmanager.
-- Slack models agent/src/agent/intake/slack.py, Seeded what the handlers make of a payload.
pub mod Slack
pub mod Seeded
use Prim.Native.Char.{Char}
use Prim.Native.String.{[], ◌∷◌}
use alph_e.Common.{
  ◌<>◌, ℕ, ◌+◌, String, Option, none, some, Bool, List, map, length, nonempty, Io, pure, now, uuid4,
  ◌>>=◌, ◌>>◌, Result, ok, err, Assoc, lookup, get_or, lower, truthy, or_text, first_chars, ◌==◌,
  ◌||◌, if◌then◌else◌,
}
use alph_e.Schemas.{Alert, IncidentState, IncidentPhase, Severity, critical, high, medium, low}

-- `AlertmanagerAlert`
pub record AlertmanagerAlert : Type 0 where
  pub status : String
  pub labels : Assoc String
  pub annotations : Assoc String
  pub starts_at : ℕ
  pub ends_at : Option ℕ
  pub fingerprint : Option String

-- `AlertmanagerPayload`
pub record AlertmanagerPayload : Type 0 where
  pub version : Option String
  pub group_key : Option String
  pub status : String
  pub receiver : String
  pub alerts : List AlertmanagerAlert

-- `IntakeResponse`
pub record IntakeResponse : Type 0 where
  pub accepted : ℕ
  pub ignored : ℕ
  pub incidents : List String

-- `HTTPException`
pub record HttpException : Type 0 where
  pub status_code : ℕ
  pub detail : String

-- `_severity_from_label`
unfoldable pub severity_from_label : Option String → Severity
severity_from_label raw =
    let name = lower (or_text raw "") in
    if name == "critical" || name == "page"
    then critical
    else if name == "high" || name == "error"
    then high
    else if name == "medium" || name == "warning" || name == "warn"
    then medium
    else low

-- the loop of `_service_from_labels`: the first key whose value is not empty
unfoldable pub first_label : List String → Assoc String → String
first_label List.[] labels = "unknown"
first_label (List.◌∷◌ key keys) labels =
    let rest = first_label keys labels in or_text (lookup key labels) rest

abbrev pub service_keys : List String
service_keys =
    List.◌∷◌ "service" (List.◌∷◌ "app" (List.◌∷◌ "app_kubernetes_io_name" (List.◌∷◌ "job" List.[])))

-- `_service_from_labels`
unfoldable pub service_from_labels : Assoc String → String
service_from_labels labels = first_label service_keys labels

-- A text without its dashes: `uuid.hex` from `str(uuid)`.
without_dashes : String → String
without_dashes [] = []
without_dashes (c ∷ s) = let rest = without_dashes s in if (c ∷ []) == "-" then rest else c ∷ rest

-- `f"inc_{uuid.uuid4().hex[:10]}"`
unfoldable pub incident_id_of : String → String
unfolding without_dashes
incident_id_of uuid = "inc_" <> first_chars 10 (without_dashes uuid)

-- A state with the fields that `IncidentState` requires, the others at their defaults.
abbrev pub new_incident : String → Alert → ℕ → IncidentState
new_incident incident_id alert at = record {
  incident_id = incident_id;
  alert = alert;
  hypotheses = List.[];
  findings = List.[];
  timeline = List.[];
  actions_taken = List.[];
  action_intents = List.[];
  services_touched = List.[];
  current_focus_hypothesis_id = none;
  investigation_attempts = 0;
  phase = IncidentPhase.intake;
  created_at = at;
  updated_at = at;
}

-- the alert that `_seed_incident` makes
unfoldable pub seeded_alert : String → AlertmanagerAlert → Alert
seeded_alert receiver alert = record {
  source = "alertmanager:" <> receiver;
  raw_message = or_text (lookup "description" alert.annotations) (
      or_text (lookup "summary" alert.annotations)
        (get_or (lookup "alertname" alert.labels) "unknown-alert"));
  service = service_from_labels alert.labels;
  severity = severity_from_label (lookup "severity" alert.labels);
  fired_at = alert.starts_at;
  labels = alert.labels;
}

-- `_seed_incident`
unfoldable pub seed_incident : AlertmanagerAlert → String → Io IncidentState
seed_incident alert receiver = do
  at ← now
  uuid ← uuid4
  pure (new_incident (incident_id_of uuid) (seeded_alert receiver alert) at)

-- the loop over the alerts: the incidents accepted, and the number of alerts ignored
unfoldable pub take_in : String → List AlertmanagerAlert → Io (List IncidentState × ℕ)
take_in receiver List.[] = pure (List.[], 0)
take_in receiver (List.◌∷◌ alert alerts) =
    let rest = take_in receiver alerts in
    if alert.status == "firing"
    then (do
      incident ← seed_incident alert receiver
      (accepted, ignored) ← rest
      pure (List.◌∷◌ incident accepted, ignored))
    else (do (accepted, ignored) ← rest; pure (accepted, ignored + 1))

-- `alertmanager_webhook`
unfoldable pub alertmanager_webhook : AlertmanagerPayload → Io (Result HttpException IntakeResponse)
alertmanager_webhook payload =
    let loop = take_in payload.receiver payload.alerts in
    if nonempty payload.alerts
    then (do
      (accepted, ignored) ← loop
      pure (
          ok (record {
            accepted = length accepted;
            ignored = ignored;
            incidents = map (λ i. i.incident_id) accepted;
          })))
    else pure
        (err (record { status_code = 400; detail = "Alertmanager payload contained no alerts." }))
