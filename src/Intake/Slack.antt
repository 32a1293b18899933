-- ===== src/Intake/Slack.antt =====
-- agent/src/agent/intake/slack.py: messages of Slack as incidents, and the slash command. Web models
-- its client, Investigation `investigate_incident`, Events the handler of events; Report, Mentions and
-- Answers say what the last two do. A field of a form is missing or a text;
-- a value of an event is an `EventValue`.
pub mod Web
pub mod Investigation
pub mod Events
pub mod Report
pub mod Posts
pub mod Mentions
pub mod Answers
use alph_e.Common.{
  ◌<>◌, ℕ, String, Option, none, some, Bool, false, List, [], ◌∷◌, any, Io, pure, now, uuid4, ◌>>=◌,
  Assoc, lookup, insert, get_or, lower, str_in, truthy, ◌==◌, if◌then◌else◌,
}
use alph_e.Schemas.{Alert, IncidentState, Severity, critical, high, medium, low}
use alph_e.Intake.{incident_id_of, new_incident}

-- `any(word in text for word in words)`
abbrev pub has_word : String → List String → Bool
has_word text words = any (λ word. str_in word text) words

abbrev pub critical_words : List String
critical_words = "critical" ∷ "down" ∷ "outage" ∷ "emergency" ∷ []

abbrev pub high_words : List String
high_words = "error" ∷ "failing" ∷ "broken" ∷ "high" ∷ []

abbrev pub medium_words : List String
medium_words = "warning" ∷ "slow" ∷ "degraded" ∷ "medium" ∷ []

-- `_parse_slack_message`
unfoldable pub parse_slack_message : String → Severity × String
parse_slack_message text =
    let text_lower = lower text in
    let severity =
      if has_word text_lower critical_words
      then critical
      else if has_word text_lower high_words
      then high
      else if has_word text_lower medium_words
      then medium
      else low in
    (severity, text)

abbrev pub service_words : List String
service_words =
    "api" ∷ "database" ∷ "web" ∷ "worker" ∷ "redis" ∷ "postgres" ∷ "demo" ∷ "leaky-service" ∷ []

-- the loop over the names of services
unfoldable pub service_in : String → List String → String
service_in text [] = "unknown"
service_in text (word ∷ words) =
    let rest = service_in text words in if str_in word (lower text) then word else rest

-- A value of the JSON of an event: a text, null, or another one by the name of its Python type, its
-- truth and its `str`.
pub data EventValue : Type 0 where
  string : String → EventValue
  null : EventValue
  other : (type_name : String) (is_true : Bool) (shown : String) → EventValue

abbrev pub is_true : EventValue → Bool
is_true (EventValue.string s) = truthy s
is_true EventValue.null = false
is_true (EventValue.other type_name b shown) = b

-- `str(value)`
abbrev pub str_value : EventValue → String
str_value (EventValue.string s) = s
str_value EventValue.null = "None"
str_value (EventValue.other type_name b shown) = shown

-- the labels of the alert; a thread that is no text is not validated, and stands here by its `str`
unfoldable pub slack_labels : String → String → String → Option EventValue → Assoc String
slack_labels channel user ts thread_ts =
    let labels = ("slack_channel", channel) ∷ ("slack_user", user) ∷ ("slack_ts", ts) ∷ [] in
    elim thread_ts [
      | none ↦ labels
      | some thread ↦
          if is_true thread then insert "slack_thread_ts" (str_value thread) labels else labels
    ]

-- `_seed_incident_from_slack`
unfoldable pub seed_incident_from_slack :
    String → String → String → String → Option EventValue → Io IncidentState
seed_incident_from_slack channel user text ts thread_ts = do
  at ← now
  let (severity, description) = parse_slack_message text
  uuid ← uuid4
  let alert : Alert = record {
    source = "slack:" <> channel;
    raw_message = description;
    service = service_in text service_words;
    severity = severity;
    fired_at = at;
    labels = slack_labels channel user ts thread_ts;
  }
  pure (new_incident (incident_id_of uuid) alert at)

-- The blocks of a message: a section with a text, and one with fields.
pub data Block : Type 0 where
  section_text : String → Block
  section_fields : List String → Block

-- `os.getenv("DEVOPS_ALFIE_CHANNEL", "devops-alfie")`
abbrev pub devops_alfie_channel : (String → Option String) → String
devops_alfie_channel env = get_or (env "DEVOPS_ALFIE_CHANNEL") "devops-alfie"

-- The reply to a slash command.
pub data SlashReply : Type 0 where
  in_channel : String → List Block → SlashReply
  plain_text : String → SlashReply

-- `slack_slash_command`; `timestamp_text` is `str(t.timestamp())`
unfoldable pub slack_slash_command :
    (String → Option String) → (ℕ → String) → Assoc String → Io SlashReply
slack_slash_command env timestamp_text form =
    let command = get_or (lookup "command" form) "" in
    let text = get_or (lookup "text" form) "" in
    let channel_id = get_or (lookup "channel_id" form) "" in
    let user_id = get_or (lookup "user_id" form) "" in
    if command == "/investigate"
    then (do
      at ← now
      incident ← seed_incident_from_slack channel_id user_id text (timestamp_text at) none
      let channel = devops_alfie_channel env
      pure (
          in_channel
            ("🔍 Starting investigation for incident `" <> incident.incident_id
              <> "`\nI'll post updates in <#" <> channel <> ">")
            (section_text (
                "*Investigation Started*\nIncident ID: `" <> incident.incident_id
                <> "`\nI'll post updates in <#" <> channel <> ">")
              ∷ [])))
    else pure (plain_text "Unknown command")
