-- ===== src/Intake/Slack/Events.antt =====
-- `slack_events_webhook` of agent/src/agent/intake/slack.py, with the posts it sends in their order.
use alph_e.Common.{
  ◌<>◌, String, Option, none, some, Bool, true, false, Result, ok, err, now, List, [], ◌∷◌, Assoc,
  lookup, get_or, lower, str_in, truthy, nonempty, not, ◌==◌, ◌&&◌, ◌||◌, if◌then◌else◌,
}
use alph_e.Schemas.{severity_name, IncidentState}
use alph_e.Intake.Slack.{
  Block, section_text, section_fields, devops_alfie_channel, seed_incident_from_slack, EventValue,
  is_true, str_value,
}
use alph_e.Intake.Slack.Web.{
  Slack, SlackReply, SlackClient, Web, ◌>>=◌, pure, catching, reading, new_slack_client,
  post_message, raising, of_result,
}
use alph_e.Intake.Slack.Investigation.{Desk, investigate_incident}

-- `SlackEventWrapper`
pub record SlackEventWrapper : Type 0 where
  pub type : String
  pub challenge : Option String
  pub token : Option String
  pub team_id : Option String
  pub event : Option (Assoc EventValue)

-- What the handler answers.
pub data EventReply : Type 0 where
  challenged : Option String → EventReply
  accepted : String → String → EventReply
  passed : EventReply

abbrev pub support_tag : String
support_tag = "#devops-support"

-- `event.get(name, "")`
abbrev pub value_at : Assoc EventValue → String → EventValue
value_at event name = get_or (lookup name event) (EventValue.string "")

-- the text of `event.get(name, "")`, as the f-strings write it
abbrev pub field : Assoc EventValue → String → String
field event name = str_value (value_at event name)

-- `text.lower()` for the text of the event, which no other value has
unfoldable pub text_of : EventValue → Result String String
text_of (EventValue.string s) = ok s
text_of EventValue.null = err "'NoneType' object has no attribute 'lower'"
text_of (EventValue.other type_name b shown) =
    err ("'" <> type_name <> "' object has no attribute 'lower'")

abbrev is_text : EventValue → Bool
is_text (EventValue.string s) = true
is_text _ = false

-- the labels that `Alert` validates as texts
unfoldable pub has_text_labels : Assoc EventValue → Bool
has_text_labels event =
    is_text (value_at event "channel")
    && is_text (value_at event "user")
    && is_text (value_at event "ts")

abbrev is_message_type : EventValue → Bool
is_message_type (EventValue.string s) = s == "message"
is_message_type _ = false

-- a message that is not an edit, a deletion or the like
unfoldable pub is_message : Assoc EventValue → Bool
is_message event =
    elim (lookup "type" event) [ none ↦ false | some type ↦ is_message_type type ]
    && not (is_true (value_at event "subtype"))

-- the test for a mention of the bot
unfoldable pub mentions_bot : String → Bool
mentions_bot text =
    let text_lower = lower text in
    str_in "@alph-e" text_lower || str_in "alph-e" text_lower || str_in "<@" text

-- `event.get("thread_ts") or event.get("ts", "")`
abbrev pub reply_thread : Assoc EventValue → EventValue
reply_thread event =
    if is_true (get_or (lookup "thread_ts" event) EventValue.null)
    then get_or (lookup "thread_ts" event) EventValue.null
    else value_at event "ts"

abbrev pub announcement_blocks : Assoc EventValue → IncidentState → String → List Block
announcement_blocks event incident text =
    section_text ("*🔍 New Investigation*\n`" <> incident.incident_id <> "`\n\n" <> support_tag)
    ∷ section_fields (
        ("*Reported by:* <@" <> field event "user" <> ">")
        ∷ ("*Channel:* <#" <> field event "channel" <> ">")
        ∷ ("*Service:* " <> incident.alert.service)
        ∷ ("*Severity:* " <> severity_name incident.alert.severity)
        ∷ [])
    ∷ section_text ("*Issue Description:*\n```" <> text <> "```")
    ∷ section_text "*🔄 Status:* Starting investigation..."
    ∷ []

-- `investigation_thread_ts`, where it is not empty
unfoldable pub investigation_thread : SlackReply → Option String
investigation_thread investigation_message =
    if investigation_message.is_ok
    then elim investigation_message.ts [
      | none ↦ none
      | some ts ↦ if truthy ts then some ts else none
    ]
    else none

module _ (slack : Slack) (client : SlackClient) where
  -- The five messages.
  unfoldable pub post_acknowledgement : Assoc EventValue → Web SlackReply
  post_acknowledgement event =
      post_message slack client (field event "channel")
        ("👋 Got it! I'm investigating this issue. I'll post updates in <#"
          <> devops_alfie_channel slack.env
          <> ">")
        (some (reply_thread event)) []

  unfoldable pub post_announcement : Assoc EventValue → IncidentState → String → Web SlackReply
  post_announcement event incident text =
      post_message slack client (devops_alfie_channel slack.env)
        ("🔍 **New Investigation Started** - `" <> incident.incident_id <> "`\n\n" <> support_tag)
        none (announcement_blocks event incident text)

  -- a message in the thread of the investigation, where there is one
  unfoldable pub post_in_thread : Option String → String → Web Unit
  post_in_thread none text = pure tt
  post_in_thread (some thread) text = do
    reply ←
        post_message slack client (devops_alfie_channel slack.env) text
          (some (EventValue.string thread)) []
    pure tt

  -- the `try` of the investigation
  unfoldable pub run_investigation : Desk → Option String → IncidentState → String → Web Unit
  run_investigation desk thread incident text = do
    begun ←
        post_in_thread thread
          "🔄 **Starting Investigation...**\nAnalyzing Kubernetes events and metrics..."
    findings ← reading (investigate_incident desk incident text)
    post_in_thread thread (
        "📊 **Investigation Complete**\n\n" <> findings <> "\n\n" <> support_tag
        <> " - Investigation findings above.")

  -- its `except`
  unfoldable pub report_error : Option String → String → Web Unit
  report_error thread e = post_in_thread thread (
      "📊 **Investigation Error**\n\nUnable to connect to collectors. Error: " <> e <> "\n\n"
      <> support_tag <> " - Manual investigation required.")

-- `_seed_incident_from_slack` for the event: the alert raises if a label is no text
unfoldable pub seed_of_event : Slack → Assoc EventValue → String → Web IncidentState
seed_of_event slack event text =
    if has_text_labels event
    then reading (
        seed_incident_from_slack (field event "channel") (field event "user") text
          (field event "ts") (lookup "thread_ts" event))
    else (do at ← reading now; raising (slack.label_error event))

-- the part of the handler for a mention of the bot
unfoldable pub handle_mention : Slack → Desk → Assoc EventValue → String → Web EventReply
handle_mention slack desk event text = do
  incident ← seed_of_event slack event text
  let client = new_slack_client slack.env none
  acknowledged ← post_acknowledgement slack client event
  investigation_message ← post_announcement slack client event incident text
  let thread = investigation_thread investigation_message
  investigated ←
      catching (run_investigation slack client desk thread incident text)
        (λ e. report_error slack client thread e)
  pure (accepted incident.incident_id (devops_alfie_channel slack.env))

-- the part of the handler for an event
unfoldable pub handle_event : Slack → Desk → Assoc EventValue → Web EventReply
handle_event slack desk event = if not (is_message event) then pure passed else (do
  text ← of_result (text_of (value_at event "text"))
  if mentions_bot text then handle_mention slack desk event text else pure passed)

-- `if payload.type == "event_callback" and payload.event`, from the event on
unfoldable pub handle_callback : Slack → Desk → Option (Assoc EventValue) → Web EventReply
handle_callback slack desk none = pure passed
handle_callback slack desk (some event) =
    if nonempty event then handle_event slack desk event else pure passed

-- `slack_events_webhook`
unfoldable pub slack_events_webhook : Slack → Desk → SlackEventWrapper → Web EventReply
slack_events_webhook slack desk payload =
    if payload.type == "url_verification"
    then pure (challenged payload.challenge)
    else if payload.type == "event_callback"
    then handle_callback slack desk payload.event
    else pure passed
