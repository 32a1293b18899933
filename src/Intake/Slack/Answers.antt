-- ===== src/Intake/Slack/Answers.antt =====
-- What the handler of events of agent/src/agent/intake/slack.py answers, and what it posts.
use alph_e.Common.{
  ◌≢◌, false, ◌*◌, String, ◌≡◌, refl, ◌∙◌, Option, none, some, nonempty, true, Result, ok, err,
  Assoc, arith, inl, inr, Bool-cases, if◌then◌else◌, ◌==◌, ◌&&◌, eq_iff,
}
use alph_e.Intake.Slack.{EventValue}
use alph_e.Intake.Slack.Web.{Slack, Session, new_slack_client, ◌>>=◌}
use alph_e.Intake.Slack.Investigation.{Desk}
use alph_e.Intake.Slack.Events.{
  SlackEventWrapper, EventReply, challenged, passed, value_at, text_of, has_text_labels,
  seed_of_event, is_message, mentions_bot, handle_mention, handle_event, handle_callback,
  slack_events_webhook,
}
use alph_e.Intake.Slack.Mentions.{acceptance, five_posts}
use alph_e.Intake.Slack.Posts.{Posting, post_cost}

abbrev pub message_in : Option (Assoc EventValue) → Option (Assoc EventValue)
message_in none = none
message_in (some event) = if nonempty event && is_message event then some event else none

-- The event of a callback, where it is a message, not an edit or the like.
abbrev pub message_of : SlackEventWrapper → Option (Assoc EventValue)
message_of payload = if payload.type == "event_callback" then message_in payload.event else none

-- What becomes of a payload. An address is verified with the challenge of the payload. What is no
-- message, or does not mention the bot, is passed over; a message whose text is no text raises, and so
-- does one that mentions the bot and whose channel, user or time is no text: all this with no post. Any
-- other message is accepted, or one of at most five posts raised.
pub data IsAnswered (slack : Slack) (payload : SlackEventWrapper) (s : Session)
    : Result String EventReply × Session → Type 0 where
  verified :
      payload.type ≡ "url_verification"
      → IsAnswered slack payload s (ok (challenged payload.challenge), s)
  no_message :
      payload.type ≢ "url_verification"
      → message_of payload ≡ none
      → IsAnswered slack payload s (ok passed, s)
  no_text :
      (event : Assoc EventValue) (e : String)
      → message_of payload ≡ some event
      → text_of (value_at event "text") ≡ err e
      → IsAnswered slack payload s (err e, s)
  no_mention :
      (event : Assoc EventValue) (text : String)
      → message_of payload ≡ some event
      → text_of (value_at event "text") ≡ ok text
      → mentions_bot text ≡ false
      → IsAnswered slack payload s (ok passed, s)
  no_labels :
      (event : Assoc EventValue) (text : String) (s' : Session)
      → message_of payload ≡ some event
      → text_of (value_at event "text") ≡ ok text
      → mentions_bot text ≡ true
      → has_text_labels event ≡ false
      → s'.posts ≡ s.posts
      → IsAnswered slack payload s (err (slack.label_error event), s')
  handled :
      (event : Assoc EventValue) (text : String) (out : Result String EventReply × Session)
      → message_of payload ≡ some event
      → text_of (value_at event "text") ≡ ok text
      → mentions_bot text ≡ true
      → has_text_labels event ≡ true
      → Posting slack
          (λ reply. reply ≡ acceptance slack s)
          (5 * post_cost (new_slack_client slack.env none))
          s
          out
      → IsAnswered slack payload s out

mention-IsAnswered :
    (slack : Slack) (desk : Desk) (payload : SlackEventWrapper) (s : Session)
    (event : Assoc EventValue) (text : String)
    → message_of payload ≡ some event
    → text_of (value_at event "text") ≡ ok text
    → mentions_bot text ≡ true
    → IsAnswered slack payload s (handle_mention slack desk event text s)
unfolding handle_mention seed_of_event ◌>>=◌
mention-IsAnswered slack desk payload s event text e t m =
    elim (Bool-cases (has_text_labels event)) [
      | inl h ↦ handled event text _ e t m h (five_posts slack desk event text s h)
      | inr h ↦ rw (h, handle_mention, seed_of_event) (no_labels event text _ e t m h refl)
    ]

message-IsAnswered :
    (slack : Slack) (desk : Desk) (payload : SlackEventWrapper) (s : Session)
    (event : Assoc EventValue) (r : Result String String)
    → is_message event ≡ true
    → message_of payload ≡ some event
    → text_of (value_at event "text") ≡ r
    → IsAnswered slack payload s (handle_event slack desk event s)
unfolding handle_event ◌>>=◌
message-IsAnswered slack desk payload s event (err x) h e t =
    rw (h, t, handle_event, ◌>>=◌) (no_text event x e t)
message-IsAnswered slack desk payload s event (ok text) h e t =
    elim (Bool-cases (mentions_bot text)) [
      | inr m ↦ rw (h, t, m, handle_event, ◌>>=◌) (no_mention event text e t m)
      | inl m ↦
          rw (h, t, m, handle_event, ◌>>=◌)
            (mention-IsAnswered slack desk payload s event text e t m)
    ]

callback-IsAnswered :
    (slack : Slack) (desk : Desk) (payload : SlackEventWrapper) (s : Session)
    (o : Option (Assoc EventValue))
    → payload.type ≢ "url_verification"
    → message_of payload ≡ message_in o
    → IsAnswered slack payload s (handle_callback slack desk o s)
unfolding handle_callback handle_event
callback-IsAnswered slack desk payload s none other e = no_message other e
callback-IsAnswered slack desk payload s (some event) other e = elim (Bool-cases (nonempty event)) [
  | inr h ↦ rw h (no_message other (e ∙ rw h refl))
  | inl h ↦ rw h (elim (Bool-cases (is_message event)) [
    | inr k ↦ rw (k, handle_event) (no_message other (e ∙ rw (h, k) refl))
    | inl k ↦ message-IsAnswered slack desk payload s event _ k (e ∙ rw (h, k) refl) refl
  ])
]

-- Whatever the values of the event are, and whatever Slack, the collectors and the language model
-- answer or raise: the handler answers the verification of the address with its challenge. It passes
-- over, without a post, what is not the callback of a message that mentions the bot. A message whose
-- text is no text, or that mentions the bot and whose channel, user or time is no text, raises before
-- any post. Any other message that mentions the bot it accepts, with the next identifier and the channel
-- of the investigations, or it raises what one of its posts raised; it posts at most five messages, and
-- none where no token is set.
pub slack_events_webhook-IsAnswered :
    (slack : Slack) (desk : Desk) (payload : SlackEventWrapper) (s : Session)
    → IsAnswered slack payload s (slack_events_webhook slack desk payload s)
unfolding slack_events_webhook
slack_events_webhook-IsAnswered slack desk payload s =
    elim (Bool-cases (payload.type == "url_verification")) [
      | inl h ↦ rw h (verified ((eq_iff payload.type "url_verification").0 h))
      | inr h ↦ rw h (elim (Bool-cases (payload.type == "event_callback")) [
        | inr k ↦ rw k (no_message (other h) (rw k refl))
        | inl k ↦
            rw k (callback-IsAnswered slack desk payload s payload.event (other h) (rw k refl))
      ])
    ]
  where
    other : (payload.type == "url_verification") ≡ false → payload.type ≢ "url_verification"
    other h e = ground (arith, h, e, eq_iff payload.type "url_verification")
