-- ===== src/Intake/Slack/Mentions.antt =====
-- What the handler of events of agent/src/agent/intake/slack.py posts for a mention of the bot.
use alph_e.Common.{
  ℕ, ◌+◌, ◌*◌, String, ◌≡◌, refl, ap, Option, none, some, true, Assoc, Io, Supply, lookup, arith,
}
use alph_e.Schemas.{IncidentState}
use alph_e.Intake.{incident_id_of}
use alph_e.Intake.Slack.{EventValue, seed_incident_from_slack, devops_alfie_channel}
use alph_e.Intake.Slack.Web.{Slack, SlackClient, Session, reading, new_slack_client}
use alph_e.Intake.Slack.Investigation.{Desk, investigate_incident}
use alph_e.Intake.Slack.Events.{
  EventReply, accepted, field, has_text_labels, seed_of_event, post_in_thread, post_acknowledgement,
  post_announcement, run_investigation, report_error, handle_mention,
}
use alph_e.Intake.Slack.Posts.{
  Posting, Posting-quiet, >>=-Posting, catching-Posting, post_message-Posting, post_cost, Anything,
}

module _ (slack : Slack) (client : SlackClient) where
  post_in_thread-Posting :
      (thread : Option String) (text : String) (s : Session)
      → Posting slack Anything (post_cost client + 0) s (post_in_thread slack client thread text s)
  unfolding post_in_thread
  post_in_thread-Posting none text s = Posting-quiet slack Anything _ s s tt refl tt
  post_in_thread-Posting (some thread) text s =
      >>=-Posting slack Anything Anything _ 0 _ _ s
        (post_message-Posting slack client _ text (some (EventValue.string thread)) _ s)
        (λ reply _ s'. Posting-quiet slack Anything 0 s' s' tt refl tt)

  run_investigation-Posting :
      (desk : Desk) (thread : Option String) (incident : IncidentState) (text : String)
      (s : Session)
      → Posting slack Anything
          ((post_cost client + 0) + (0 + (post_cost client + 0)))
          s
          (run_investigation slack client desk thread incident text s)
  unfolding run_investigation
  run_investigation-Posting desk thread incident text s =
      >>=-Posting slack Anything Anything _ _ _ _ s (post_in_thread-Posting thread _ s)
        (λ begun _ s'.
          >>=-Posting slack Anything Anything 0 _
            (reading (investigate_incident desk incident text)) _ s'
            (Posting-quiet slack Anything 0 s' _ _ refl tt)
            (λ findings _ s''. post_in_thread-Posting thread _ s''))

seed_incident_from_slack-id :
    (channel user text ts : String) (thread : Option EventValue) (s : Supply)
    → (seed_incident_from_slack channel user text ts thread s).0.incident_id
      ≡ incident_id_of (s.uuids s.draws)
unfolding seed_incident_from_slack
seed_incident_from_slack-id channel user text ts thread s = refl

-- The reply to a mention: the next identifier of the supply, and the channel of the investigations.
abbrev pub acceptance : Slack → Session → EventReply
acceptance slack s =
    accepted (incident_id_of (s.supply.uuids s.supply.draws)) (devops_alfie_channel slack.env)

-- The sum that the steps of the handler give.
abbrev mention_cost : ℕ → ℕ
mention_cost c = 0 + (c + (c + ((((c + 0) + (0 + (c + 0))) + (c + 0)) + 0)))

handle_mention-Posting :
    (slack : Slack) (desk : Desk) (event : Assoc EventValue) (text : String) (s : Session)
    → has_text_labels event ≡ true
    → Posting slack
        (λ reply. reply ≡ acceptance slack s)
        (mention_cost (post_cost (new_slack_client slack.env none)))
        s
        (handle_mention slack desk event text s)
unfolding handle_mention report_error post_acknowledgement post_announcement seed_of_event
handle_mention-Posting slack desk event text s labelled = rw labelled (
    >>=-Posting slack (λ i. i.incident_id ≡ incident_id_of (s.supply.uuids s.supply.draws)) Reply _
      _ (reading seeding) _ s (Posting-quiet slack _ 0 s _ _ refl seeded)
      (λ incident same s1.
        >>=-Posting slack Anything Reply _ _ _ _ s1 (post_message-Posting slack client _ _ _ _ s1)
          (λ acknowledged _ s2.
            >>=-Posting slack Anything Reply _ _ _ _ s2
              (post_message-Posting slack client _ _ _ _ s2)
              (λ announced _ s3.
                >>=-Posting slack Anything Reply _ _ _ _ s3
                  (catching-Posting slack Anything _ _ _ _ s3
                    (run_investigation-Posting slack client desk _ incident text s3)
                    (λ e s4. post_in_thread-Posting slack client _ _ s4))
                  (λ investigated _ s4.
                    Posting-quiet slack Reply 0 s4 s4 _ refl
                      (ap (λ id. accepted id (devops_alfie_channel slack.env)) same))))))
  where
    Reply : EventReply → Type 0
    Reply reply = reply ≡ acceptance slack s

    client : SlackClient
    client = new_slack_client slack.env none

    seeding : Io IncidentState
    seeding =
        seed_incident_from_slack (field event "channel") (field event "user") text
          (field event "ts") (lookup "thread_ts" event)

    seeded : (seeding s.supply).0.incident_id ≡ incident_id_of (s.supply.uuids s.supply.draws)
    seeded = seed_incident_from_slack-id _ _ _ _ _ s.supply

pub five_posts :
    (slack : Slack) (desk : Desk) (event : Assoc EventValue) (text : String) (s : Session)
    → has_text_labels event ≡ true
    → Posting slack
        (λ reply. reply ≡ acceptance slack s)
        (5 * post_cost (new_slack_client slack.env none))
        s
        (handle_mention slack desk event text s)
five_posts slack desk event text s labelled =
    let p = handle_mention-Posting slack desk event text s labelled in
    record {
      added = p.added;
      split = p.split;
      few = omega (arith, p.few);
      returned = p.returned;
      raised = p.raised;
    }
