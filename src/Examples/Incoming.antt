-- ===== src/Examples/Incoming.antt =====
-- The theorems on the intake, and on the graph that follows it, at concrete inputs.
use alph_e.Common.{none, some, true, [], ◌∷◌, ok, err, nat_eq, ◌==◌, if◌then◌else◌}
use alph_e.Intake.{AlertmanagerAlert, AlertmanagerPayload, alertmanager_webhook}
use alph_e.Intake.Seeded.{IsAnswer, alertmanager_webhook-IsAnswer}
use alph_e.Intake.Slack.{EventValue}
use alph_e.Intake.Slack.Web.{Slack, Session}
use alph_e.Intake.Slack.Investigation.{Desk, raised, answered, investigate_incident}
use alph_e.Intake.Slack.Report.{IsReport, investigate_incident-IsReport}
use alph_e.Intake.Slack.Events.{SlackEventWrapper, slack_events_webhook}
use alph_e.Intake.Slack.Answers.{IsAnswered, slack_events_webhook-IsAnswered}
use alph_e.Graph.Driven.{Replies}
use alph_e.Samples.{supply}
use alph_e.Examples.Runs.{start, reply, decision, services}

abbrev firing_alert : AlertmanagerAlert
firing_alert = record {
  status = "firing";
  labels = ("app", "checkout") ∷ ("severity", "Page") ∷ [];
  annotations = ("summary", "checkout is slow") ∷ [];
  starts_at = 5;
  ends_at = none;
  fingerprint = none;
}

abbrev payload : AlertmanagerPayload
payload = record {
  version = some "4";
  group_key = none;
  status = "firing";
  receiver = "alph-e";
  alerts = record firing_alert { status = "resolved" } ∷ firing_alert ∷ [];
}

alertmanager_webhook-IsAnswer_example :
    IsAnswer payload supply (alertmanager_webhook payload supply).0
alertmanager_webhook-IsAnswer_example = alertmanager_webhook-IsAnswer payload supply

-- Kubernetes answers, Prometheus does not.
abbrev desk : Desk
desk = record {
  env = λ name. some "key";
  collect = λ url input.
      if input.hypothesis_id == "hyp_k8s"
      then answered (some "a pod was killed") (ok ("raise the limit" ∷ []))
      else raised "timeout";
  create_message = λ key prompt. err "overloaded";
}

investigate_incident-IsReport_example :
    IsReport (investigate_incident desk start "checkout is down" supply).0
investigate_incident-IsReport_example =
    investigate_incident-IsReport desk start "checkout is down" supply

-- The third post raises.
abbrev slack : Slack
slack = record {
  env = λ name. some "C1";
  answer = λ n. if nat_eq n 2 then err "timeout" else ok (record { is_ok = true; ts = some "7.0" });
  label_error = λ event. "validation error for Alert";
}

abbrev session : Session
session = record { supply = supply; posts = [] }

abbrev message : SlackEventWrapper
message = record {
  type = "event_callback";
  challenge = none;
  token = none;
  team_id = none;
  event = some (
      ("type", EventValue.string "message")
      ∷ ("channel", EventValue.string "C2")
      ∷ ("user", EventValue.string "U1")
      ∷ ("text", EventValue.string "Alph-E: checkout is down")
      ∷ ("ts", EventValue.string "6.0")
      ∷ []);
}

slack_events_webhook-IsAnswered_example :
    IsAnswered slack message session (slack_events_webhook slack desk message session)
slack_events_webhook-IsAnswered_example = slack_events_webhook-IsAnswered slack desk message session

abbrev pub replies : Replies
replies = record {
  at = λ s. 9;
  think = λ s. reply;
  services = λ s. services;
  rows = λ s. none;
  supply = λ s. supply;
  decide = λ s. decision;
}
