-- ===== src/Cli/Fire.antt =====
-- What `agent fire` prints, and with which exit code it ends: agent/src/agent/cli.py over the handler of
-- agent/src/agent/intake/webhook.py.
use alph_e.Common.{
  String, ◌<>◌, ◌≡◌, refl, Bool, true, false, [], map_ok, Result, ok, err, Supply, nonempty, Value,
  dumps,
}
use alph_e.Intake.{AlertmanagerPayload, IntakeResponse, HttpException}
use alph_e.Intake.Seeded.{IsIntake, IsAnswer, refused, answered, alertmanager_webhook-IsAnswer}
use alph_e.Cli.{Outside, Exit, response_of, exit_of, post, read_fixture, fire_fixture, cmd_fire}

module _ (outside : Outside) where
  open outside use {Json, exists, read_text, loads, send, float_text}

  abbrev printed : Value → String
  printed body = dumps float_text 0 body <> "\n"

  -- The file is there, and its text is the JSON of a value.
  abbrev pub Holds : String → Json → Type 0
  Holds path json =
      (text : String) × (exists path ≡ ok true)
      × (read_text path ≡ ok text)
      × (loads text ≡ ok json)

  -- What a call leaves, by what it finds.
  pub data IsFired (path : String) (s : Supply) : Result String Exit → Type 0 where
    unknown : (exc : String) → exists path ≡ err exc → IsFired path s (err exc)
    missing :
        exists path ≡ ok false
        → IsFired path s
            (ok (record { stdout = ""; stderr = "fixture not found: " <> path <> "\n"; code = 2 }))
    unreadable :
        (exc : String) → exists path ≡ ok true → read_text path ≡ err exc → IsFired path s (err exc)
    no_json :
        (text exc : String)
        → exists path ≡ ok true
        → read_text path ≡ ok text
        → loads text ≡ err exc
        → IsFired path s (err exc)
    unsent :
        (json : Json) (exc : String)
        → Holds path json
        → send json ≡ err exc
        → IsFired path s (err exc)
    no_payload :
        (json : Json) (body : Value)
        → Holds path json
        → send json ≡ ok (err body)
        → IsFired path s (ok (record { stdout = printed body; stderr = ""; code = 1 }))
    no_alerts :
        (json : Json) (payload : AlertmanagerPayload) (e : HttpException)
        → Holds path json
        → send json ≡ ok (ok payload)
        → payload.alerts ≡ []
        → IsFired path s
            (ok (record { stdout = printed (response_of (err e)).body; stderr = ""; code = 1 }))
    accepted :
        (json : Json) (payload : AlertmanagerPayload) (response : IntakeResponse)
        → Holds path json
        → send json ≡ ok (ok payload)
        → nonempty payload.alerts ≡ true
        → IsIntake payload s response
        → IsFired path s (
            ok
              (record { stdout = printed (response_of (ok response)).body; stderr = ""; code = 0 }))

  handled :
      (path : String) (s : Supply) (json : Json) (payload : AlertmanagerPayload)
      → Holds path json
      → send json ≡ ok (ok payload)
      → (answer : Result HttpException IntakeResponse) → IsAnswer payload s answer
      → IsFired path s (ok (exit_of outside (response_of answer)))
  unfolding exit_of response_of
  handled path s json payload h v _ (refused e empty status) =
      rw status (no_alerts json payload e h v empty)
  handled path s json payload h v _ (answered response some_alert intake) =
      accepted json payload response h v some_alert intake

  sent :
      (path : String) (s : Supply) (json : Json)
      (v : Result String (Result Value AlertmanagerPayload))
      → Holds path json
      → send json ≡ v
      → IsFired path s (map_ok (exit_of outside) (post outside json s).0)
  unfolding post exit_of
  sent path s json (err exc) h v = rw (v, post) (unsent json exc h v)
  sent path s json (ok (err body)) h v = rw (v, post) (no_payload json body h v)
  sent path s json (ok (ok payload)) h v =
      rw (v, post) (handled path s json payload h v _ (alertmanager_webhook-IsAnswer payload s))

  read :
      (path : String) (s : Supply) (r : Result String String)
      → exists path ≡ ok true
      → read_text path ≡ r
      → IsFired path s (fire_fixture outside path s).0
  unfolding fire_fixture read_fixture
  read path s (err exc) there r = rw (r, fire_fixture, read_fixture) (unreadable exc there r)
  read path s (ok text) there r = go (loads text) refl
    where
      go :
          (q : Result String Json) → loads text ≡ q → IsFired path s (fire_fixture outside path s).0
      go (err exc) e = rw (r, e, fire_fixture, read_fixture) (no_json text exc there r e)
      go (ok json) e =
          rw (r, e, fire_fixture, read_fixture)
            (sent path s json (send json) (text, there, r, e) refl)

  -- `agent fire` ends with 2 and a message exactly where the path does not exist. It raises only what
  -- the look at the path, the reading of the file, that of its JSON or the sending of the payload
  -- raises, and prints else the response. It ends with 1 where the payload is not valid or has no
  -- alerts, and with 0 where the handler has taken the firing alerts in, whose number and identifiers
  -- it prints.
  pub cmd_fire-IsFired : (path : String) (s : Supply) → IsFired path s (cmd_fire outside path s).0
  unfolding cmd_fire
  cmd_fire-IsFired path s = go (exists path) refl
    where
      go : (o : Result String Bool) → exists path ≡ o → IsFired path s (cmd_fire outside path s).0
      go (err exc) e = rw (e, cmd_fire) (unknown exc e)
      go (ok false) e = rw (e, cmd_fire) (missing e)
      go (ok true) e = rw (e, cmd_fire) (read path s (read_text path) e refl)
