-- ===== src/Cli.antt =====
-- agent/src/agent/cli.py. The parsing of the arguments, the file system, `json.loads`, the validation of
-- a request by the web framework and the server are arguments.
pub mod Fire
use alph_e.Common.{
  ℕ, String, ◌<>◌, Option, none, some, Bool, true, false, map_ok, List, [], ◌∷◌, Result, ok, err,
  Io, pure, ◌>>=◌, nat_eq, if◌then◌else◌, Value, dumps, object_of, array_of, fields_of, each,
}
use alph_e.Intake.{AlertmanagerPayload, IntakeResponse, HttpException, alertmanager_webhook}

-- What the parser makes of the arguments: the subcommand with its options.
pub data Command : Type 0 where
  serve : String → ℕ → Bool → Command
  fire : String → Command

-- What a command leaves: its texts on the two streams, and the exit code.
pub record Exit : Type 0 where
  pub stdout : String
  pub stderr : String
  pub code : ℕ

-- a response of the test client
pub record Response : Type 0 where
  pub status_code : ℕ
  pub body : Value

-- What the commands take from outside, where an error is an exception: whether a path exists; the text
-- of a file; the value of a JSON text; the sending of a value, and its validation as a payload, whose
-- refusal is the body of a response with status 422; the server; and the text of a float in JSON.
pub record Outside : Type 1 where
  pub Json : Type 0
  pub exists : String → Result String Bool
  pub read_text : String → Result String String
  pub loads : String → Result String Json
  pub send : Json → Result String (Result Value AlertmanagerPayload)
  pub run_server : String → ℕ → Bool → Result String Exit
  pub float_text : ℕ → String

-- the JSON of an `IntakeResponse`, and of an `HTTPException`
unfoldable pub response_of : Result HttpException IntakeResponse → Response
unfolding fields_of each
response_of (ok r) = record {
  status_code = 200;
  body = object_of (
      ("accepted", Value.number r.accepted)
      ∷ ("ignored", Value.number r.ignored)
      ∷ ("incidents", array_of Value.text r.incidents)
      ∷ []);
}
response_of (err e) = record {
  status_code = e.status_code;
  body = object_of (("detail", Value.text e.detail) ∷ []);
}

module _ (outside : Outside) where
  open outside use {Json, exists, read_text, loads, send, run_server, float_text}

  -- `client.post("/webhook/alertmanager", json=payload)`
  unfoldable pub post : Json → Io (Result String Response)
  post json = elim (send json) [
    | err exc ↦ pure (err exc)
    | ok (err body) ↦ pure (ok (record { status_code = 422; body = body }))
    | ok (ok payload) ↦ do answer ← alertmanager_webhook payload; pure (ok (response_of answer))
  ]

  -- what is written and returned for a response
  unfoldable pub exit_of : Response → Exit
  unfolding dumps
  exit_of response = record {
    stdout = dumps float_text 0 response.body <> "\n";
    stderr = "";
    code = if nat_eq response.status_code 200 then 0 else 1;
  }

  -- `json.loads(path.read_text())`
  unfoldable pub read_fixture : String → Result String Json
  read_fixture path = elim (read_text path) [ err exc ↦ err exc | ok text ↦ loads text ]

  -- `_fire_fixture`
  unfoldable pub fire_fixture : String → Io (Result String Exit)
  fire_fixture path = elim (read_fixture path) [
    | err exc ↦ pure (err exc)
    | ok json ↦ do response ← post json; pure (map_ok exit_of response)
  ]

  -- `_cmd_fire`
  unfoldable pub cmd_fire : String → Io (Result String Exit)
  cmd_fire path = elim (exists path) [
    | err exc ↦ pure (err exc)
    | ok false ↦
        pure (ok (record { stdout = ""; stderr = "fixture not found: " <> path <> "\n"; code = 2 }))
    | ok true ↦ fire_fixture path
  ]

  -- `_cmd_serve`, which returns 0 where the server returns
  unfoldable pub cmd_serve : String → ℕ → Bool → Result String Exit
  cmd_serve host port reload = elim (run_server host port reload) [
    | err exc ↦ err exc
    | ok e ↦ ok (record e { code = 0 })
  ]

  -- `main`, from the parsed arguments on
  unfoldable pub run_command : Command → Io (Result String Exit)
  run_command (serve host port reload) = pure (cmd_serve host port reload)
  run_command (fire path) = cmd_fire path
