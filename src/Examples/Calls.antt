-- ===== src/Examples/Calls.antt =====
-- The theorems on the calls of the language model, at concrete replies.
use alph_e.Common.{
  ℕ, ◌+◌, ◌-◌, ◌*◌, ◌/◌, String, ◌≡◌, ◌==◌, none, some, List, [], ◌∷◌, Result, ok, err,
  if◌then◌else◌, nat_eq,
}
use alph_e.Llm.{LlmError}
use alph_e.Llm.Client.{LlmSettings, ApiReply, answered, status_error, Ended, complete}
use alph_e.Llm.Client.Retries.{IsEnd, complete-IsEnd}
use alph_e.Llm.Observability.{Floats, LlmCallRecorder, Block as CallBlock, new_stats}
use alph_e.Llm.Observability.Tally.{Tallied, run_calls, run_calls-Tallied}
use alph_e.Llm.Structured.{Block, Turn, tool_use, other_block, user, OutputModel, complete_typed}
use alph_e.Llm.Structured.Attempts.{IsTyped, complete_typed-IsTyped}

abbrev settings : LlmSettings
settings = record {
  max_retries = 2;
  initial_backoff = 1000000;
  max_backoff = 30000000;
  retryable_status_codes = 429 ∷ 500 ∷ 502 ∷ 503 ∷ 504 ∷ [];
}

-- an API that is overloaded once
abbrev busy_once : ℕ → ApiReply String
busy_once attempt = if nat_eq attempt 0 then status_error 503 else answered "hello"

complete-IsEnd_example :
    (e : Ended String) × (complete settings busy_once ≡ some e) × IsEnd settings busy_once 0 [] e
complete-IsEnd_example = complete-IsEnd settings busy_once

-- a model with one text, which may not be empty
abbrev answer_model : OutputModel String String
answer_model = record {
  tool_name = "answer";
  validate = λ raw. if raw == "" then err "field required" else ok raw;
  empty = "";
  dumps = λ raw. raw;
}

-- a client that forgets the tool at first
abbrev forgetful : ℕ → List (Turn String) → Result LlmError (List (Block String))
forgetful attempt conversation =
    if nat_eq attempt 0 then ok (other_block ∷ []) else ok (tool_use "answer" "yes" ∷ [])

complete_typed-IsTyped_example :
    IsTyped answer_model forgetful 1 0
      (user "why" ∷ [])
      (complete_typed answer_model forgetful 1 (user "why" ∷ []))
complete_typed-IsTyped_example = complete_typed-IsTyped answer_model forgetful 1 (user "why" ∷ [])

-- Whole numbers in place of floats.
abbrev whole : Floats
whole = record {
  Float = ℕ;
  of_int = λ n. n;
  plus = λ m n. m + n;
  times = λ m n. m * n;
  over = λ m n. m / n;
  minus = λ m n. m - n;
  round = λ m digits. m;
}

abbrev recorder : LlmCallRecorder whole
recorder = record {
  model = "m";
  role = "Planner";
  incident_id = none;
  pricing = [];
  extra = [];
  start = 3;
}

-- a call that returns and one that raises
abbrev calls : List (CallBlock whole String)
calls =
    record {
      recorder = recorder;
      end = 4;
      response = some (record {
        input_tokens = 10;
        output_tokens = 2;
        cache_creation_input_tokens = none;
        cache_read_input_tokens = some 5;
      });
      result = ok "text";
    }
    ∷ record { recorder = recorder; end = 5; response = none; result = err "overloaded" }
    ∷ []

run_calls-Tallied_example :
    Tallied whole calls (new_stats whole) (run_calls whole calls (some (new_stats whole)))
run_calls-Tallied_example = run_calls-Tallied whole calls (new_stats whole)
