-- ===== src/Llm/Client.antt =====
-- agent/src/agent/llm/client.py: the loop of `Client.complete`. The answers of the API, one for each
-- attempt, are an argument; an attempt is numbered from 0. A time is a number of microseconds.
pub mod Retries
use alph_e.Common.{
  ℕ, zero, suc, ◌+◌, ◌*◌, ◌^◌, ◌-◌, ◌≤◌, ◌<◌, String, ◌≡◌, refl, Option, none, some, Bool, true,
  false, not, List, [], ◌∷◌, ◌++◌, any, leb, ltb, nat_eq, Result, ok, err, arith, if◌then◌else◌,
  length, ◌⊎◌, inl, inr, Bool-cases, ◌||◌,
}

-- `LLMSettings`: what the loop reads of it
pub record LlmSettings : Type 0 where
  pub max_retries : ℕ
  pub initial_backoff : ℕ
  pub max_backoff : ℕ
  pub retryable_status_codes : List ℕ

-- What a request gives: a message, an `APIStatusError` with its status, or another exception, such as
-- that of a connection or of a timeout.
pub data ApiReply (M : Type 0) : Type 0 where
  answered : M → ApiReply M
  status_error : ℕ → ApiReply M
  failed : String → ApiReply M

-- What a call raises: the `APIStatusError` with its status, or the other exception.
pub data ApiFailure : Type 0 where
  api_status : ℕ → ApiFailure
  other_exception : String → ApiFailure

abbrev minimum : ℕ → ℕ → ℕ
minimum a b = if leb a b then a else b

abbrev pub backoff : LlmSettings → ℕ → ℕ
backoff settings attempt = minimum (settings.initial_backoff * 2 ^ attempt) settings.max_backoff

abbrev pub is_retryable : LlmSettings → ℕ → Bool
is_retryable settings status = any (nat_eq status) settings.retryable_status_codes

-- How a call ends: with a message or what is raised, after so many sleeps.
pub record Ended (M : Type 0) : Type 0 where
  pub outcome : Result ApiFailure M
  pub sleeps : List ℕ

module _ {M : Type 0} (settings : LlmSettings) (reply : ℕ → ApiReply M) where
  -- The `while True` loop, on fuel; `none` is a loop that has not ended yet.
  unfoldable pub complete_loop : ℕ → ℕ → List ℕ → Option (Ended M)
  complete_loop zero attempt sleeps = none
  complete_loop (suc fuel) attempt sleeps =
      let rest = complete_loop fuel (attempt + 1) (sleeps ++ backoff settings attempt ∷ []) in
      elim (reply attempt) [
        | answered m ↦ some (record { outcome = ok m; sleeps = sleeps })
        | failed exc ↦
            some (record { outcome = err (ApiFailure.other_exception exc); sleeps = sleeps })
        | status_error status ↦
            if not (is_retryable settings status)
            then some (record { outcome = err (ApiFailure.api_status status); sleeps = sleeps })
            else if leb settings.max_retries attempt
            then some (record { outcome = err (ApiFailure.api_status status); sleeps = sleeps })
            else rest
      ]

  -- `Client.complete`
  unfoldable pub complete : Option (Ended M)
  complete = complete_loop (suc settings.max_retries) 0 []
