-- ===== src/Llm/Client/Retries.antt =====
-- The loop of `Client.complete` ends, and how.
use mathlib.Core.Path.{subst}
use alph_e.Common.{
  ℕ, zero, suc, ◌+◌, ◌≤◌, ◌<◌, String, ◌≡◌, refl, sym, ◌∙◌, some, true, false, List, [], ◌∷◌, ◌++◌,
  append-nil, append_assoc, leb, Result, ok, err, arith, ◌⊎◌, inl, inr, Bool-cases,
}
use alph_e.Llm.Client.{
  LlmSettings, ApiReply, ApiFailure, answered, status_error, failed, Ended, backoff, is_retryable,
  complete_loop, complete,
}

-- the sleeps after so many attempts from one on
abbrev pub waits : LlmSettings → ℕ → ℕ → List ℕ
waits settings first zero = []
waits settings first (suc n) = backoff settings first ∷ waits settings (first + 1) n

module _ {M : Type 0} (settings : LlmSettings) (reply : ℕ → ApiReply M) where
  -- The request of an attempt was answered by a status that is retried.
  abbrev pub IsRetried : ℕ → Type 0
  IsRetried attempt =
      (status : ℕ) × (reply attempt ≡ status_error status) × (is_retryable settings status ≡ true)

  -- Why a call ended at an attempt: its message, or its status, which is not retried or is that
  -- of the last attempt allowed, or its other exception.
  abbrev pub Cause : Ended M → ℕ → Type 0
  Cause e last =
      ((m : M) × (e.outcome ≡ ok m) × (reply last ≡ answered m))
      ⊎ ((status : ℕ) × (e.outcome ≡ err (ApiFailure.api_status status))
          × (reply last ≡ status_error status)
          × ((is_retryable settings status ≡ false) ⊎ (last ≡ settings.max_retries)))
      ⊎ ((exc : String) × (e.outcome ≡ err (ApiFailure.other_exception exc))
          × (reply last ≡ failed exc))

  -- How a call ends: after so many attempts that were retried, each after its backoff.
  pub record IsEnd (first : ℕ) (slept : List ℕ) (e : Ended M) : Type 0 where
    pub count : ℕ
    pub allowed : first + count ≤ settings.max_retries
    pub retried : (k : ℕ) → k < count → IsRetried (first + k)
    pub sleeps : e.sleeps ≡ slept ++ waits settings first count
    pub cause : Cause e (first + count)

  IsEnd-here :
      (first : ℕ) (slept : List ℕ) (outcome : Result ApiFailure M)
      → first ≤ settings.max_retries
      → Cause (record { outcome = outcome; sleeps = slept }) first
      → IsEnd first slept (record { outcome = outcome; sleeps = slept })
  IsEnd-here first slept outcome h cause = record {
    count = 0;
    allowed = omega (arith, h);
    retried = λ k below. absurd (omega (arith, below));
    sleeps = sym (append-nil slept);
    cause = subst (Cause (record { outcome = outcome; sleeps = slept })) (omega arith) cause;
  }

  -- what is retried, and then ends
  retry_first :
      (first : ℕ) (slept : List ℕ) (e : Ended M)
      → IsRetried first
      → IsEnd (first + 1) (slept ++ backoff settings first ∷ []) e
      → IsEnd first slept e
  retry_first first slept e now later = record {
    count = suc later.count;
    allowed = omega (arith, later.allowed);
    retried = λ k below. each k below;
    sleeps = later.sleeps ∙ append_assoc slept (backoff settings first ∷ []) _;
    cause = subst (Cause e) (omega arith) later.cause;
  }
    where
      each : (k : ℕ) → k < suc later.count → IsRetried (first + k)
      each zero below = subst IsRetried (omega arith) now
      each (suc k) below = subst IsRetried (omega arith) (later.retried k (omega (arith, below)))

  loop-IsEnd :
      (fuel attempt : ℕ) (slept : List ℕ)
      → attempt ≤ settings.max_retries
      → settings.max_retries < attempt + fuel
      → (e : Ended M) × (complete_loop settings reply fuel attempt slept ≡ some e)
        × IsEnd attempt slept e
  unfolding complete_loop
  loop-IsEnd zero attempt slept h enough = absurd (omega (arith, h, enough))
  loop-IsEnd (suc fuel) attempt slept h enough =
      go (reply attempt) refl
        (loop-IsEnd fuel (attempt + 1) (slept ++ backoff settings attempt ∷ []))
    where
      go :
          (r : ApiReply M)
          → reply attempt ≡ r
          → (attempt + 1 ≤ settings.max_retries
              → settings.max_retries < (attempt + 1) + fuel
              → (e : Ended M) × (complete_loop settings reply fuel
                    (attempt + 1)
                    (slept ++ backoff settings attempt ∷ [])
                  ≡ some e)
                × IsEnd (attempt + 1) (slept ++ backoff settings attempt ∷ []) e)
          → (e : Ended M) × (complete_loop settings reply (suc fuel) attempt slept ≡ some e)
            × IsEnd attempt slept e
      go (answered m) q ih =
          (_, rw (q, complete_loop) refl, IsEnd-here attempt slept (ok m) h (inl (m, refl, q)))
      go (failed exc) q ih = (
        _,
        rw (q, complete_loop) refl,
        IsEnd-here attempt slept (err (ApiFailure.other_exception exc)) h
            (inr (inr (exc, refl, q))),
      )
      go (status_error status) q ih = elim (Bool-cases (is_retryable settings status)) [
        | inr final ↦ (
          _,
          rw (q, complete_loop) (rw final refl),
          IsEnd-here attempt slept (err (ApiFailure.api_status status)) h
              (inr (inl (status, refl, q, inl final))),
        )
        | inl retry ↦ elim (Bool-cases (leb settings.max_retries attempt)) [
          | inl exhausted ↦ (
            _,
            rw (q, complete_loop) (rw (retry, exhausted) refl),
            IsEnd-here attempt slept (err (ApiFailure.api_status status)) h
                (inr (inl (status, refl, q, inr (ground (arith, exhausted, h))))),
          )
          | inr left ↦
              let (e, same, later) = ih (ground (arith, left)) (omega (arith, enough)) in
              (
                e,
                rw (q, complete_loop) (rw (retry, left) same),
                retry_first attempt slept e (status, q, retry) later,
              )
        ]
      ]

  -- A call always ends, within `max_retries` + 1 attempts: some attempts were answered by a status
  -- that is retried, and after each the client slept its backoff; then the call returned the
  -- message of the next attempt, or raised its status, which is not retried or is that of the last
  -- attempt allowed, or raised the exception of another kind that it met.
  pub complete-IsEnd : (e : Ended M) × (complete settings reply ≡ some e) × IsEnd 0 [] e
  unfolding complete
  complete-IsEnd = loop-IsEnd (suc settings.max_retries) 0 [] (omega arith) (omega arith)
