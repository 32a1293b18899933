-- ===== src/Llm/Observability.antt =====
-- agent/src/agent/llm/observability.py: the recorder of a model call, the estimate of its cost and the
-- statistics of a run. The arithmetic of floats is an argument; a price table has all four rates of a
-- model, and the extra fields of an event have names of their own.
pub mod Tally
use alph_e.Common.{
  ℕ, zero, suc, ◌+◌, String, Option, none, some, Bool, false, List, [], ◌∷◌, ◌++◌, Assoc, lookup,
  get_or, Result, ok, err, if◌then◌else◌,
}

-- What the program uses of `float`: 0.0, `+`, `*` and `/` on the values of integers, and `round`.
pub record Floats : Type 1 where
  pub Float : Type 0
  pub of_int : ℕ → Float
  pub plus : Float → Float → Float
  pub times : Float → Float → Float
  pub over : Float → Float → Float
  pub minus : Float → Float → Float
  pub round : Float → ℕ → Float

-- The `usage` of a message; the two cache counts may be missing or `None`.
pub record Usage : Type 0 where
  pub input_tokens : ℕ
  pub output_tokens : ℕ
  pub cache_creation_input_tokens : Option ℕ
  pub cache_read_input_tokens : Option ℕ

module _ (floats : Floats) where
  open floats use {Float, of_int, plus, times, over, minus, round}

  -- The rates of one model in a price table.
  pub record Rates : Type 0 where
    pub input : Float
    pub output : Float
    pub cache_write : Float
    pub cache_read : Float

  -- `n * rate / _PER_M`
  abbrev pub priced : ℕ → Float → Float
  priced n rate = over (times (of_int n) rate) (of_int 1000000)

  -- `_estimate_cost`
  unfoldable pub estimate_cost : String → ℕ → ℕ → ℕ → ℕ → Assoc Rates → Float
  estimate_cost model input_tokens output_tokens cache_creation_tokens cache_read_tokens pricing =
      elim (lookup model pricing) [
        | none ↦ of_int 0
        | some rates ↦
            round
              (plus
                (plus (plus (priced input_tokens rates.input) (priced output_tokens rates.output))
                  (priced cache_creation_tokens rates.cache_write))
                (priced cache_read_tokens rates.cache_read))
              8
      ]

  -- `RunStats`
  pub record RunStats : Type 0 where
    pub calls : ℕ
    pub input_tokens : ℕ
    pub output_tokens : ℕ
    pub cache_creation_tokens : ℕ
    pub cache_read_tokens : ℕ
    pub est_cost_usd : Float
    pub errors : ℕ

  abbrev pub new_stats : RunStats
  new_stats = record {
    calls = 0;
    input_tokens = 0;
    output_tokens = 0;
    cache_creation_tokens = 0;
    cache_read_tokens = 0;
    est_cost_usd = of_int 0;
    errors = 0;
  }

  -- `RunStats.record_success`
  unfoldable pub record_success : ℕ → ℕ → ℕ → ℕ → Float → RunStats → RunStats
  record_success input_tokens output_tokens cache_creation_tokens cache_read_tokens cost stats =
      record stats {
        calls = stats.calls + 1;
        input_tokens = stats.input_tokens + input_tokens;
        output_tokens = stats.output_tokens + output_tokens;
        cache_creation_tokens = stats.cache_creation_tokens + cache_creation_tokens;
        cache_read_tokens = stats.cache_read_tokens + cache_read_tokens;
        est_cost_usd = plus stats.est_cost_usd cost;
      }

  -- `RunStats.record_error`
  unfoldable pub record_error : RunStats → RunStats
  record_error stats = record stats { calls = stats.calls + 1; errors = stats.errors + 1 }

  -- The event "llm.call", after a failure or a success.
  pub data CallEvent : Type 0 where
    call_failed : String → String → Option String → Float → String → Assoc String → CallEvent
    call_done :
        String → String → Option String → ℕ → ℕ → ℕ → ℕ → Float → Float → Assoc String → CallEvent

  -- `LLMCallRecorder`, without its response; the times are those of `time.monotonic`
  pub record LlmCallRecorder : Type 0 where
    pub model : String
    pub role : String
    pub incident_id : Option String
    pub pricing : Assoc Rates
    pub extra : Assoc String
    pub start : Float

  abbrev latency_ms : Float → Float → Float
  latency_ms start end = round (times (minus end start) (of_int 1000)) 2

  -- The counts of the response, 0 where there is none.
  abbrev pub input_of : Option Usage → ℕ
  input_of none = 0
  input_of (some usage) = usage.input_tokens

  abbrev pub output_of : Option Usage → ℕ
  output_of none = 0
  output_of (some usage) = usage.output_tokens

  abbrev pub creation_of : Option Usage → ℕ
  creation_of none = 0
  creation_of (some usage) = get_or usage.cache_creation_input_tokens 0

  abbrev pub read_of : Option Usage → ℕ
  read_of none = 0
  read_of (some usage) = get_or usage.cache_read_input_tokens 0

  abbrev pub cost_of : LlmCallRecorder → Option Usage → Float
  cost_of r response =
      estimate_cost r.model (input_of response) (output_of response) (creation_of response)
        (read_of response) r.pricing

  abbrev update : (RunStats → RunStats) → Option RunStats → Option RunStats
  update f none = none
  update f (some stats) = some (f stats)

  -- `LLMCallRecorder.__aexit__`: the event, the statistics, and whether an exception is suppressed
  unfoldable pub aexit :
      LlmCallRecorder
      → Float
      → Option Usage
      → Option String
      → Option RunStats
      → CallEvent × Option RunStats × Bool
  aexit r end response (some exc) stats = (
    call_failed r.model r.role r.incident_id (latency_ms r.start end) exc r.extra,
    update record_error stats,
    false,
  )
  aexit r end response none stats = (
    call_done r.model r.role r.incident_id (input_of response) (output_of response)
        (creation_of response) (read_of response) (latency_ms r.start end) (cost_of r response)
        r.extra,
    update
        (record_success (input_of response) (output_of response) (creation_of response)
          (read_of response) (cost_of r response))
        stats,
    false,
  )

  -- `LLMCallRecorder.__init__` and `__aenter__`
  unfoldable pub new_recorder :
      Assoc Rates
      → String
      → String
      → Option String
      → Option (Assoc Rates)
      → Option (Assoc String)
      → Float
      → LlmCallRecorder
  new_recorder default_pricing model role incident_id pricing extra start = record {
    model = model;
    role = role;
    incident_id = incident_id;
    pricing = get_or pricing default_pricing;
    extra = get_or extra [];
    start = start;
  }

  -- How a `with` block ends for the code after it.
  pub data Outcome (A : Type 0) : Type 0 where
    returned : A → Outcome A
    reraised : String → Outcome A
    swallowed : Outcome A

  -- The block of one call: the recorder, the time of its end, the response that was set, and the
  -- result of its body.
  pub record Block (A : Type 0) : Type 0 where
    pub recorder : LlmCallRecorder
    pub end : Float
    pub response : Option Usage
    pub result : Result String A

  abbrev pub exception_of : {A : Type 0} → Result String A → Option String
  exception_of (ok a) = none
  exception_of (err e) = some e

  abbrev pub outcome_of : {A : Type 0} → Result String A → Bool → Outcome A
  outcome_of (ok a) suppressed = returned a
  outcome_of (err e) suppressed = if suppressed then swallowed else reraised e

  -- `record_llm_call` around a body: the outcome, the event and the statistics
  unfoldable pub record_llm_call :
      {A : Type 0} → Block A → Option RunStats → Outcome A × CallEvent × Option RunStats
  record_llm_call block stats =
      let (event, stats', suppressed) =
        aexit block.recorder block.end block.response (exception_of block.result) stats in
      (outcome_of block.result suppressed, event, stats')
