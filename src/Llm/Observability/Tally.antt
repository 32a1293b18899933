-- ===== src/Llm/Observability/Tally.antt =====
-- What the recorder of agent/src/agent/llm/observability.py makes of the calls of a run.
use alph_e.Common.{
  ℕ, ◌+◌, String, ◌≡◌, refl, ap, Option, some, Bool, true, false, List, [], ◌∷◌, map, filter,
  length, Result, ok, err, arith,
}
use alph_e.Llm.Observability.{
  Floats, Usage, RunStats, Outcome, Block, returned, reraised, record_success, record_error, aexit,
  record_llm_call, input_of, output_of, creation_of, read_of,
}

module _ (floats : Floats) {A : Type 0} where
  abbrev pub has_failed : Block floats A → Bool
  has_failed call = elim call.result [ ok a ↦ false | err e ↦ true ]

  -- What the code after the block sees: what the body returned or raised.
  abbrev pub body_outcome : Block floats A → Outcome floats A
  body_outcome call = elim call.result [ ok a ↦ returned a | err e ↦ reraised e ]

  -- The calls of a run, one after the other.
  unfoldable pub run_calls :
      List (Block floats A)
      → Option (RunStats floats)
      → List (Outcome floats A) × Option (RunStats floats)
  run_calls [] stats = ([], stats)
  run_calls (call ∷ calls) stats =
      let (outcome, _, stats') = record_llm_call floats call stats in
      let (outcomes, last) = run_calls calls stats' in (outcome ∷ outcomes, last)

  abbrev pub count_failed : List (Block floats A) → ℕ
  count_failed calls = length (filter has_failed calls)

  -- The sum of a count over the calls that did not fail.
  abbrev pub total : (Option Usage → ℕ) → List (Block floats A) → ℕ
  total count [] = 0
  total count (call ∷ calls) =
      elim call.result [ ok a ↦ count call.response | err e ↦ 0 ] + total count calls

  pub record IsTally (calls : List (Block floats A)) (before after : RunStats floats) : Type 0 where
    pub counted : after.calls ≡ before.calls + length calls
    pub failed : after.errors ≡ before.errors + count_failed calls
    pub read : after.input_tokens ≡ before.input_tokens + total (input_of floats) calls
    pub written : after.output_tokens ≡ before.output_tokens + total (output_of floats) calls
    pub cached :
        after.cache_creation_tokens
        ≡ before.cache_creation_tokens + total (creation_of floats) calls
    pub from_cache :
        after.cache_read_tokens ≡ before.cache_read_tokens + total (read_of floats) calls

  -- The result of a run: statistics that tally, and outcomes that no call has changed.
  abbrev pub Tallied :
      List (Block floats A)
      → RunStats floats
      → List (Outcome floats A) × Option (RunStats floats)
      → Type 0
  Tallied calls before (outcomes, stats) =
      (after : RunStats floats) × (stats ≡ some after)
      × IsTally calls before after
      × (outcomes ≡ map body_outcome calls)

  tally-more :
      (call : Block floats A) (r : Result String A) (calls : List (Block floats A))
      (before : RunStats floats)
      → ((stats : RunStats floats) → Tallied calls stats (run_calls calls (some stats)))
      → Tallied
          (record call { result = r } ∷ calls)
          before
          (run_calls (record call { result = r } ∷ calls) (some before))
  unfolding run_calls record_llm_call aexit record_success record_error
  tally-more call (ok a) calls before rest =
      let (after, e, tally, same) = rest _ in
      (
        after,
        e,
        record {
          counted = omega (arith, tally.counted);
          failed = omega (arith, tally.failed);
          read = omega (arith, tally.read);
          written = omega (arith, tally.written);
          cached = omega (arith, tally.cached);
          from_cache = omega (arith, tally.from_cache);
        },
        ap (λ outcomes. returned a ∷ outcomes) same,
      )
  tally-more call (err x) calls before rest =
      let (after, e, tally, same) = rest _ in
      (
        after,
        e,
        record {
          counted = omega (arith, tally.counted);
          failed = omega (arith, tally.failed);
          read = omega (arith, tally.read);
          written = omega (arith, tally.written);
          cached = omega (arith, tally.cached);
          from_cache = omega (arith, tally.from_cache);
        },
        ap (λ outcomes. reraised x ∷ outcomes) same,
      )

  -- Over the calls of a run the recorder counts every call, and as errors those whose body raised; the
  -- token counts are the sums over the others; and each block ends as its body did, so that no
  -- exception is suppressed.
  pub run_calls-Tallied :
      (calls : List (Block floats A)) (before : RunStats floats)
      → Tallied calls before (run_calls calls (some before))
  unfolding run_calls
  run_calls-Tallied [] before = (
    before,
    refl,
    record {
      counted = omega arith;
      failed = omega arith;
      read = omega arith;
      written = omega arith;
      cached = omega arith;
      from_cache = omega arith;
    },
    refl,
  )
  run_calls-Tallied (call ∷ calls) before =
      tally-more call call.result calls before (λ stats. run_calls-Tallied calls stats)
