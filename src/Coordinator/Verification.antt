-- ===== src/Coordinator/Verification.antt =====
-- Step 1 of the coordinator: which intents pass, and what a failure does.
use alph_e.Common.{
  String, ◌≡◌, refl, Bool, List, [], ◌∷◌, ◌++◌, append_assoc, append-nil, All, All-append, Result,
  ok, err,
}
use alph_e.Schemas.{ActionIntent}
use alph_e.Coordinator.{verify_loop}

-- A call that returned.
abbrev pub IsOk : Result String Bool → Type 0
IsOk (ok _) = Unit
IsOk (err _) = ⊥

-- `intent` is the first that fails: those before it pass.
pub record FirstFailure (verify : ActionIntent → Result String Bool) (intents : List ActionIntent)
    (intent : ActionIntent) (exc : String) : Type 0 where
  pub before : List ActionIntent
  pub after : List ActionIntent
  pub split : intents ≡ before ++ intent ∷ after
  pub passed : All (λ i. IsOk (verify i)) before
  pub failed : verify intent ≡ err exc

-- What the loop gives back, from all that it was given.
abbrev pub LoopResult :
    (ActionIntent → Result String Bool)
    → List ActionIntent
    → Result (ActionIntent × String) (List ActionIntent)
    → Type 0
LoopResult verify intents (ok verified) = (verified ≡ intents) × All (λ i. IsOk (verify i)) intents
LoopResult verify intents (err (i, exc)) = FirstFailure verify intents i exc

module _ (verify : ActionIntent → Result String Bool) where
  loop_result :
      (verified intents : List ActionIntent)
      → All (λ i. IsOk (verify i)) verified
      → LoopResult verify (verified ++ intents) (verify_loop verify verified intents)
  unfolding verify_loop
  loop_result verified [] h = rw append-nil (refl, h)
  loop_result verified (i ∷ rest) h =
      let ih = loop_result (verified ++ i ∷ []) rest in go (verify i) refl ih
    where
      go :
          (r : Result String Bool)
          → verify i ≡ r
          → (All (λ i. IsOk (verify i)) (verified ++ i ∷ [])
              → LoopResult verify
                  ((verified ++ i ∷ []) ++ rest)
                  (verify_loop verify (verified ++ i ∷ []) rest))
          → LoopResult verify (verified ++ i ∷ rest) (verify_loop verify verified (i ∷ rest))
      go (ok b) e ih =
          rw (e, verify_loop)
            (rw append_assoc at (ih (All-append _ verified (i ∷ []) h (rw e (tt, tt)))))
      go (err exc) e ih =
          rw (e, verify_loop)
            (record { before = verified; after = rest; split = refl; passed = h; failed = e })

  -- The loop accepts all the intents, and then each of them passes, or it names the first failure.
  pub verify_loop_lem :
      (intents : List ActionIntent) → LoopResult verify intents (verify_loop verify [] intents)
  verify_loop_lem intents = loop_result [] intents tt

  pub verify_loop_of_All :
      (verified intents : List ActionIntent)
      → All (λ i. IsOk (verify i)) intents
      → verify_loop verify verified intents ≡ ok (verified ++ intents)
  unfolding verify_loop
  verify_loop_of_All verified [] h = rw append-nil refl
  verify_loop_of_All verified (i ∷ rest) h =
      go (verify i) refl h.0 (verify_loop_of_All (verified ++ i ∷ []) rest h.1)
    where
      go :
          (r : Result String Bool)
          → verify i ≡ r
          → IsOk (verify i)
          → verify_loop verify (verified ++ i ∷ []) rest ≡ ok ((verified ++ i ∷ []) ++ rest)
          → verify_loop verify verified (i ∷ rest) ≡ ok (verified ++ i ∷ rest)
      go (ok b) e p ih = rw (e, verify_loop) (rw append_assoc at ih)
      go (err exc) e p ih = elim (rw e at p) [ ]

  loop_of_before :
      (verified before after : List ActionIntent) (i : ActionIntent) (exc : String)
      → All (λ i. IsOk (verify i)) before
      → verify i ≡ err exc
      → verify_loop verify verified (before ++ i ∷ after) ≡ err (i, exc)
  unfolding verify_loop
  loop_of_before verified [] after i exc h e = rw (e, verify_loop) refl
  loop_of_before verified (j ∷ before) after i exc h e =
      go (verify j) refl h.0 (loop_of_before (verified ++ j ∷ []) before after i exc h.1 e)
    where
      go :
          (r : Result String Bool)
          → verify j ≡ r
          → IsOk (verify j)
          → verify_loop verify (verified ++ j ∷ []) (before ++ i ∷ after) ≡ err (i, exc)
          → verify_loop verify verified (j ∷ (before ++ i ∷ after)) ≡ err (i, exc)
      go (ok b) e' p ih = rw (e', verify_loop) ih
      go (err x) e' p ih = elim (rw e' at p) [ ]

  pub verify_loop_of_FirstFailure :
      {intents : List ActionIntent} {i : ActionIntent} {exc : String}
      → FirstFailure verify intents i exc
      → verify_loop verify [] intents ≡ err (i, exc)
  verify_loop_of_FirstFailure {i} {exc} f =
      rw f.split (loop_of_before [] f.before f.after i exc f.passed f.failed)
