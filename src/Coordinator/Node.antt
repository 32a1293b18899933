-- ===== src/Coordinator/Node.antt =====
-- `coordinator_node`: the verifier comes from PLANNER_VERIFY_KEY, the executor from Ops.
use alph_e.Common.{
  String, ◌≡◌, refl, Option, none, Bool, true, false, List, [], ◌∷◌, ◌++◌, all, nonempty, Io, pure,
  Result, ok, err, All, Supply, arith, if◌then◌else◌, ◌>>=◌, ◌>>◌,
}
use alph_e.Schemas.{IncidentState, IncidentPhase, ActionIntent}
use alph_e.Security.{Crypto, KeyError, new_verifier, verify}
use alph_e.Coordinator.{CoordinatorUpdate, coordinate, make_event, verify_loop}
use alph_e.Coordinator.Ops.{idempotent_ops}
use alph_e.Coordinator.Phases.{IsTotal, phase_table, coordinate-phase}
use alph_e.Coordinator.FailClosed.{coordinate-IsRefusal}
use alph_e.Coordinator.Verification.{IsOk, FirstFailure, LoopResult, verify_loop_lem}

module _ (crypto : Crypto) (verify_key kubeconfig : Option String) where
  -- The two variables of the environment are the arguments.
  unfoldable pub coordinator_node : IncidentState → Io (Result KeyError CoordinatorUpdate)
  coordinator_node state = elim (new_verifier crypto verify_key) [
    | err e ↦ do make_event "coordinator.started" none; pure (err e)
    | ok key ↦ do u ← coordinate (idempotent_ops kubeconfig) (verify crypto key) state; pure (ok u)
  ]

idempotent_ops-IsTotal : (kubeconfig : Option String) → IsTotal (idempotent_ops kubeconfig)
unfolding idempotent_ops
idempotent_ops-IsTotal kubeconfig = record { returns = λ i x s. (_, refl) }

abbrev pub passes : Result String Bool → Bool
passes (ok _) = true
passes (err _) = false

passes_of_IsOk : (r : Result String Bool) → IsOk r → passes r ≡ true
passes_of_IsOk (ok b) h = refl
passes_of_IsOk (err e) h = absurd h

module _ (verify : ActionIntent → Result String Bool) where
  pub all_pass :
      (is : List ActionIntent)
      → All (λ i. IsOk (verify i)) is
      → all (λ i. passes (verify i)) is ≡ true
  all_pass [] h = refl
  all_pass (i ∷ is) h = ground (arith, passes_of_IsOk (verify i) h.0, all_pass is h.1)

  one_fails :
      (before : List ActionIntent) (i : ActionIntent) (after : List ActionIntent) (exc : String)
      → verify i ≡ err exc
      → all (λ i. passes (verify i)) (before ++ i ∷ after) ≡ false
  one_fails [] i after exc e = rw e refl
  one_fails (j ∷ before) i after exc e = ground (arith, one_fails before i after exc e)

  not_all_pass :
      {intents : List ActionIntent} {i : ActionIntent} {exc : String}
      → FirstFailure verify intents i exc
      → all (λ i. passes (verify i)) intents ≡ false
  not_all_pass {i} {exc} f = rw f.split (one_fails f.before i f.after exc f.failed)

-- The phase of the outcome: by the verification of all the intents, then by the table.
abbrev pub outcome_phase : Bool → IncidentState → IncidentPhase
outcome_phase verified state =
    if verified
    then phase_table state.hypotheses (nonempty state.action_intents)
    else IncidentPhase.escalated

module _ (crypto : Crypto) (verify_key kubeconfig : Option String) where
  -- With a verify key that can be loaded, the coordinator always returns, and the phase in which it
  -- leaves the incident is: escalated if an intent does not verify, else what the table over the
  -- hypotheses and the intents says.
  pub coordinator_node-phase :
      (state : IncidentState) (s : Supply) (key : crypto.PublicKey)
      → new_verifier crypto verify_key ≡ ok key
      → (u : CoordinatorUpdate) × ((coordinator_node crypto verify_key kubeconfig state s).0 ≡ ok u)
        × (u.phase
            ≡ outcome_phase (all (λ i. passes (verify crypto key i)) state.action_intents) state)
  unfolding coordinator_node
  coordinator_node-phase state s key loaded =
      rw (loaded, coordinator_node)
        (
          _,
          refl,
          go (verify_loop (verify crypto key) [] state.action_intents)
              (verify_loop_lem (verify crypto key) state.action_intents),
        )
    where
      go :
          (r : Result (ActionIntent × String) (List ActionIntent))
          → LoopResult (verify crypto key) state.action_intents r
          → (coordinate (idempotent_ops kubeconfig) (verify crypto key) state s).0.phase
            ≡ outcome_phase (all (λ i. passes (verify crypto key i)) state.action_intents) state
      go (ok verified) (e, passed) = rw (all_pass (verify crypto key) state.action_intents passed) (
          coordinate-phase (idempotent_ops kubeconfig) (idempotent_ops-IsTotal kubeconfig)
            (verify crypto key) state s passed)
      go (err (i, exc)) f =
          rw (not_all_pass (verify crypto key) f)
            (coordinate-IsRefusal (idempotent_ops kubeconfig) (verify crypto key) state i exc s
              f).phase
