-- ===== src/Coordinator/History.antt =====
-- The coordinator adds to the timeline and to the actions, and rewrites nothing.
use alph_e.Common.{
  String, ◌≡◌, refl, sym, ◌∙◌, Bool, List, [], ◌∷◌, ◌++◌, append_assoc, append-nil, nonempty,
  Option-cases, Bool-cases, inl, inr, Result, ok, err, Supply, ◌>>=◌,
}
use alph_e.Schemas.{IncidentState, ActionIntent, Action, TimelineEvent}
use alph_e.Coordinator.{
  CoordinatorUpdate, ExecutorOps, Execution, escalate, finish, execute_loop, compensate_failed,
  after_execution, execute_intents, after_preflight, after_verification, coordinate, make_event,
  verify_loop, verification_failed, failed_action,
}
use alph_e.Coordinator.Preflight.{PreflightOutcome}

-- `new` is `old` with more at its end.
pub record Extends {ℓ} {A : Type ℓ} (old new : List A) : Type ℓ where
  pub added : List A
  pub split : new ≡ old ++ added

pub Extends-refl {ℓ} : {A : Type ℓ} (xs : List A) → Extends xs xs
Extends-refl xs = record { added = []; split = sym (append-nil xs) }

pub Extends-snoc {ℓ} : {A : Type ℓ} (xs : List A) (y : A) → Extends xs (xs ++ y ∷ [])
Extends-snoc xs y = record { added = y ∷ []; split = refl }

pub Extends-trans {ℓ} :
    {A : Type ℓ} {xs ys zs : List A} → Extends xs ys → Extends ys zs → Extends xs zs
Extends-trans {xs} e f = record {
  added = e.added ++ f.added;
  split = f.split ∙ rw e.split (append_assoc xs e.added f.added);
}

-- what is added one by one
pub Extends-append {ℓ} :
    {A : Type ℓ} {xs ys : List A} (y : A) → Extends xs ys → Extends xs (ys ++ y ∷ [])
Extends-append {ys} y e = Extends-trans e (Extends-snoc ys y)

Extends-snoc_trans {ℓ} :
    {A : Type ℓ} {xs : List A} (y : A) {zs : List A} → Extends (xs ++ y ∷ []) zs → Extends xs zs
Extends-snoc_trans {xs} y e = Extends-trans (Extends-snoc xs y) e

-- An update whose timeline and actions extend those given.
pub record Continues (old : List TimelineEvent) (done : List Action) (u : CoordinatorUpdate)
    : Type 0 where
  pub timeline : Extends old u.timeline
  pub actions : Extends done u.actions_taken

module _ {S : Type 0} (ops : ExecutorOps S) where
  execute_loop-Extends :
      (intents : List ActionIntent) (timeline : List TimelineEvent) (actions : List Action) (x : S)
      (s : Supply)
      → Extends timeline (execute_loop ops intents timeline actions x s).0.timeline
        × Extends actions (execute_loop ops intents timeline actions x s).0.actions
  unfolding execute_loop make_event failed_action
  execute_loop-Extends [] timeline actions x s = (Extends-refl _, Extends-refl _)
  execute_loop-Extends (i ∷ rest) timeline actions x s =
      go ((ops.execute i x s).0.0) refl (execute_loop-Extends rest)
    where
      go :
          (r : Result String Action)
          → (ops.execute i x s).0.0 ≡ r
          → ((tl : List TimelineEvent) (acts : List Action) (x' : S) (s' : Supply)
              → Extends tl (execute_loop ops rest tl acts x' s').0.timeline
                × Extends acts (execute_loop ops rest tl acts x' s').0.actions)
          → Extends timeline (execute_loop ops (i ∷ rest) timeline actions x s).0.timeline
            × Extends actions (execute_loop ops (i ∷ rest) timeline actions x s).0.actions
      go (ok a) e ih =
          rw (e, execute_loop, ◌>>=◌)
            (Extends-snoc_trans _ (ih _ _ _ _).0, Extends-snoc_trans _ (ih _ _ _ _).1)
      go (err exc) e ih = rw (e, execute_loop, ◌>>=◌) (Extends-snoc _ _, Extends-snoc _ _)

  escalate-Continues :
      (state : IncidentState) {old timeline : List TimelineEvent} {done actions : List Action}
      (reasons extra : List String) (s : Supply)
      → Extends old timeline
      → Extends done actions
      → Continues old done (escalate state timeline actions reasons extra s).0
  unfolding escalate make_event
  escalate-Continues state reasons extra s t a = record {
    timeline = Extends-append _ t;
    actions = a;
  }

  compensate_failed-Continues :
      (state : IncidentState) {old : List TimelineEvent} {done : List Action} (run : Execution S)
      (intent : ActionIntent) (s : Supply)
      → Extends old run.timeline
      → Extends done run.actions
      → Continues old done (compensate_failed ops state run intent s).0
  unfolding compensate_failed make_event
  compensate_failed-Continues state {old} {done} run intent s t a =
      go ((ops.compensate intent run.state s).0.0) refl
    where
      go :
          (r : Result String Action)
          → (ops.compensate intent run.state s).0.0 ≡ r
          → Continues old done (compensate_failed ops state run intent s).0
      go (ok b) e =
          rw (e, compensate_failed, ◌>>=◌)
            (escalate-Continues state _ _ _ (Extends-append _ t) (Extends-append b a))
      go (err exc) e =
          rw (e, compensate_failed, ◌>>=◌) (escalate-Continues state _ _ _ (Extends-append _ t) a)

  after_execution-Continues :
      (state : IncidentState) {old : List TimelineEvent} {done : List Action} (run : Execution S)
      (s : Supply)
      → Extends old run.timeline
      → Extends done run.actions
      → Continues old done (after_execution ops state run s).0
  unfolding after_execution finish make_event
  after_execution-Continues state run s t a = elim (Option-cases run.failed) [
    | inr (i, e) ↦ rw (e, after_execution) (compensate_failed-Continues state run i s t a)
    | inl e ↦ elim (Bool-cases (nonempty run.reasons)) [
      | inl some_reason ↦ rw (e, some_reason, after_execution) (escalate-Continues state _ _ s t a)
      | inr no_reason ↦
          rw (e, no_reason, after_execution) (record { timeline = Extends-append _ t; actions = a })
    ]
  ]

  execute_intents-Continues :
      (state : IncidentState) {old : List TimelineEvent} (timeline : List TimelineEvent)
      (intents : List ActionIntent) (s : Supply)
      → Extends old timeline
      → Continues old state.actions_taken (execute_intents ops state timeline intents s).0
  unfolding execute_intents
  execute_intents-Continues state timeline [] s t =
      escalate-Continues state _ _ s t (Extends-refl _)
  execute_intents-Continues state timeline (i ∷ rest) s t =
      let (tl, acts) = execute_loop-Extends (i ∷ rest) timeline state.actions_taken ops.initial s in
      after_execution-Continues state _ _ (Extends-trans t tl) acts

  after_preflight-Continues :
      (state : IncidentState) {old : List TimelineEvent} (timeline : List TimelineEvent)
      (intents : List ActionIntent) (o : PreflightOutcome) (s : Supply)
      → Extends old timeline
      → Continues old state.actions_taken (after_preflight ops state timeline intents o s).0
  unfolding after_preflight finish make_event
  after_preflight-Continues state timeline intents PreflightOutcome.ok s t =
      execute_intents-Continues state timeline intents s t
  after_preflight-Continues state timeline intents PreflightOutcome.diagnosis_invalidated s t =
      record { timeline = t; actions = Extends-refl _ }
  after_preflight-Continues state timeline intents PreflightOutcome.already_resolved s t = record {
    timeline = Extends-append _ t;
    actions = Extends-snoc _ _;
  }
  after_preflight-Continues state timeline intents PreflightOutcome.parameter_drift s t =
      elim (Bool-cases (nonempty state.action_intents)) [
        | inl e ↦ rw (e, after_preflight) (record { timeline = t; actions = Extends-refl _ })
        | inr e ↦ rw (e, after_preflight) (escalate-Continues state _ _ s t (Extends-refl _))
      ]

  -- Whatever the verifier and the executor answer, the new timeline begins with the old one and
  -- the new list of actions begins with the old one.
  pub coordinate-Continues :
      (verify : ActionIntent → Result String Bool) (state : IncidentState) (s : Supply)
      → Continues state.timeline state.actions_taken (coordinate ops verify state s).0
  unfolding coordinate after_verification verification_failed make_event failed_action
  coordinate-Continues verify state s = go (verify_loop verify [] state.action_intents) refl
    where
      go :
          (r : Result (ActionIntent × String) (List ActionIntent))
          → verify_loop verify [] state.action_intents ≡ r
          → Continues state.timeline state.actions_taken (coordinate ops verify state s).0
      go (ok verified) e =
          rw (e, coordinate)
            (after_preflight-Continues state _ verified _ _ (Extends-append _ (Extends-snoc _ _)))
      go (err (i, exc)) e =
          rw (e, coordinate)
            (escalate-Continues state _ _ _ (Extends-append _ (Extends-snoc _ _))
              (Extends-snoc _ _))
