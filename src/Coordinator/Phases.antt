-- ===== src/Coordinator/Phases.antt =====
-- The phase in which the coordinator leaves an incident.
use alph_e.Common.{
  String, ◌≡◌, refl, sym, ◌∙◌, none, Bool, true, not, List, [], ◌∷◌, nonempty, any, all, All,
  Result, ok, Supply, arith, if◌then◌else◌, ◌>>=◌,
}
use alph_e.Schemas.{
  IncidentState, IncidentPhase, ActionIntent, Action, TimelineEvent, Hypothesis, is_confirmed,
  is_negative,
}
use alph_e.Coordinator.{
  ExecutorOps, escalate, finish, execute_loop, after_execution, execute_intents, after_preflight,
  after_verification, coordinate, make_event,
}
use alph_e.Coordinator.Preflight.{PreflightOutcome, preflight_table}
use alph_e.Coordinator.Preflight.Table.{check_preflight-eq-table}
use alph_e.Coordinator.Verification.{IsOk, verify_loop_of_All}

-- An executor that never raises from `execute`.
pub record IsTotal {S : Type 0} (ops : ExecutorOps S) : Type 0 where
  pub returns :
      (i : ActionIntent) (x : S) (s : Supply) → (a : Action) × ((ops.execute i x s).0.0 ≡ ok a)

-- The phase for verified intents, by the hypotheses and by whether there is an intent.
abbrev pub phase_table : List Hypothesis → Bool → IncidentPhase
phase_table hypotheses has_intents =
    if not (nonempty hypotheses)
    then IncidentPhase.resolved
    else if not has_intents
    then IncidentPhase.escalated
    else if any is_confirmed hypotheses
    then IncidentPhase.resolved
    else if all is_negative hypotheses
    then IncidentPhase.investigating
    else IncidentPhase.planning

module _ {S : Type 0} (ops : ExecutorOps S) (total : IsTotal ops) where
  -- The loop of a total executor ends without a failure.
  execute_loop_total :
      (intents : List ActionIntent) (timeline : List TimelineEvent) (actions : List Action) (x : S)
      (s : Supply)
      → ((execute_loop ops intents timeline actions x s).0.failed ≡ none)
        × ((execute_loop ops intents timeline actions x s).0.reasons ≡ [])
  unfolding execute_loop
  execute_loop_total [] timeline actions x s = (refl, refl)
  execute_loop_total (i ∷ rest) timeline actions x s =
      let (a, e) = total.returns i x s in
      rw (e, execute_loop, ◌>>=◌) (execute_loop_total rest _ _ _ _)

  execute_intents-phase :
      (state : IncidentState) (timeline : List TimelineEvent) (intents : List ActionIntent)
      (s : Supply)
      → nonempty intents ≡ true
      → (execute_intents ops state timeline intents s).0.phase ≡ IncidentPhase.resolved
  unfolding execute_intents after_execution finish make_event
  execute_intents-phase state timeline intents s some_intent =
      let (ended, unfailed) =
        execute_loop_total intents timeline state.actions_taken ops.initial s in
      rw (some_intent, execute_intents) (rw (ended, after_execution) (rw unfailed refl))

  after_preflight-phase :
      (state : IncidentState) (timeline : List TimelineEvent) (s : Supply) (o : PreflightOutcome)
      → preflight_table state.hypotheses (nonempty state.action_intents) ≡ o
      → (after_preflight ops state timeline state.action_intents o s).0.phase
        ≡ phase_table state.hypotheses (nonempty state.action_intents)
  unfolding after_preflight finish escalate make_event
  after_preflight-phase state timeline s PreflightOutcome.ok e =
      execute_intents-phase state timeline state.action_intents s (ground arith) ∙ ground arith
  after_preflight-phase state timeline s _ e = ground arith

  -- If every intent passes its verification and the executor never raises, the phase in which the
  -- coordinator leaves the incident is given by the table over its hypotheses: resolved without a
  -- hypothesis, escalated without an intent, resolved with a confirmed hypothesis, investigating
  -- if all are refuted or abandoned, and planning otherwise.
  pub coordinate-phase :
      (verify : ActionIntent → Result String Bool) (state : IncidentState) (s : Supply)
      → All (λ i. IsOk (verify i)) state.action_intents
      → (coordinate ops verify state s).0.phase
        ≡ phase_table state.hypotheses (nonempty state.action_intents)
  unfolding coordinate after_verification make_event
  coordinate-phase verify state s passed =
      rw (verify_loop_of_All verify [] state.action_intents passed, coordinate)
        (after_preflight-phase state _ _ _
          (sym (check_preflight-eq-table state state.action_intents)))
