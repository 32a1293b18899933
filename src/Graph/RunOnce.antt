-- ===== src/Graph/RunOnce.antt =====
-- agent/src/agent/orchestrator/run.py. The checkpoints are a map from thread ids to channel values; the
-- stream of the compiled graph, which writes them, and the validation of the values are arguments.
use alph_e.Common.{
  sym, ◌<>◌, String, ◌≡◌, refl, ap, ◌∙◌, none, some, Result, ok, err, Assoc, lookup, repr, arith,
  Option-cases, inl, inr,
}
use alph_e.Schemas.{IncidentState}

-- What `run_once` raises.
pub data RunError : Type 0 where
  stream_raised invalid_state runtime_error : String → RunError

-- The graph with its checkpointer.
pub record Compiled : Type 1 where
  pub Values : Type 0
  pub model_validate : Values → Result String IncidentState
  pub astream : IncidentState → Assoc Values → Result String Unit × Assoc Values

module _ (graph : Compiled) where
  open graph use {Values, model_validate, astream}

  -- `_coerce`
  unfoldable pub coerce : Values → Result RunError IncidentState
  coerce values = elim (model_validate values) [
    | ok state ↦ ok state
    | err e ↦ err (invalid_state e)
  ]

  -- the state that is read back after the stream
  unfoldable pub read_back : String → Assoc Values → Result RunError IncidentState
  read_back incident_id store = elim (lookup incident_id store) [
    | some values ↦ coerce values
    | none ↦ err (
        runtime_error (
          "Checkpointer returned no state after graph run for incident_id="
          <> repr incident_id
          <> ". This is unexpected — the graph may have raised."))
  ]

  -- the part from the stream on
  unfoldable pub after_stream :
      String → Result String Unit × Assoc Values → Result RunError IncidentState × Assoc Values
  after_stream incident_id (err e, store) = (err (stream_raised e), store)
  after_stream incident_id (ok done, store) = (read_back incident_id store, store)

  -- `run_once`
  unfoldable pub run_once :
      IncidentState → Assoc Values → Result RunError IncidentState × Assoc Values
  run_once state store = elim (lookup state.incident_id store) [
    | some values ↦ (coerce values, store)
    | none ↦ after_stream state.incident_id (astream state store)
  ]

  -- The checkpoint of the incident gives the state.
  Checkpointed : String → IncidentState → Assoc Values → Type 0
  Checkpointed incident_id t store =
      (values : Values) × (lookup incident_id store ≡ some values) × (coerce values ≡ ok t)

  read_back_returned :
      (incident_id : String) (t : IncidentState) (store : Assoc Values)
      → read_back incident_id store ≡ ok t
      → Checkpointed incident_id t store
  unfolding read_back Checkpointed
  read_back_returned incident_id t store e = elim (Option-cases (lookup incident_id store)) [
    | inl missing ↦ let raised = rw (missing, read_back) at e in absurd (ground (arith, raised))
    | inr (values, found) ↦ (values, found, rw (found, read_back) at e)
  ]

  after_stream_returned :
      (incident_id : String) (t : IncidentState) (p : Result String Unit × Assoc Values)
      → (after_stream incident_id p).0 ≡ ok t
      → Checkpointed incident_id t (after_stream incident_id p).1
  unfolding after_stream
  after_stream_returned incident_id t (err x, store) e = absurd (ground (arith, e))
  after_stream_returned incident_id t (ok done, store) e = read_back_returned incident_id t store e

  run_once_returned :
      (state t : IncidentState) (store : Assoc Values)
      → (run_once state store).0 ≡ ok t
      → Checkpointed state.incident_id t (run_once state store).1
  unfolding run_once Checkpointed
  run_once_returned state t store e = elim (Option-cases (lookup state.incident_id store)) [
    | inl missing ↦
        rw (missing, run_once)
          (after_stream_returned state.incident_id t (astream state store)
            (rw (missing, run_once) at e))
    | inr (values, found) ↦ rw (found, run_once) (values, found, rw (found, run_once) at e)
  ]

  -- Where there is a checkpoint of the incident, the graph does not run.
  run_once_of_checkpoint :
      (state : IncidentState) (values : Values) (store : Assoc Values)
      → lookup state.incident_id store ≡ some values
      → run_once state store ≡ (coerce values, store)
  unfolding run_once
  run_once_of_checkpoint state values store found = rw (found, run_once) refl

  -- The second result repeats the first one, where that is a state.
  abbrev pub Repeats : Result RunError IncidentState → Result RunError IncidentState → Type 0
  Repeats (ok t) second = second ≡ ok t
  Repeats (err e) second = Unit

  checkpoint-Repeats :
      (state : IncidentState) (store : Assoc Values) (values : Values)
      → lookup state.incident_id (run_once state store).1 ≡ some values
      → (first : Result RunError IncidentState) → (run_once state store).0 ≡ first
      → Repeats first (coerce values)
  unfolding Checkpointed
  checkpoint-Repeats state store values kept (err x) e = tt
  checkpoint-Repeats state store values kept (ok t) e =
      let (other, found, valid) = run_once_returned state t store e in
      let same : other ≡ values = ground (arith, found, kept) in ap coerce (sym same) ∙ valid

  -- After a call that has left a checkpoint of its incident, whether it returned or raised, the next call
  -- for the incident runs no node: it gives the state of the checkpoint, which is the first call's state
  -- if that one returned, and it leaves the checkpoints alone.
  pub run_once_again :
      (state again : IncidentState) (store : Assoc Values) (values : Values)
      → again.incident_id ≡ state.incident_id
      → lookup state.incident_id (run_once state store).1 ≡ some values
      → (run_once again (run_once state store).1 ≡ (coerce values, (run_once state store).1))
        × Repeats (run_once state store).0 (coerce values)
  run_once_again state again store values same kept =
      let last = (run_once state store).1 in
      (
        run_once_of_checkpoint again values last (ap (λ id. lookup id last) same ∙ kept),
        checkpoint-Repeats state store values kept _ refl,
      )
