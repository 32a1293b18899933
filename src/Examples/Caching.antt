-- ===== src/Examples/Caching.antt =====
-- The theorems on what is kept between calls, at concrete inputs: the cache of the collectors and the
-- checkpoints of the graph.
use alph_e.Common.{
  nonempty, ℕ, String, ◌≡◌, refl, none, some, [], ok, err, nat_eq, ltb, ◌+◌, ◌*◌, ◌==◌, lookup,
  insert, if◌then◌else◌,
}
use alph_e.Schemas.{IncidentState, EnvironmentFingerprint}
use alph_e.Collectors.Dispatch.{cache_get, cache_put}
use alph_e.Collectors.Hits.{key_at, cache_get-cache_put}
use alph_e.Graph.{node_intake}
use alph_e.Coordinator.Phases.{phase_table}
use alph_e.Graph.Kept.{IsLater}
use alph_e.Graph.Driven.{drive, drive_completes}
use alph_e.Graph.RunOnce.{Compiled, run_once, run_once_again, after_stream, coerce, Repeats}
use alph_e.Samples.{finding}
use alph_e.Examples.Runs.{world, keys, start}
use alph_e.Examples.Incoming.{replies}

abbrev lab : EnvironmentFingerprint
lab = record {
  cluster = "k3d";
  account = "local";
  region = "local";
  deploy_revision = "1";
  rollout_generation = "0";
}

-- two times
abbrev iso : ℕ → String
iso at = if nat_eq at 7 then "T7" else "T8"

cache_get-cache_put_example :
    cache_get
      (key_at (λ text. text) iso "inc-1" "kube" "why" [] lab 0 8)
      1
      (cache_put (key_at (λ text. text) iso "inc-1" "kube" "why" [] lab 0 7) 0 finding [])
    ≡ (if iso 7 == iso 8
        then if ltb 1 (0 + 5 * 60000000) then some finding else none
        else cache_get (key_at (λ text. text) iso "inc-1" "kube" "why" [] lab 0 8) 1 [])
cache_get-cache_put_example =
    cache_get-cache_put (λ text. text) iso "inc-1" "kube" "why" [] lab 0 7 8 0 1 finding []
      (refl, (refl, tt)) (refl, (refl, tt)) (λ e. e)

-- the run of the sample incident to its end
whole_run :
    (t : IncidentState) × (drive world replies 11 (some node_intake) start ≡ some t)
    × (t.phase ≡ phase_table t.hypotheses (nonempty t.action_intents))
    × IsLater start t
whole_run = drive_completes world replies keys start tt

-- The graph of the sample run, which is interrupted after a checkpoint is written.
abbrev compiled : Compiled
compiled = record {
  Values = IncidentState;
  model_validate = λ values. ok values;
  astream = λ state store. elim (drive world replies 11 (some node_intake) state) [
    | none ↦ (err "raised", store)
    | some t ↦ (err "connection lost", insert state.incident_id t store)
  ];
}

checkpoint_left : lookup start.incident_id (run_once compiled start []).1 ≡ some whole_run.0
unfolding run_once after_stream lookup insert
checkpoint_left = rw (whole_run.1, compiled) refl

run_once_again_example :
    (run_once compiled start (run_once compiled start []).1
      ≡ (coerce compiled whole_run.0, (run_once compiled start []).1))
    × Repeats compiled (run_once compiled start []).0 (coerce compiled whole_run.0)
run_once_again_example = run_once_again compiled start start [] whole_run.0 refl checkpoint_left
