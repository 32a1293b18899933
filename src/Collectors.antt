-- ===== src/Collectors.antt =====
-- agent/src/agent/orchestrator/nodes/collectors.py; the registry, the HTTP dispatch and the cache
-- stand in Dispatch, the key of the cache in CacheKey; Outcome and Hits say what they do. `None` for the
-- cache is a cache that is not configured.
pub mod Dispatch
pub mod Outcome
pub mod CacheKey
pub mod Hits
pub mod Accepted
use alph_e.Common.{
  ◌<>◌, ℕ, ◌+◌, ◌-◌, ◌*◌, String, Option, none, some, Bool, List, [], ◌∷◌, ◌++◌, map, contains,
  next_where, Io, pure, now, ◌>>=◌, Result, get_or, sorted_set, ◌==◌, if◌then◌else◌,
}
use alph_e.Schemas.{
  IncidentState, Hypothesis, TimelineEvent, TimeRange, EnvironmentFingerprint, CollectorInput,
  CollectorOutput, Finding,
}
use alph_e.Collectors.CacheKey.{make_cache_key}
use alph_e.Collectors.Dispatch.{
  Cache, HttpReply, DispatchResult, output, failure, dispatch, select_collector, cache_get,
  cache_put,
}

-- What the node writes; `none` is a field that it leaves alone.
pub record CollectorsUpdate : Type 0 where
  pub findings : Option (List Finding)
  pub services_touched : Option (List String)
  pub timeline : List TimelineEvent
  pub updated_at : ℕ

-- `_build_time_range`; ten minutes before the alert
unfoldable pub build_time_range : IncidentState → Io TimeRange
build_time_range state = do
  end ← now
  pure (record { start = state.alert.fired_at - 10 * 60000000; end = end })

-- `_build_env_fingerprint`, over `os.environ.get`
unfoldable pub build_env_fingerprint : (String → Option String) → EnvironmentFingerprint
build_env_fingerprint env = record {
  cluster = get_or (env "ENV_CLUSTER") "k3d-devops-lab";
  account = get_or (env "ENV_ACCOUNT") "local";
  region = get_or (env "ENV_REGION") "local";
  deploy_revision = get_or (env "ENV_DEPLOY_REVISION") "unknown";
  rollout_generation = get_or (env "ENV_ROLLOUT_GENERATION") "0";
}

-- `_scope_services`
unfoldable pub scope_services : IncidentState → List String
scope_services state = sorted_set (state.alert.service ∷ state.services_touched)

-- `_merge_services_touched`
unfoldable pub merge_services_touched : List String → List String → List String
merge_services_touched existing new_services = sorted_set (existing ++ new_services)

-- the merge of a finding: by its id
unfoldable pub merge_finding : List Finding → Finding → List Finding
merge_finding findings f =
    if contains f.id (map (λ g. g.id) findings) then findings else findings ++ f ∷ []

abbrev collectors_event : ℕ → String → String → Option String → TimelineEvent
collectors_event at actor event_type ref_id = record {
  ts = at;
  actor = actor;
  event_type = event_type;
  ref_id = ref_id;
}

-- The services of one call: the environment, the endpoint and the table of the cache. `cache_read`
-- and `cache_written` tell whether the two queries succeed, `database_now` is the database's clock.
pub record Services : Type 0 where
  pub env : String → Option String
  pub parse : String → Result String CollectorOutput
  pub sha256 : String → String
  pub isoformat : ℕ → String
  pub reply : HttpReply
  pub cache_read : Bool
  pub cache_written : Bool
  pub database_now : ℕ

-- The lookup; what the query raises is dropped.
unfoldable pub cached : Services → String → Option Cache → Option Finding
cached services key none = none
cached services key (some rows) =
    if services.cache_read then cache_get key services.database_now rows else none

-- The write after a success; what the query raises is dropped.
unfoldable pub remember : Services → String → Finding → Option Cache → Io (Option Cache)
remember services key f none = pure none
remember services key f (some rows) = do
  at ← now
  pure (some (if services.cache_written then cache_put key at f rows else rows))

-- The finding, the event type and the cache, from the lookup on.
unfoldable pub obtain :
    Services
    → String
    → CollectorInput
    → String
    → Option Cache
    → Option Finding
    → Io (Finding × String × Option Cache)
obtain services name payload key rows (some f) = pure (f, "collectors.dispatch.cache_hit", rows)
obtain services name payload key rows none = do
  r ← dispatch services.parse name payload services.reply
  elim r [
    | output o ↦ do
      rows' ← remember services key o.finding rows
      pure (o.finding, "collectors.dispatch.success", rows')
    | failure f ↦ pure (f, "collectors.dispatch.failed", rows)
  ]

-- the part of the node for a focus hypothesis
unfoldable pub investigate :
    Services → IncidentState → ℕ → Hypothesis → Option Cache → Io (CollectorsUpdate × Option Cache)
investigate services state at h rows = do
  let name = select_collector h.text
  range ← build_time_range state
  let fingerprint = build_env_fingerprint services.env
  let scope = scope_services state
  let payload : CollectorInput = record {
    incident_id = state.incident_id;
    question = h.text;
    hypothesis_id = h.id;
    time_range = range;
    scope_services = scope;
    environment_fingerprint = fingerprint;
    max_internal_iterations = 5;
  }
  let key =
      make_cache_key services.sha256 services.isoformat state.incident_id name h.text range scope
        fingerprint
  (f, event_type, rows') ← obtain services name payload key rows (cached services key rows)
  pure (
    record {
      findings = some (merge_finding state.findings f);
      services_touched = some (merge_services_touched state.services_touched scope);
      timeline =
          state.timeline
          ++ collectors_event at ("orchestrator:collectors:" <> name) event_type (some f.id) ∷ [];
      updated_at = at;
    },
    rows',
  )

-- the hypothesis with the focus id
unfoldable pub focus_hypothesis : IncidentState → Option Hypothesis
focus_hypothesis state = elim state.current_focus_hypothesis_id [
  | none ↦ none
  | some focus ↦ next_where (λ h. h.id == focus) state.hypotheses
]

-- `collectors_node`
unfoldable pub collectors_node :
    Services → IncidentState → Option Cache → Io (CollectorsUpdate × Option Cache)
collectors_node services state rows = do
  at ← now
  elim (focus_hypothesis state) [
    | none ↦ pure (
      record {
        findings = none;
        services_touched = none;
        timeline =
            state.timeline
            ++ collectors_event at "orchestrator:collectors" "collectors.dispatch.no_focus" none
              ∷ [];
        updated_at = at;
      },
      rows,
    )
    | some h ↦ investigate services state at h rows
  ]
