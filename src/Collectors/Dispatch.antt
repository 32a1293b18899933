-- ===== src/Collectors/Dispatch.antt =====
-- agent/src/agent/orchestrator/dispatch/{registry,http,cache}.py. The answer of the collector's
-- HTTP endpoint is an argument, and so is the parser of its body.
use text.Mathlib.Text.{starts_with}
use alph_e.Common.{
  ◌<>◌, ℕ, ◌+◌, ◌*◌, String, Option, none, some, ◌&&◌, List, [], ◌∷◌, Result, ok, err, Io, pure,
  now, ◌>>=◌, leb, ltb, lower, repr, show_ℕ, first_chars, Assoc, lookup, insert, if◌then◌else◌,
}
use alph_e.Schemas.{CollectorInput, CollectorOutput, Finding}

-- `_PREFIX_MAP`, in its order
abbrev prefix_map : List (String × String)
prefix_map = ("metric.", "prom") ∷ ("log.", "loki") ∷ ("pod.", "kube") ∷ ("event.", "kube") ∷ []

-- the loop over the map
unfoldable pub select_in : List (String × String) → String → String
select_in [] text = "prom"
select_in ((prefix, collector) ∷ rest) text =
    if starts_with text prefix then collector else select_in rest text

unfoldable pub select_collector : String → String
select_collector text = select_in prefix_map (lower text)

-- What `client.post` does: it raises, or gives a status and a text.
pub data HttpReply : Type 0 where
  timeout : String → HttpReply
  http_error : String → HttpReply
  response : ℕ → String → HttpReply

-- `CollectorOutput | Finding`
pub data DispatchResult : Type 0 where
  output : CollectorOutput → DispatchResult
  failure : Finding → DispatchResult

-- `_failure_finding`
unfoldable pub failure_finding : CollectorInput → String → String → Io Finding
failure_finding payload collector_name reason = do
  at ← now
  pure (record {
    id = "fail_" <> payload.hypothesis_id <> "_" <> collector_name;
    collector_name = collector_name;
    question = payload.question;
    summary = "Collector " <> repr collector_name <> " failed: " <> reason;
    evidence_id = "";
    confidence = 0;
    suggested_followups = [];
    created_at = at;
  })

abbrev fail : CollectorInput → String → String → Io DispatchResult
fail payload collector_name reason = do
  f ← failure_finding payload collector_name reason
  pure (failure f)

module _ (parse : String → Result String CollectorOutput) where
  -- `dispatch`
  unfoldable pub dispatch : String → CollectorInput → HttpReply → Io DispatchResult
  dispatch name payload (timeout exc) = fail payload name ("timeout after 30s: " <> exc)
  dispatch name payload (http_error exc) = fail payload name ("HTTP error: " <> exc)
  dispatch name payload (response status text) =
      if leb 200 status && ltb status 300
      then elim (parse text) [
        | ok o ↦ pure (output o)
        | err exc ↦ fail payload name ("response parse error: " <> exc)
      ]
      else fail payload name ("non-200 status " <> show_ℕ status <> ": " <> first_chars 200 text)

-- The table `collector_cache`: for a key the finding and when it expires.
abbrev pub Cache : Type 0
Cache = Assoc (Finding × ℕ)

-- `CollectorCache.get`, at a time of the database
unfoldable pub cache_get : String → ℕ → Cache → Option Finding
cache_get key at rows = elim (lookup key rows) [
  | none ↦ none
  | some (finding, expires_at) ↦ if ltb at expires_at then some finding else none
]

-- `CollectorCache.put`: the entry lives for five minutes.
unfoldable pub cache_put : String → ℕ → Finding → Cache → Cache
cache_put key now finding rows = insert key (finding, now + 5 * 60000000) rows
