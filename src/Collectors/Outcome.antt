-- ===== src/Collectors/Outcome.antt =====
-- What one dispatch of the collectors leaves: where its finding comes from, and what is merged.
use alph_e.Common.{
  ◌∙◌, ℕ, ◌≤◌, ◌<◌, String, ◌≡◌, refl, ◌||◌, ◌&&◌, ◌==◌, Option, none, some, Bool, true, false,
  List, [], ◌∷◌, ◌++◌, map, contains, Result, ok, err, Supply, arith, eq_iff, inl, inr, Bool-cases,
  IsDistinct, IsDistinct-snoc, contains-sorted_set, contains-append, leb, ltb, map,
}
use mathlib.Core.List.{map-append}
use alph_e.Schemas.{
  IncidentState, Hypothesis, Finding, CollectorInput, CollectorOutput, TimelineEvent,
}
use alph_e.Collectors.{
  Services, CollectorsUpdate, collectors_node, investigate, obtain, cached, merge_finding,
  merge_services_touched, scope_services, focus_hypothesis, build_time_range,
}
use alph_e.Collectors.Dispatch.{
  Cache, HttpReply, response, timeout, http_error, dispatch, failure_finding,
}

abbrev pub finding_ids : List Finding → List String
finding_ids = map (λ f. f.id)

merge_finding-IsDistinct :
    (fs : List Finding) (f : Finding)
    → IsDistinct (finding_ids fs)
    → IsDistinct (finding_ids (merge_finding fs f))
unfolding merge_finding
merge_finding-IsDistinct fs f d = elim (Bool-cases (contains f.id (finding_ids fs))) [
  | inl old ↦ rw (old, merge_finding) d
  | inr new ↦ rw (new, merge_finding, map-append) (IsDistinct-snoc (finding_ids fs) f.id d new)
]

contains-merge_finding :
    (fs : List Finding) (f : Finding) (id : String)
    → contains id (finding_ids (merge_finding fs f)) ≡ (contains id (finding_ids fs) || f.id == id)
unfolding merge_finding
contains-merge_finding fs f id = elim (Bool-cases (contains f.id (finding_ids fs))) [
  | inl old ↦ rw (old, merge_finding) (known (f.id == id) refl old)
  | inr new ↦
      rw (new, merge_finding, map-append)
        (contains-append id (finding_ids fs) (f.id ∷ []) ∙ ground arith)
]
  where
    known :
        (b : Bool)
        → (f.id == id) ≡ b
        → contains f.id (finding_ids fs) ≡ true
        → contains id (finding_ids fs) ≡ (contains id (finding_ids fs) || b)
    known true e old = rw⁻¹ ((eq_iff f.id id).0 e) (rw old refl)
    known false e old = ground arith

-- Where a finding comes from, with the event type and the cache that are left: an entry of the
-- cache, the answer of the collector, which alone may be written to the cache, or a failure.
pub data Source (services : Services) (rows : Option Cache)
    : Finding → String → Option Cache → Type 0 where
  from_cache :
      (key : String) (f : Finding)
      → cached services key rows ≡ some f
      → Source services rows f "collectors.dispatch.cache_hit" rows
  from_collector :
      (status : ℕ) (text : String) (o : CollectorOutput) (rows' : Option Cache)
      → services.reply ≡ response status text
      → 200 ≤ status
      → status < 300
      → services.parse text ≡ ok o
      → Source services rows o.finding "collectors.dispatch.success" rows'
  from_failure :
      (f : Finding)
      → f.evidence_id ≡ ""
      → f.confidence ≡ 0
      → Source services rows f "collectors.dispatch.failed" rows

-- the finding, the event type and the cache of an outcome
abbrev IsSource : Services → Option Cache → Finding × String × Option Cache → Type 0
IsSource services rows (f, event_type, rows') = Source services rows f event_type rows'

response-Source :
    (services : Services) (name : String) (payload : CollectorInput) (key : String)
    (rows : Option Cache) (s : Supply) (reply : HttpReply)
    → services.reply ≡ reply
    → IsSource services rows (obtain services name payload key rows none s).0
unfolding obtain dispatch failure_finding
response-Source services name payload key rows s (timeout exc) e =
    rw (e, obtain, dispatch) (from_failure _ refl refl)
response-Source services name payload key rows s (http_error exc) e =
    rw (e, obtain, dispatch) (from_failure _ refl refl)
response-Source services name payload key rows s (response status text) e =
    elim (Bool-cases (leb 200 status && ltb status 300)) [
      | inr other ↦ rw (e, obtain, dispatch) (rw (other, dispatch) (from_failure _ refl refl))
      | inl success ↦ go (services.parse text) refl success
    ]
  where
    go :
        (r : Result String CollectorOutput)
        → services.parse text ≡ r
        → (leb 200 status && ltb status 300) ≡ true
        → IsSource services rows (obtain services name payload key rows none s).0
    go (err exc) p success = rw (e, success, p, obtain, dispatch) (from_failure _ refl refl)
    go (ok o) p success =
        rw (e, success, p, obtain, dispatch)
          (from_collector status text o _ refl (ground arith) (ground arith) p)

obtain-Source :
    (services : Services) (name : String) (payload : CollectorInput) (key : String)
    (rows : Option Cache) (s : Supply)
    → IsSource services rows (obtain services name payload key rows (cached services key rows) s).0
unfolding obtain
obtain-Source services name payload key rows s = go (cached services key rows) refl
  where
    go :
        (hit : Option Finding)
        → cached services key rows ≡ hit
        → IsSource services rows (obtain services name payload key rows hit s).0
    go none e = response-Source services name payload key rows s services.reply refl
    go (some f) e = from_cache key f e

-- What a dispatch leaves: a finding with its source, merged by its id, an event that names it, and
-- the services in scope among those touched.
pub record IsCollected (services : Services) (state : IncidentState) (rows : Option Cache)
    (u : CollectorsUpdate) (rows' : Option Cache) : Type 0 where
  pub finding : Finding
  pub event : TimelineEvent
  pub source : Source services rows finding event.event_type rows'
  pub findings : u.findings ≡ some (merge_finding state.findings finding)
  pub timeline : u.timeline ≡ state.timeline ++ event ∷ []
  pub names : event.ref_id ≡ some finding.id
  pub touched : List String
  pub services_touched : u.services_touched ≡ some touched
  pub members :
      (z : String)
      → contains z touched ≡ (contains z state.services_touched || state.alert.service == z)

touched-members :
    (state : IncidentState) (z : String)
    → contains z (merge_services_touched state.services_touched (scope_services state))
      ≡ (contains z state.services_touched || state.alert.service == z)
unfolding merge_services_touched scope_services
touched-members state z =
    contains-sorted_set z _
    ∙ (contains-append z state.services_touched _
        ∙ ground (arith, contains-sorted_set z (state.alert.service ∷ state.services_touched)))

pub collectors_node-IsCollected :
    (services : Services) (state : IncidentState) (rows : Option Cache) (s : Supply)
    (h : Hypothesis)
    → focus_hypothesis state ≡ some h
    → IsCollected services state rows
        (collectors_node services state rows s).0.0
        (collectors_node services state rows s).0.1
unfolding collectors_node investigate build_time_range
collectors_node-IsCollected services state rows s h e =
    rw (e, collectors_node)
      (record {
        finding = _;
        event = _;
        source = obtain-Source services _ _ _ rows _;
        findings = refl;
        timeline = refl;
        names = refl;
        touched = _;
        services_touched = refl;
        members = touched-members state;
      })

-- The ids of the findings stay distinct, and the finding's id is among them afterwards, with those
-- that were there and no other.
pub merge_finding_lem :
    (fs : List Finding) (f : Finding)
    → IsDistinct (finding_ids fs)
    → IsDistinct (finding_ids (merge_finding fs f))
      × ((id : String)
          → contains id (finding_ids (merge_finding fs f))
            ≡ (contains id (finding_ids fs) || f.id == id))
merge_finding_lem fs f d = (merge_finding-IsDistinct fs f d, contains-merge_finding fs f)
