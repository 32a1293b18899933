-- ===== src/Collectors/Accepted.antt =====
-- What a dispatch of the collectors keeps: accepted findings.
use alph_e.Common.{
  String, ◌≡◌, refl, Option, some, true, List, [], ◌∷◌, ◌++◌, contains, ok, arith, all, inl, inr,
  Bool-cases,
}
use alph_e.Schemas.{Finding, CollectorOutput, accepts_finding, accepts_collector_output}
use alph_e.Collectors.{Services, cached, merge_finding}
use alph_e.Collectors.Dispatch.{Cache}
use alph_e.Collectors.Outcome.{finding_ids, Source, from_cache, from_collector, from_failure}

pub accepted-merge_finding :
    (fs : List Finding) (f : Finding)
    → all accepts_finding fs ≡ true
    → accepts_finding f ≡ true
    → all accepts_finding (merge_finding fs f) ≡ true
unfolding merge_finding
accepted-merge_finding fs f a b = elim (Bool-cases (contains f.id (finding_ids fs))) [
  | inl old ↦ rw (old, merge_finding) a
  | inr new ↦ rw (new, merge_finding) (snoc fs a)
]
  where
    snoc :
        (gs : List Finding)
        → all accepts_finding gs ≡ true
        → all accepts_finding (gs ++ f ∷ []) ≡ true
    snoc [] c = ground (arith, b)
    snoc (g ∷ gs) c = ground (arith, c, snoc gs)

-- What the services give conforms: the parsed answers and the rows of the cache.
pub record GivesAccepted (services : Services) (rows : Option Cache) : Type 0 where
  pub parsed :
      (text : String) (o : CollectorOutput)
      → services.parse text ≡ ok o
      → accepts_collector_output o ≡ true
  pub stored :
      (key : String) (f : Finding) → cached services key rows ≡ some f → accepts_finding f ≡ true

pub accepted-Source :
    (services : Services) (rows rows' : Option Cache) (f : Finding) (event_type : String)
    → GivesAccepted services rows
    → Source services rows f event_type rows'
    → accepts_finding f ≡ true
unfolding accepts_collector_output accepts_finding
accepted-Source services rows _ f _ given (from_cache key _ hit) = given.stored key f hit
accepted-Source services rows _ _ _ given (from_collector status text o rows' _ _ _ parsed) =
    given.parsed text o parsed
accepted-Source services rows _ f _ given (from_failure _ _ confidence) = rw confidence refl
