-- ===== src/Collectors/Hits.antt =====
-- When a lookup in the cache of agent/src/agent/orchestrator/dispatch/cache.py finds an earlier answer.
use text.Mathlib.TextLemmas.{append_cancel_left, append_cancel_right}
use alph_e.Common.{
  ◌<>◌, ◌∙◌, json_text, lookup, Option-cases, ◌+◌, ◌*◌, ℕ, String, ◌≡◌, refl, ap, Option, none,
  some, Bool, true, false, List, IsPlain, json_text-plain, lookup-insert, inl, inr, eq_iff, arith,
  ltb, ◌==◌, if◌then◌else◌,
}
use alph_e.Schemas.{EnvironmentFingerprint, Finding}
use alph_e.Collectors.Dispatch.{Cache, cache_get, cache_put}
use alph_e.Collectors.CacheKey.{key_prefix, key_text, make_cache_key}

-- What two dispatches for one hypothesis share.
module _ (sha256 : String → String) (isoformat : ℕ → String) (incident_id name question : String)
    (scope : List String) (fingerprint : EnvironmentFingerprint) (start : ℕ) where
  -- The key of a dispatch whose time range ends at the time.
  abbrev pub key_at : ℕ → String
  key_at end =
      make_cache_key sha256 isoformat incident_id name question
        (record { start = start; end = end }) scope fingerprint

  abbrev pub text_at : ℕ → String
  text_at end =
      key_text sha256 isoformat incident_id name question (record { start = start; end = end })
        scope fingerprint

  text_at-end :
      (e1 e2 : ℕ)
      → IsPlain (isoformat e1)
      → IsPlain (isoformat e2)
      → text_at e1 ≡ text_at e2
      → isoformat e1 ≡ isoformat e2
  unfolding key_text
  text_at-end e1 e2 h k e = json_text-plain _ _ h k (
      append_cancel_right _ _ _
        (append_cancel_left (key_prefix incident_id name question scope fingerprint) _ _ e))

  key_at_of_end : (e1 e2 : ℕ) → isoformat e1 ≡ isoformat e2 → key_at e1 ≡ key_at e2
  unfolding make_cache_key key_text
  key_at_of_end e1 e2 e =
      ap
        (λ end. sha256 (
          key_prefix incident_id name question scope fingerprint
          <> (json_text end <> (",\"start\":" <> json_text (isoformat start) <> "}}"))))
        e

  same_key :
      (e1 e2 : ℕ)
      → IsPlain (isoformat e1)
      → IsPlain (isoformat e2)
      → (sha256 (text_at e1) ≡ sha256 (text_at e2) → text_at e1 ≡ text_at e2)
      → (key_at e1 == key_at e2) ≡ (isoformat e1 == isoformat e2)
  unfolding make_cache_key
  same_key e1 e2 h k collision_free = ground (
    arith,
    eq_iff (key_at e1) (key_at e2),
    eq_iff (isoformat e1) (isoformat e2),
    key_at_of_end e1 e2,
    collision_free,
    text_at-end e1 e2 h k,
  )

  -- What a row gives at a time of the database.
  abbrev live : ℕ → Option (Finding × ℕ) → Option Finding
  live at none = none
  live at (some (f, expires_at)) = if ltb at expires_at then some f else none

  cache_get-live :
      (key : String) (at : ℕ) (rows : Cache) → cache_get key at rows ≡ live at (lookup key rows)
  unfolding cache_get
  cache_get-live key at rows = elim (Option-cases (lookup key rows)) [
    | inl missing ↦ rw (missing, cache_get) refl
    | inr (row, found) ↦ rw (found, cache_get) refl
  ]

  live-if :
      (b : Bool) (at : ℕ) (row : Finding × ℕ) (old : Option (Finding × ℕ))
      → live at (if b then some row else old)
        ≡ (if b then if ltb at row.1 then some row.0 else none else live at old)
  live-if true at row old = refl
  live-if false at row old = refl

  -- For one incident, collector, question, scope, environment and start of the time range, where the
  -- ISO texts of the ends need no escape and SHA-256 does not collide on the two texts: a lookup after a
  -- write finds what was written, for five minutes, exactly if both time ranges end at the same ISO
  -- text; else it finds what it would have found before.
  pub cache_get-cache_put :
      (e1 e2 at1 at2 : ℕ) (f : Finding) (rows : Cache)
      → IsPlain (isoformat e1)
      → IsPlain (isoformat e2)
      → (sha256 (text_at e1) ≡ sha256 (text_at e2) → text_at e1 ≡ text_at e2)
      → cache_get (key_at e2) at2 (cache_put (key_at e1) at1 f rows) ≡ (
          if isoformat e1 == isoformat e2
          then if ltb at2 (at1 + 5 * 60000000) then some f else none
          else cache_get (key_at e2) at2 rows)
  unfolding cache_put
  cache_get-cache_put e1 e2 at1 at2 f rows h k collision_free =
      let row : Finding × ℕ = (f, at1 + 5 * 60000000) in
      cache_get-live (key_at e2) at2 (cache_put (key_at e1) at1 f rows)
      ∙ (ap (live at2) (lookup-insert (key_at e1) (key_at e2) row rows)
          ∙ (live-if (key_at e1 == key_at e2) at2 row (lookup (key_at e2) rows)
              ∙ rw (same_key e1 e2 h k collision_free)
                  (rw (cache_get-live (key_at e2) at2 rows) refl)))
