-- ===== src/Evidence/Laws.antt =====
-- No metadata row without its blob.
use text.Mathlib.TextPositions.{eq_refl}
use alph_e.Common.{
  Bool, false, Bool-cases, if◌then◌else◌, sym, ◌∙◌, length, ℕ, String, ◌≡◌, refl, ◌⊎◌, inl, inr,
  Option, none, true, lookup, insert, erase, lookup-insert, lookup-erase, is_some, Result, ok, err,
  arith, eq_iff,
}
use alph_e.Schemas.{EvidenceRef}
use alph_e.Evidence.{
  EvidenceSettings, Payload, Store, Answers, ensure_schema, insert_metadata, make_ref, record_row,
  put_blob, Reply, performed, raises, was_deleted, S3Error,
}

-- Every row of the metadata has its blob.
pub record NoDangling (store : Store) : Type 0 where
  pub at :
      (id : String) → is_some (lookup id store.rows) ≡ true → is_some (lookup id store.blobs) ≡ true

ensure_schema_keeps :
    (answer : Option String) (store ready : Store)
    → ensure_schema answer store ≡ ok ready
    → (ready.blobs ≡ store.blobs) × (ready.rows ≡ store.rows)
unfolding ensure_schema
ensure_schema_keeps answer store ready e = ground arith

insert_metadata-lookup :
    (ref : EvidenceRef) (incident : String) (store : Store) (id : String)
    → is_some (lookup id (insert_metadata ref incident store).rows) ≡ true
    → (is_some (lookup id store.rows) ≡ true) ⊎ (ref.evidence_id ≡ id)
unfolding insert_metadata
insert_metadata-lookup ref incident store id h = ground (
  arith,
  lookup-insert ref.evidence_id id (record { ref = ref; incident_id = incident }) store.rows,
  eq_iff ref.evidence_id id,
)

blobs-insert_metadata :
    (ref : EvidenceRef) (incident : String) (store : Store)
    → (insert_metadata ref incident store).blobs ≡ store.blobs
unfolding insert_metadata
blobs-insert_metadata ref incident store = ground arith

-- a blob more
insert-NoDangling :
    (id : String) (payload : Payload) (store : Store)
    → NoDangling store
    → NoDangling (record store { blobs = insert id payload store.blobs })
insert-NoDangling id payload store safe = record {
  at = λ j h. ground (arith, lookup-insert id j payload store.blobs, safe.at j h);
}

-- a row more, for a blob that is there
insert_metadata-NoDangling :
    (ref : EvidenceRef) (incident : String) (store : Store)
    → NoDangling store
    → is_some (lookup ref.evidence_id store.blobs) ≡ true
    → NoDangling (insert_metadata ref incident store)
insert_metadata-NoDangling ref incident store safe blob = record {
  at = λ j h.
      rw (blobs-insert_metadata ref incident store)
        (elim (insert_metadata-lookup ref incident store j h) [
          | inl old ↦ safe.at j old
          | inr same ↦ rw same at blob
        ]);
}

-- a blob less, for which there is no row
erase-NoDangling :
    (id : String) (store : Store)
    → NoDangling store
    → lookup id store.rows ≡ none
    → NoDangling (record store { blobs = erase id store.blobs })
erase-NoDangling id store safe free = record {
  at = λ j h. ground (arith, lookup-erase id j store.blobs, safe.at j h, eq_iff id j);
}

-- The insert was not performed, although the call raised.
abbrev pub IsRefused : Reply String → Type 0
IsRefused reply = (exc : String) × (reply ≡ raises false exc)

refusal : (b : Bool) (exc x : String) → raises b exc ≡ raises false x → b ≡ false
refusal b exc x e = ground (arith, e)

module _ (settings : EvidenceSettings) where
  record_row-NoDangling :
      (answers : Answers) (ref : EvidenceRef) (incident : String) (payload : Payload)
      (ready : Store)
      → NoDangling ready
      → (answers.insert ≡ performed)
        ⊎ (was_deleted answers.delete ≡ false)
        ⊎ (IsRefused answers.insert × (lookup ref.evidence_id ready.rows ≡ none))
      → NoDangling
          (record_row settings answers ref incident
            (record ready { blobs = insert ref.evidence_id payload ready.blobs })).1
  unfolding record_row
  record_row-NoDangling answers ref incident payload ready safe fresh = go answers.insert refl
    where
      written : Store
      written = record ready { blobs = insert ref.evidence_id payload ready.blobs }

      safe' : NoDangling written
      safe' = insert-NoDangling ref.evidence_id payload ready safe

      there : is_some (lookup ref.evidence_id written.blobs) ≡ true
      there =
          rw (lookup-insert ref.evidence_id ref.evidence_id payload ready.blobs)
            (rw (eq_refl ref.evidence_id) refl)

      with_row : NoDangling (insert_metadata ref incident written)
      with_row = insert_metadata-NoDangling ref incident written safe' there

      left : (b : Bool) → NoDangling (if b then insert_metadata ref incident written else written)
      left true = with_row
      left false = safe'

      go :
          (answer : Reply String)
          → answers.insert ≡ answer
          → NoDangling (record_row settings answers ref incident written).1
      go performed e = rw (e, record_row) with_row
      go (raises b exc) e = elim (Bool-cases (was_deleted answers.delete)) [
        | inr kept ↦ rw (e, kept, record_row) (left b)
        | inl deleted ↦
            rw (e, deleted, record_row)
              (elim fresh [
                | inl ne ↦ absurd (ground (arith, ne, e))
                | inr (inl kept) ↦ absurd (ground (arith, kept, deleted))
                | inr (inr ((x, refused), free)) ↦
                    rw (refusal b exc x (sym e ∙ refused))
                      (erase-NoDangling ref.evidence_id written safe' free)
              ])
      ]

  -- `put_blob` keeps every row's blob, whatever the services answer, if the insert succeeds, or the
  -- blob is not deleted, or the insert is not performed and the evidence id has no row yet.
  pub put_blob-NoDangling :
      (answers : Answers) (now : ℕ) (id : String) (payload : Payload) (content incident : String)
      (store : Store)
      → NoDangling store
      → (answers.insert ≡ performed)
        ⊎ (was_deleted answers.delete ≡ false)
        ⊎ (IsRefused answers.insert × (lookup id store.rows ≡ none))
      → NoDangling (put_blob settings answers now id payload content incident store).1
  unfolding put_blob make_ref
  put_blob-NoDangling answers now id payload content incident store safe fresh =
      go (ensure_schema answers.migrate store) refl answers.put refl
    where
      go :
          (r : Result String Store)
          → ensure_schema answers.migrate store ≡ r
          → (p : Reply S3Error) → answers.put ≡ p
          → NoDangling (put_blob settings answers now id payload content incident store).1
      go (err exc) e p q = rw (e, put_blob) safe
      go (ok ready) e p q =
          let (blobs, rows) = ensure_schema_keeps answers.migrate store ready e in
          let safe' : NoDangling ready = record {
            at = λ j h. rw blobs (safe.at j (rw rows at h));
          } in
          elim p
              as (λ p'.
                answers.put ≡ p'
                → NoDangling (put_blob settings answers now id payload content incident store).1) [
                  | raises true x ↦
                      λ q'. rw (e, q', put_blob) (insert-NoDangling id payload ready safe')
                  | raises false x ↦ λ q'. rw (e, q', put_blob) safe'
                  | performed ↦ λ q'.
                      rw (e, q', put_blob)
                        (record_row-NoDangling answers
                          (make_ref settings now id content (length payload)) incident payload ready
                          safe' (rw rows fresh))
                ]
            q
