-- ===== src/Evidence/Calls.antt =====
-- What a successful `put_blob` leaves, and how one that fails can break the invariant.
use mathlib.Core.Bool.{false≢true}
use text.Mathlib.TextPositions.{eq_refl}
use alph_e.Common.{
  length, ℕ, String, ◌≡◌, refl, sym, ◌∙◌, ◌⊎◌, inl, inr, Bool, if◌then◌else◌, none, true, false,
  lookup, insert, erase, lookup-insert, lookup-erase, is_some, Result, ok, err, arith,
}
use alph_e.Schemas.{EvidenceRef}
use alph_e.Evidence.{
  EvidenceSettings, Payload, Store, Answers, S3Error, ensure_schema, insert_metadata, make_ref,
  record_row, put_blob, get_blob, Reply, performed, raises, was_deleted,
}
use alph_e.Evidence.Laws.{NoDangling}

-- What holds after a call that returned: the blob can be read, the row is there, and the reference
-- names the object in the bucket.
pub record IsStored (settings : EvidenceSettings) (now : ℕ) (id : String) (payload : Payload)
    (content : String) (ref : EvidenceRef) (store : Store) : Type 0 where
  pub reference : ref ≡ make_ref settings now id content (length payload)
  pub readable : get_blob settings none id store ≡ ok payload
  pub row : is_some (lookup id store.rows) ≡ true

module _ (settings : EvidenceSettings) where
  inserted :
      (ref : EvidenceRef) (incident : String) (store : Store)
      → is_some (lookup ref.evidence_id (insert_metadata ref incident store).rows) ≡ true
  unfolding insert_metadata
  inserted ref incident store = ground (
    arith,
    lookup-insert ref.evidence_id ref.evidence_id (record { ref = ref; incident_id = incident })
        store.rows,
    eq_refl ref.evidence_id,
  )

  readable_after :
      (ref : EvidenceRef) (incident : String) (payload : Payload) (ready : Store)
      → get_blob settings none ref.evidence_id (
          insert_metadata ref incident
            (record ready { blobs = insert ref.evidence_id payload ready.blobs }))
        ≡ ok payload
  unfolding get_blob insert_metadata
  readable_after ref incident payload ready = ground (
    arith,
    lookup-insert ref.evidence_id ref.evidence_id payload ready.blobs,
    eq_refl ref.evidence_id,
  )

  -- A call of `put_blob` that returns has stored the blob and a row for it: `get_blob` then gives
  -- the payload back.
  pub put_blob-IsStored :
      (answers : Answers) (now : ℕ) (id : String) (payload : Payload) (content incident : String)
      (store : Store) (ref : EvidenceRef)
      → (put_blob settings answers now id payload content incident store).0 ≡ ok ref
      → IsStored settings now id payload content ref
          (put_blob settings answers now id payload content incident store).1
  unfolding put_blob record_row make_ref
  put_blob-IsStored answers now id payload content incident store ref e =
      go (ensure_schema answers.migrate store) refl answers.put refl answers.insert refl
    where
      go :
          (r : Result String Store)
          → ensure_schema answers.migrate store ≡ r
          → (p : Reply S3Error) → answers.put ≡ p
          → (i : Reply String) → answers.insert ≡ i
          → IsStored settings now id payload content ref
              (put_blob settings answers now id payload content incident store).1
      go (err exc) er p ep i ei = absurd (ground arith)
      go (ok ready) er (raises b x) ep i ei = absurd (ground arith)
      go (ok ready) er performed ep (raises b x) ei = absurd (ground arith)
      go (ok ready) er performed ep performed ei =
          let same : make_ref settings now id content (length payload) ≡ ref = ground arith in
          rw (er, ep, ei, put_blob, record_row)
            (record {
              reference = sym same;
              readable =
                  readable_after (make_ref settings now id content (length payload)) incident
                    payload ready;
              row = inserted (make_ref settings now id content (length payload)) incident _;
            })

  -- An upload whose insert raises, after it was performed or under an id that has a row already, deletes
  -- the blob that the row refers to, if the delete takes place: the store is left with a dangling
  -- reference.
  pub put_blob_dangles :
      (answers : Answers) (now : ℕ) (id : String) (payload : Payload) (content incident : String)
      (store : Store) (was_performed : Bool) (exc : String)
      → store.schema_bootstrapped ≡ true
      → (is_some (lookup id store.rows) ≡ true) ⊎ (was_performed ≡ true)
      → answers.put ≡ performed
      → answers.insert ≡ raises was_performed exc
      → was_deleted answers.delete ≡ true
      → ¬ NoDangling (put_blob settings answers now id payload content incident store).1
  unfolding put_blob record_row make_ref ensure_schema
  put_blob_dangles answers now id payload content incident store b exc ready row put raised deleted
        safe =
      false≢true (sym (gone b) ∙ at_id.at id (row_there b row))
    where
      ref : EvidenceRef
      ref = make_ref settings now id content (length payload)

      written : Store
      written = record store { blobs = insert id payload store.blobs; schema_bootstrapped = true }

      left : Bool → Store
      left d = if d then insert_metadata ref incident written else written

      at_id : NoDangling (record (left b) { blobs = erase id (left b).blobs })
      at_id = rw (ready, put, raised, deleted, put_blob, record_row, ensure_schema) at safe

      gone : (d : Bool) → is_some (lookup id (erase id (left d).blobs)) ≡ false
      gone d = ground (arith, lookup-erase id id (left d).blobs, eq_refl id)

      row_there :
          (d : Bool)
          → (is_some (lookup id store.rows) ≡ true) ⊎ (d ≡ true)
          → is_some (lookup id (left d).rows) ≡ true
      row_there true h = inserted ref incident written
      row_there false (inl old) = old
      row_there false (inr e) = absurd (false≢true e)
