-- ===== src/Evidence.antt =====
-- agent/src/agent/evidence/client.py: blobs in MinIO, metadata rows in Postgres. The two services
-- are an object store and a table; what each call of a service answers is an argument.
pub mod Laws
pub mod Calls
use alph_e.Common.{
  ◌<>◌, length, ℕ, ◌+◌, ◌*◌, String, Option, none, some, Bool, true, false, List, lookup, insert,
  erase, is_some, Result, ok, err, repr, ◌==◌, ◌||◌, if◌then◌else◌,
}
use alph_e.Schemas.{EvidenceRef}

pub record EvidenceSettings : Type 0 where
  pub s3_bucket : String
  pub ttl_days : ℕ

-- `EvidenceError` and its subclasses; `raised` is an exception of a service that is let through.
pub data EvidenceError : Type 0 where
  not_found : String → EvidenceError
  storage_error : String → EvidenceError
  metadata_error : String → EvidenceError
  raised : String → EvidenceError

-- the bytes of a payload
abbrev pub Payload : Type 0
Payload = List ℕ

pub record Row : Type 0 where
  pub ref : EvidenceRef
  pub incident_id : String

-- The two stores, and the client's flag.
pub record Store : Type 0 where
  pub blobs : List (String × Payload)
  pub rows : List (String × Row)
  pub schema_bootstrapped : Bool

-- What `boto3` raises: `BotoCoreError`, a `ClientError` with its code, or `NoSuchKey`.
pub data S3Error : Type 0 where
  core_error : String → S3Error
  client_error : (code message : String) → S3Error
  no_such_key : S3Error

-- What a service does with a request that changes what it keeps: it performs the request and says so, or
-- the call raises. A call can raise although the service has performed the request, such as when the
-- connection is lost after a commit.
pub data Reply (E : Type 0) : Type 0 where
  performed : Reply E
  raises : (was_performed : Bool) → E → Reply E

-- The answers of the services to one call of `put_blob`; the migration leaves the rows alone.
pub record Answers : Type 0 where
  pub migrate : Option String
  pub put : Reply S3Error
  pub insert : Reply String
  pub delete : Reply S3Error

-- `_ensure_schema`
unfoldable pub ensure_schema : Option String → Store → Result String Store
ensure_schema answer store = if store.schema_bootstrapped then ok store else elim answer [
  | none ↦ ok (record store { schema_bootstrapped = true })
  | some exc ↦ err exc
]

-- `_insert_metadata`: `ON CONFLICT (evidence_id) DO NOTHING`
unfoldable pub insert_metadata : EvidenceRef → String → Store → Store
insert_metadata ref incident_id store =
    if is_some (lookup ref.evidence_id store.rows) then store else record store {
      rows = insert ref.evidence_id (record { ref = ref; incident_id = incident_id }) store.rows;
    }

-- whether the delete took place; what it raises is dropped
abbrev pub was_deleted : Reply S3Error → Bool
was_deleted performed = true
was_deleted (raises was_performed e) = was_performed

module _ (settings : EvidenceSettings) where
  -- `make_ref`
  unfoldable pub make_ref : ℕ → String → String → ℕ → EvidenceRef
  make_ref now evidence_id content_type size_bytes = record {
    evidence_id = evidence_id;
    storage_uri = "s3://" <> settings.s3_bucket <> "/" <> evidence_id;
    content_type = content_type;
    size_bytes = size_bytes;
    expires_at = now + settings.ttl_days * 86400000000;
  }

  -- step 2 of `put_blob`, after the blob is written: the row, or the best-effort delete
  unfoldable pub record_row :
      Answers → EvidenceRef → String → Store → Result EvidenceError EvidenceRef × Store
  record_row answers ref incident_id store = elim answers.insert [
    | performed ↦ (ok ref, insert_metadata ref incident_id store)
    | raises was_performed exc ↦
        let left = if was_performed then insert_metadata ref incident_id store else store in
        (
          err (
              metadata_error
                ("metadata insert failed for " <> repr ref.evidence_id <> ": " <> exc)),
          if was_deleted answers.delete
              then record left { blobs = erase ref.evidence_id left.blobs }
              else left,
        )
  ]

  -- Only a `BotoCoreError` of the upload is turned into a storage error.
  abbrev pub put_failure : String → S3Error → EvidenceError
  put_failure evidence_id (core_error exc) =
      storage_error ("MinIO PUT failed for " <> repr evidence_id <> ": " <> exc)
  put_failure evidence_id (client_error code message) = raised message
  put_failure evidence_id no_such_key = raised "NoSuchKey"

  -- `put_blob`
  unfoldable pub put_blob :
      Answers
      → ℕ
      → String
      → Payload
      → String
      → String
      → Store
      → Result EvidenceError EvidenceRef × Store
  put_blob answers now evidence_id payload content_type incident_id store =
      elim (ensure_schema answers.migrate store) [
        | err exc ↦ (err (raised exc), store)
        | ok ready ↦ elim answers.put [
          | raises was_performed e ↦ (
            err (put_failure evidence_id e),
            if was_performed
                then record ready { blobs = insert evidence_id payload ready.blobs }
                else ready,
          )
          | performed ↦
              record_row answers (make_ref now evidence_id content_type (length payload))
                incident_id (record ready { blobs = insert evidence_id payload ready.blobs })
        ]
      ]

  -- `get_blob`; the argument is an error of the service other than a missing object
  unfoldable pub get_blob : Option S3Error → String → Store → Result EvidenceError Payload
  get_blob (some no_such_key) evidence_id store = err (not_found evidence_id)
  get_blob (some (client_error code message)) evidence_id store =
      if code == "NoSuchKey" || code == "404"
      then err (not_found evidence_id)
      else err (storage_error ("MinIO GET failed for " <> repr evidence_id <> ": " <> message))
  get_blob (some (core_error exc)) evidence_id store =
      err (storage_error ("MinIO GET failed for " <> repr evidence_id <> ": " <> exc))
  get_blob none evidence_id store = elim (lookup evidence_id store.blobs) [
    | none ↦ err (not_found evidence_id)
    | some payload ↦ ok payload
  ]

  -- `record_metadata`
  unfoldable pub record_metadata :
      Answers → EvidenceRef → String → Store → Result EvidenceError (Unit {0}) × Store
  record_metadata answers ref incident_id store = elim (ensure_schema answers.migrate store) [
    | err exc ↦ (err (raised exc), store)
    | ok ready ↦ elim answers.insert [
      | raises was_performed exc ↦
          (err (raised exc), if was_performed then insert_metadata ref incident_id ready else ready)
      | performed ↦ (ok tt, insert_metadata ref incident_id ready)
    ]
  ]
