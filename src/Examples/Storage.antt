-- ===== src/Examples/Storage.antt =====
-- The evidence client's theorems at concrete stores.
use alph_e.Common.{arith, refl, none, true, false, [], ◌∷◌, inl, inr, lookup}
use alph_e.Evidence.{
  performed, raises, EvidenceSettings, Store, Row, Answers, put_blob, ensure_schema, make_ref,
  record_row,
}
use alph_e.Evidence.Laws.{NoDangling, put_blob-NoDangling}
use alph_e.Evidence.Calls.{IsStored, put_blob-IsStored, put_blob_dangles}

abbrev settings : EvidenceSettings
settings = record { s3_bucket = "evidence"; ttl_days = 30 }

abbrev empty : Store
empty = record { blobs = []; rows = []; schema_bootstrapped = true }

abbrev working : Answers
working = record { migrate = none; put = performed; insert = performed; delete = performed }

abbrev no_database : Answers
no_database = record working { insert = raises false "connection refused" }

abbrev row : Row
row = record {
  ref = record {
    evidence_id = "ev-1";
    storage_uri = "s3://evidence/ev-1";
    content_type = "text/plain";
    size_bytes = 1;
    expires_at = 0;
  };
  incident_id = "inc-1";
}

-- a store with one blob and its row
abbrev full : Store
full = record {
  blobs = ("ev-1", 7 ∷ []) ∷ [];
  rows = ("ev-1", row) ∷ [];
  schema_bootstrapped = true;
}

full-NoDangling : NoDangling full
unfolding lookup
full-NoDangling = record { at = λ id h. ground arith }

put_blob-NoDangling_example :
    NoDangling (put_blob settings no_database 5 "ev-2" (8 ∷ []) "text/plain" "inc-1" full).1
unfolding lookup
put_blob-NoDangling_example =
    put_blob-NoDangling settings no_database 5 "ev-2" (8 ∷ []) "text/plain" "inc-1" full
      full-NoDangling (inr (inr (("connection refused", refl), refl)))

put_blob-IsStored_example :
    IsStored settings 5 "ev-2"
      (8 ∷ [])
      "text/plain"
      (make_ref settings 5 "ev-2" "text/plain" 1)
      (put_blob settings working 5 "ev-2" (8 ∷ []) "text/plain" "inc-1" full).1
unfolding put_blob ensure_schema record_row
put_blob-IsStored_example =
    put_blob-IsStored settings working 5 "ev-2" (8 ∷ []) "text/plain" "inc-1" full
      (make_ref settings 5 "ev-2" "text/plain" 1) refl

put_blob_dangles_example :
    ¬ NoDangling (put_blob settings no_database 5 "ev-1" (8 ∷ []) "text/plain" "inc-1" full).1
unfolding lookup
put_blob_dangles_example =
    put_blob_dangles settings no_database 5 "ev-1" (8 ∷ []) "text/plain" "inc-1" full false
      "connection refused" refl (inl refl) refl refl refl
