-- ===== src/Coordinator/Executor/Once.antt =====
-- An intent is executed once: the records that the evidence store holds, and later calls.
use text.Mathlib.TextPositions.{eq_refl}
use alph_e.Common.{
  IsDistinct, IsDistinct-snoc, String, ◌≡◌, refl, Option, none, some, Bool, true, false, not, List,
  [], ◌∷◌, ◌++◌, map, filter, contains, All, All-append, Supply, arith, eq_iff, Bool-cases, ◌⊎◌,
  inl, inr,
}
use alph_e.Schemas.{ActionIntent, ActionStatus}
use alph_e.Coordinator.Executor.{
  ExecutionRecord, Executor, persist_record, execute, compensate, new_executor,
}

-- The hashes of the forward records, in the order of their storage.
abbrev pub forwards : List ExecutionRecord → List String
forwards rs = map (λ r. r.intent_hash) (filter (λ r. not r.is_compensation) rs)

-- No hash has two forward records in the store, and each that has one counts as executed.
pub record IsOnce (x : Executor) : Type 0 where
  pub distinct : IsDistinct (forwards x.stored)
  pub executed : All (λ h. contains h x.executed_hashes ≡ true) (forwards x.stored)

-- what is not in a list whose members all are executed
not_contains :
    (h : String) (executed xs : List String)
    → All (λ k. contains k executed ≡ true) xs
    → contains h executed ≡ false
    → contains h xs ≡ false
not_contains h executed [] a n = refl
not_contains h executed (x ∷ xs) a n = ground (arith, eq_iff x h, not_contains h executed xs a.1 n)

All-executed :
    (h : String) (executed xs : List String)
    → All (λ k. contains k executed ≡ true) xs
    → All (λ k. contains k (h ∷ executed) ≡ true) xs
All-executed h executed [] a = tt
All-executed h executed (x ∷ xs) a = (ground arith, All-executed h executed xs a.1)

filter-snoc :
    (rs : List ExecutionRecord) (r : ExecutionRecord)
    → r.is_compensation ≡ false
    → forwards (rs ++ r ∷ []) ≡ forwards rs ++ r.intent_hash ∷ []
filter-snoc [] r e = ground arith
filter-snoc (q ∷ rs) r e = ground (arith, filter-snoc rs r e)

filter-snoc_compensation :
    (rs : List ExecutionRecord) (r : ExecutionRecord)
    → r.is_compensation ≡ true
    → forwards (rs ++ r ∷ []) ≡ forwards rs
filter-snoc_compensation [] r e = ground arith
filter-snoc_compensation (q ∷ rs) r e = ground (arith, filter-snoc_compensation rs r e)

-- what `persist_record` does to a forward record whose hash is marked as executed just before
persist-IsOnce :
    (x : Executor) (r : ExecutionRecord)
    → IsOnce x
    → r.is_compensation ≡ false
    → contains r.intent_hash x.executed_hashes ≡ false
    → IsOnce (persist_record r (record x { executed_hashes = r.intent_hash ∷ x.executed_hashes }))
unfolding persist_record
persist-IsOnce x r once forward new = go x.evidence refl
  where
    marked : All (λ k. contains k (r.intent_hash ∷ x.executed_hashes) ≡ true) (forwards x.stored)
    marked = All-executed r.intent_hash x.executed_hashes (forwards x.stored) once.executed

    absent : contains r.intent_hash (forwards x.stored) ≡ false
    absent = not_contains r.intent_hash x.executed_hashes (forwards x.stored) once.executed new

    self : contains r.intent_hash (r.intent_hash ∷ x.executed_hashes) ≡ true
    self = rw (eq_refl r.intent_hash) refl

    go :
        (client : Option (ExecutionRecord → Bool))
        → x.evidence ≡ client
        → IsOnce
            (persist_record r (record x { executed_hashes = r.intent_hash ∷ x.executed_hashes }))
    go none e = rw (e, persist_record) (record { distinct = once.distinct; executed = marked })
    go (some put) e = elim (Bool-cases (put r)) [
      | inl taken ↦
          rw (e, persist_record)
            (rw taken (record {
              distinct =
                  rw (filter-snoc x.stored r forward) (IsDistinct-snoc _ _ once.distinct absent);
              executed =
                  rw (filter-snoc x.stored r forward)
                    (All-append _ (forwards x.stored) _ marked (self, tt));
            }))
      | inr refused ↦
          rw (e, persist_record)
            (rw refused (record { distinct = once.distinct; executed = marked }))
    ]

compensation-IsOnce :
    (x : Executor) (r : ExecutionRecord)
    → IsOnce x
    → r.is_compensation ≡ true
    → IsOnce (persist_record r x)
unfolding persist_record
compensation-IsOnce x r once back = go x.evidence refl
  where
    go :
        (client : Option (ExecutionRecord → Bool))
        → x.evidence ≡ client
        → IsOnce (persist_record r x)
    go none e = rw (e, persist_record) once
    go (some put) e = elim (Bool-cases (put r)) [
      | inl taken ↦
          rw (e, persist_record)
            (rw taken (record {
              distinct = rw (filter-snoc_compensation x.stored r back) once.distinct;
              executed = rw (filter-snoc_compensation x.stored r back) once.executed;
            }))
      | inr refused ↦ rw (e, persist_record) (rw refused once)
    ]

-- Every call of `execute` and of `compensate` keeps this: the store holds at most one forward
-- record for each hash, and each hash that has one counts as executed.
pub execute-compensate-IsOnce :
    (kubeconfig : Option String) (intent : ActionIntent) (x : Executor) (s : Supply)
    → IsOnce x
    → IsOnce (execute kubeconfig intent x s).0.2 × IsOnce (compensate kubeconfig intent x s).0.2
unfolding execute compensate
execute-compensate-IsOnce kubeconfig intent x s once = (
  elim (Bool-cases (contains intent.hash x.executed_hashes)) [
    | inl old ↦ rw (old, execute) once
    | inr new ↦ rw (new, execute) (persist-IsOnce x _ once refl new)
  ],
  compensation-IsOnce x _ once refl,
)

-- A new executor has it, whatever was executed before.
pub new_executor-IsOnce :
    (client : Option (ExecutionRecord → Bool)) (already : List String)
    → IsOnce (new_executor client already)
unfolding new_executor
new_executor-IsOnce client already = record { distinct = tt; executed = tt }

-- `execute` reports a skip exactly for a hash that was executed before; a skip leaves the executor
-- as it was, and a call that is no skip adds the hash. The action succeeds either way and names
-- the intent, and the record says that the run was dry.
pub execute_lem :
    (kubeconfig : Option String) (intent : ActionIntent) (x : Executor) (s : Supply)
    → ((contains intent.hash x.executed_hashes ≡ true)
          × ((execute kubeconfig intent x s).0.0.outcome ≡ "skipped_idempotent")
          × ((execute kubeconfig intent x s).0.2 ≡ x)
        ⊎ ((contains intent.hash x.executed_hashes ≡ false)
            × ((execute kubeconfig intent x s).0.0.outcome ≡ "dry_run_success")
            × ((execute kubeconfig intent x s).0.2.executed_hashes
                ≡ intent.hash ∷ x.executed_hashes)))
      × ((execute kubeconfig intent x s).0.1.status ≡ ActionStatus.succeeded)
      × ((execute kubeconfig intent x s).0.1.intent_hash ≡ some intent.hash)
      × ((execute kubeconfig intent x s).0.0.dry_run ≡ true)
unfolding execute
execute_lem kubeconfig intent x s = elim (Bool-cases (contains intent.hash x.executed_hashes)) [
  | inl old ↦ rw (old, execute) (inl (refl, refl, refl), refl, refl, refl)
  | inr new ↦ rw (new, execute) (inr (refl, refl, ground arith), refl, refl, refl)
]
