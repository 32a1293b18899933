-- ===== src/Coordinator/Executor/Same.antt =====
-- The executor after a list of signed intents: which later ones it skips, where the coordinator
-- verifies an intent before it calls `execute`.
use alph_e.Common.{
  IsDistinct, String, ◌≡◌, ◌↔◌, sym, ap, ◌∙◌, Option, true, Bool, ok, List, [], ◌∷◌, ◌||◌, map,
  contains, contains-Elem, Elem, All, Any, Io, pure, ◌>>=◌, Supply, arith, inl, inr, eq_iff,
}
use alph_e.Schemas.{ActionIntent}
use alph_e.Security.{Crypto, verify, compute_intent_hash}
use alph_e.Security.Laws.{verify_iff}
use alph_e.Security.Tampering.{keys, IsSameAction, IsFree, canonical_of_iff, verify-same_hash}
use alph_e.Coordinator.Executor.{ExecutionRecord, Executor, execute, new_executor}
use alph_e.Coordinator.Executor.Once.{execute_lem}

-- The intents one after another.
unfoldable pub execute_all : Option String → List ActionIntent → Executor → Io Executor
execute_all kubeconfig [] x = pure x
execute_all kubeconfig (i ∷ rest) x = do
  (_, _, x') ← execute kubeconfig i x
  execute_all kubeconfig rest x'

execute-skipped_iff :
    (kubeconfig : Option String) (j : ActionIntent) (x : Executor) (t : Supply)
    → ((execute kubeconfig j x t).0.0.outcome ≡ "skipped_idempotent")
      ↔ (contains j.hash x.executed_hashes ≡ true)
execute-skipped_iff kubeconfig j x t = elim (execute_lem kubeconfig j x t).0 [
  | inl (old, skipped, _) ↦ (λ e. old, λ e. skipped)
  | inr (new, ran, _) ↦
      rw (ran, new) (ground (arith, eq_iff "dry_run_success" "skipped_idempotent"))
]

contains-execute :
    (h : String) (kubeconfig : Option String) (i : ActionIntent) (x : Executor) (s : Supply)
    → contains h (execute kubeconfig i x s).0.2.executed_hashes
      ≡ (contains h x.executed_hashes || contains h (i.hash ∷ []))
contains-execute h kubeconfig i x s = elim (execute_lem kubeconfig i x s).0 [
  | inl (old, _, kept) ↦ rw kept (ground (arith, eq_iff i.hash h))
  | inr (_, _, added) ↦ rw added (ground arith)
]

contains-execute_all :
    (h : String) (kubeconfig : Option String) (done : List ActionIntent) (x : Executor) (s : Supply)
    → contains h (execute_all kubeconfig done x s).0.executed_hashes
      ≡ (contains h x.executed_hashes || contains h (map (λ i. i.hash) done))
unfolding execute_all
contains-execute_all h kubeconfig [] x s = ground arith
contains-execute_all h kubeconfig (i ∷ rest) x s =
    let ((_, _, x'), s') = execute kubeconfig i x s in
    ground
      (arith, contains-execute h kubeconfig i x s, contains-execute_all h kubeconfig rest x' s')

-- the intents of the list that carry the hash
Elem-hash :
    (h : String) (done : List ActionIntent)
    → Elem h (map (λ i. i.hash) done) ↔ Any (λ i. i.hash ≡ h) done
Elem-hash h [] = (λ e. e, λ e. e)
Elem-hash h (i ∷ rest) = ground (arith, Elem-hash h rest)

module _ (crypto : Crypto) (key : crypto.PublicKey) (j : ActionIntent) where
  same_hash_iff :
      (i : ActionIntent)
      → IsFree crypto j i
      → IsDistinct (keys j.parameters)
      → verify crypto key j ≡ ok true
      → verify crypto key i ≡ ok true
      → (i.hash ≡ j.hash) ↔ IsSameAction j i
  unfolding compute_intent_hash
  same_hash_iff i free distinct vj vi = (
    λ e. verify-same_hash crypto key key j i free distinct vj vi (sym e),
    λ same.
        ((verify_iff crypto key i).0 vi).0
        ∙ (ap crypto.sha256 (sym ((canonical_of_iff j i distinct).1 same))
            ∙ sym ((verify_iff crypto key j).0 vj).0),
  )

  Any-same :
      (done : List ActionIntent)
      → All (λ i. verify crypto key i ≡ ok true) done
      → All (IsFree crypto j) done
      → verify crypto key j ≡ ok true
      → IsDistinct (keys j.parameters)
      → Any (λ i. i.hash ≡ j.hash) done ↔ Any (IsSameAction j) done
  Any-same [] vs free vj distinct = (λ e. e, λ e. e)
  Any-same (i ∷ rest) vs free vj distinct =
      ground (arith, same_hash_iff i free.0 distinct vj vs.0, Any-same rest vs.1 free.1 vj distinct)

  -- After a new executor has executed verified intents in any number and order, it skips a further
  -- verified intent, whose parameters have different names, exactly if one of those was the same
  -- action, provided that SHA-256 does not collide on its canonical text and theirs.
  pub execute_all-skips_iff :
      (kubeconfig : Option String) (client : Option (ExecutionRecord → Bool))
      (done : List ActionIntent) (s t : Supply)
      → All (λ i. verify crypto key i ≡ ok true) done
      → All (IsFree crypto j) done
      → verify crypto key j ≡ ok true
      → IsDistinct (keys j.parameters)
      → ((execute kubeconfig j
            (execute_all kubeconfig done (new_executor client []) s).0
            t).0.0.outcome
          ≡ "skipped_idempotent")
        ↔ Any (IsSameAction j) done
  unfolding new_executor
  execute_all-skips_iff kubeconfig client done s t vs free vj distinct =
      let x = (execute_all kubeconfig done (new_executor client []) s).0 in
      ground (
        arith,
        execute-skipped_iff kubeconfig j x t,
        contains-execute_all j.hash kubeconfig done (new_executor client []) s,
        contains-Elem j.hash (map (λ i. i.hash) done),
        Elem-hash j.hash done,
        Any-same done vs free vj distinct,
      )
