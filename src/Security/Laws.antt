-- ===== src/Security/Laws.antt =====
-- What a verified intent guarantees.
use text.Mathlib.TextPositions.{eq_refl}
use alph_e.Common.{ℕ, String, ◌≡◌, ◌↔◌, none, List, true, ok, arith, eq_iff}
use alph_e.Schemas.{ActionIntent}
use alph_e.Security.{Crypto, verify, sign, hash_of, checked}

-- The documented behaviour of the key pair and of base64: decoding undoes the encoding of a
-- signature, and the public key accepts what the private key has signed.
pub record IsKeyPair (crypto : Crypto) (private : crypto.PrivateKey) (public : crypto.PublicKey)
    : Type 0 where
  pub decode-encode :
      (message : String)
      → crypto.b64decode (crypto.b64encode (crypto.sign_bytes private message))
        ≡ ok (crypto.sign_bytes private message)
  pub verify-sign :
      (message : String)
      → crypto.verify_bytes public (crypto.sign_bytes private message) message ≡ none

module _ (crypto : Crypto) where
  -- Whatever the planner's key has signed, the public key of the pair verifies.
  pub verify-sign :
      (private : crypto.PrivateKey) (public : crypto.PublicKey)
      → IsKeyPair crypto private public
      → (intent : ActionIntent) → verify crypto public (sign crypto private intent) ≡ ok true
  unfolding verify sign checked
  verify-sign private public pair intent = simp (eq_refl, pair.decode-encode, pair.verify-sign)

  -- `verify` accepts an intent exactly when its stored hash is the hash of its fields and its
  -- signature decodes to bytes that the public key accepts for that hash.
  pub verify_iff :
      (key : crypto.PublicKey) (intent : ActionIntent)
      → (verify crypto key intent ≡ ok true) ↔ (
          (intent.hash ≡ hash_of crypto intent)
          × ((raw : List ℕ) × (crypto.b64decode intent.signature ≡ ok raw)
              × (crypto.verify_bytes key raw intent.hash ≡ none)))
  unfolding verify checked
  verify_iff key intent = ground (arith, eq_iff intent.hash (hash_of crypto intent))
