-- ===== src/Security.antt =====
-- agent/src/agent/security/action_intent.py: signing and verifying an `ActionIntent`.
-- SHA-256, Ed25519 and base64 are parameters; the canonical JSON text is in Canonical.
mod Canonical
pub mod Laws
pub mod Tampering
unfoldable pub use Canonical.{canonical}
use alph_e.Common.{
  ℕ, String, ◌==◌, ◌≡◌, none, some, Option, List, Bool, true, Result, ok, err, truthy, repr,
  if◌then◌else◌,
}
use alph_e.Schemas.{ActionIntent, ActionType, Params, action_type_name}
use Prim.Native.String.{◌++◌}

-- What the module takes from `hashlib`, `base64` and `cryptography`. A key is what the loader of
-- PEM texts gives; an error is the text of the exception.
pub record Crypto : Type 1 where
  pub PrivateKey : Type 0
  pub PublicKey : Type 0
  pub sha256 : String → String
  pub load_private_key : String → Result String PrivateKey
  pub load_public_key : String → Result String PublicKey
  pub sign_bytes : PrivateKey → String → List ℕ
  pub verify_bytes : PublicKey → List ℕ → String → Option String
  pub b64encode : List ℕ → String
  pub b64decode : String → Result String (List ℕ)

-- `RuntimeError`, or what the loader raises
pub data KeyError : Type 0 where
  env_not_set : String → KeyError
  bad_key : String → KeyError

-- what `verify` answers for a decoded signature, from the answer of the public key
checked : Option String → Result String Bool
checked none = ok true
checked (some exc) = err ("Ed25519 signature verification failed: " ++ exc)

module _ (crypto : Crypto) where
  open crypto use {
    PrivateKey, PublicKey, sha256, load_private_key, load_public_key, sign_bytes, verify_bytes,
    b64encode, b64decode,
  }

  unfoldable pub compute_intent_hash : ActionType → String → Params → String → String → String
  compute_intent_hash action_type target parameters expected_effect rollback_hint =
      sha256
        (canonical (action_type_name action_type) target parameters expected_effect rollback_hint)

  -- the hash recomputed from the fields of an intent
  abbrev pub hash_of : ActionIntent → String
  hash_of i =
      compute_intent_hash i.action_type i.target i.parameters i.expected_effect i.rollback_hint

  -- `Signer.__init__`; `none` is a variable that is not set
  unfoldable pub new_signer : Option String → Result KeyError PrivateKey
  new_signer none = err (env_not_set "PLANNER_SIGNING_KEY")
  new_signer (some pem) =
      if truthy pem
      then elim (load_private_key pem) [ ok k ↦ ok k | err e ↦ err (bad_key e) ]
      else err (env_not_set "PLANNER_SIGNING_KEY")

  -- `Signer.sign`
  unfoldable pub sign : PrivateKey → ActionIntent → ActionIntent
  sign key intent =
      let intent_hash = hash_of intent in
      record intent { hash = intent_hash; signature = b64encode (sign_bytes key intent_hash) }

  -- `Verifier.__init__`
  unfoldable pub new_verifier : Option String → Result KeyError PublicKey
  new_verifier none = err (env_not_set "PLANNER_VERIFY_KEY")
  new_verifier (some pem) =
      if truthy pem
      then elim (load_public_key pem) [ ok k ↦ ok k | err e ↦ err (bad_key e) ]
      else err (env_not_set "PLANNER_VERIFY_KEY")

  -- `Verifier.verify`; an error is the text of `IntentVerificationError`
  unfoldable pub verify : PublicKey → ActionIntent → Result String Bool
  unfolding checked
  verify key intent =
      let expected = hash_of intent in
      if intent.hash == expected
      then elim (b64decode intent.signature) [
        | ok raw ↦ checked (verify_bytes key raw intent.hash)
        | err exc ↦ err ("Ed25519 signature verification failed: " ++ exc)
      ]
      else err (
          "Intent hash mismatch: stored="
          ++ (repr intent.hash
              ++ (", computed=" ++ (repr expected ++ ". The intent may have been tampered with."))))
