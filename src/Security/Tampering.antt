-- ===== src/Security/Tampering.antt =====
-- What the hash of a verified intent fixes: compute_intent_hash of security/action_intent.py,
-- taken with the canonical text that it hashes.
use mathlib.Core.List.{Perm}
use alph_e.Common.{
  String, ◌≡◌, ◌↔◌, refl, sym, ap, ◌∙◌, Option, some, ok, true, IsDistinct, ◌==◌, if◌then◌else◌,
}
use mathlib.Core.Option.{some-injective}
use alph_e.Schemas.{ActionIntent, ActionType, action_type_name}
use alph_e.Security.{Crypto, verify, compute_intent_hash, canonical}
use alph_e.Security.Canonical.Injective.{canonical-injective}
pub use alph_e.Security.Canonical.Order.{keys}
use alph_e.Security.Canonical.Order.{canonical-Perm}
use alph_e.Security.Laws.{verify_iff}

-- The text that the hash of an intent is taken of.
abbrev pub canonical_of : ActionIntent → String
canonical_of i =
    canonical (action_type_name i.action_type) i.target i.parameters i.expected_effect
      i.rollback_hint

-- The same action: the parameters as the entries of a dictionary, in any order.
pub record IsSameAction (i j : ActionIntent) : Type 0 where
  pub action_type : i.action_type ≡ j.action_type
  pub target : i.target ≡ j.target
  pub parameters : Perm i.parameters j.parameters
  pub expected_effect : i.expected_effect ≡ j.expected_effect
  pub rollback_hint : i.rollback_hint ≡ j.rollback_hint

type_of_name : String → Option ActionType
type_of_name s =
    if s == "query"
    then some ActionType.query
    else if s == "fix_attempt"
    then some ActionType.fix_attempt
    else if s == "rollback"
    then some ActionType.rollback
    else if s == "scale"
    then some ActionType.scale
    else if s == "flag_flip"
    then some ActionType.flag_flip
    else if s == "notification"
    then some ActionType.notification
    else some ActionType.no_op

type_of_name-action_type_name : (a : ActionType) → type_of_name (action_type_name a) ≡ some a
unfolding type_of_name
type_of_name-action_type_name ActionType.query = refl
type_of_name-action_type_name _ = refl

action_type_name-injective : (a b : ActionType) → action_type_name a ≡ action_type_name b → a ≡ b
action_type_name-injective a b e =
    some-injective _ _ (
      sym (type_of_name-action_type_name a) ∙ (ap type_of_name e ∙ type_of_name-action_type_name b))

-- Two intents have the same canonical text exactly when they are the same action.
pub canonical_of_iff :
    (i j : ActionIntent)
    → IsDistinct (keys i.parameters)
    → (canonical_of i ≡ canonical_of j) ↔ IsSameAction i j
canonical_of_iff i j distinct = (forth, back)
  where
    forth : canonical_of i ≡ canonical_of j → IsSameAction i j
    forth e =
        let (types, targets, parameters, effects, hints) =
          canonical-injective _ _ _ _ _ _ _ _ _ _ e in
        record {
          action_type = action_type_name-injective i.action_type j.action_type types;
          target = targets;
          parameters = parameters;
          expected_effect = effects;
          rollback_hint = hints;
        }

    back : IsSameAction i j → canonical_of i ≡ canonical_of j
    back same =
        canonical-Perm (action_type_name i.action_type) i.target i.expected_effect i.rollback_hint
          i.parameters j.parameters same.parameters distinct
        ∙ (λ n.
            canonical (action_type_name (same.action_type n)) (same.target n) j.parameters
              (same.expected_effect n) (same.rollback_hint n))

module _ (crypto : Crypto) where
  -- SHA-256 does not collide on the canonical texts of two intents.
  abbrev pub IsFree : ActionIntent → ActionIntent → Type 0
  IsFree i j =
      crypto.sha256 (canonical_of i) ≡ crypto.sha256 (canonical_of j)
      → canonical_of i ≡ canonical_of j

  -- Two intents of one hash that both verify are the same action.
  pub verify-same_hash :
      (key key' : crypto.PublicKey) (i j : ActionIntent)
      → IsFree i j
      → IsDistinct (keys i.parameters)
      → verify crypto key i ≡ ok true
      → verify crypto key' j ≡ ok true
      → i.hash ≡ j.hash
      → IsSameAction i j
  unfolding compute_intent_hash
  verify-same_hash key key' i j free distinct vi vj same =
      let hash_i = ((verify_iff crypto key i).0 vi).0 in
      let hash_j = ((verify_iff crypto key' j).0 vj).0 in
      (canonical_of_iff i j distinct).0 (free (sym hash_i ∙ (same ∙ hash_j)))

  -- Let an intent be verified, its parameters have different names, and SHA-256 not collide on its
  -- canonical text and that of a second intent that carries the same hash and the same signature.
  -- The second one is verified exactly if it has the same action type, target, expected effect and
  -- rollback hint, and the same parameters in any order.
  pub verify_tampered_iff :
      (key : crypto.PublicKey) (i j : ActionIntent)
      → IsFree i j
      → IsDistinct (keys i.parameters)
      → verify crypto key i ≡ ok true
      → i.hash ≡ j.hash
      → i.signature ≡ j.signature
      → (verify crypto key j ≡ ok true) ↔ IsSameAction i j
  unfolding compute_intent_hash
  verify_tampered_iff key i j free distinct vi same_hash same_signature =
      (λ vj. verify-same_hash key key i j free distinct vi vj same_hash, back)
    where
      back : IsSameAction i j → verify crypto key j ≡ ok true
      back same =
          let (hash_i, (raw, decoded, accepted)) = (verify_iff crypto key i).0 vi in
          let texts = (canonical_of_iff i j distinct).1 same in
          (verify_iff crypto key j).1 (
            sym same_hash ∙ (hash_i ∙ ap crypto.sha256 texts),
            (
              raw,
              ap crypto.b64decode (sym same_signature) ∙ decoded,
              ap (crypto.verify_bytes key raw) (sym same_hash) ∙ accepted,
            ),
          )
