-- ===== src/Examples/Signing.antt =====
-- The theorems on signed intents at a concrete intent.
use alph_e.Common.{Any, none, some, ◌↔◌, ◌≡◌, refl, true, [], ◌∷◌, List, ok, show_ℕ}
use alph_e.Schemas.{ActionIntent, ParamValue}
use alph_e.Security.{verify, sign, compute_intent_hash, canonical}
use alph_e.Security.Tampering.{IsSameAction, verify_tampered_iff}
use alph_e.Coordinator.Executor.{execute, new_executor}
use alph_e.Coordinator.Executor.Same.{execute_all, execute_all-skips_iff}
use alph_e.Samples.{scale, rollback, supply, toy}

abbrev resized : ActionIntent
resized = sign toy tt (record scale {
  parameters = ("replicas", ParamValue.plus 3) ∷ ("force", ParamValue.flag true) ∷ [];
})

-- the same intent with its parameters in another order
abbrev reordered : ActionIntent
reordered = record resized {
  parameters = ("force", ParamValue.flag true) ∷ ("replicas", ParamValue.plus 3) ∷ [];
}

verify_tampered_iff_example : (verify toy tt reordered ≡ ok true) ↔ IsSameAction resized reordered
unfolding verify sign compute_intent_hash canonical show_ℕ
verify_tampered_iff_example =
    verify_tampered_iff toy tt resized reordered (λ e. e) (refl, (refl, tt)) refl refl refl

abbrev executed : List ActionIntent
executed = sign toy tt rollback ∷ resized ∷ []

execute_all-skips_iff_example :
    ((execute none reordered
        (execute_all none executed (new_executor (some (λ r. true)) []) supply).0
        supply).0.0.outcome
      ≡ "skipped_idempotent")
    ↔ Any (IsSameAction reordered) executed
unfolding verify sign compute_intent_hash canonical show_ℕ
execute_all-skips_iff_example =
    execute_all-skips_iff toy tt reordered none (some (λ r. true)) executed supply supply
      (refl, (refl, tt)) ((λ e. e), ((λ e. e), tt)) refl (refl, (refl, tt))

canonical_test :
    canonical "scale" "k8s:x" (("b", ParamValue.flag true) ∷ ("a", ParamValue.plus 3) ∷ []) "é" ""
    ≡ "{\"action_type\":\"scale\",\"expected_effect\":\"\\u00e9\",\"parameters\":{\"a\":3,\"b\":true},\"rollback_hint\":\"\",\"target\":\"k8s:x\"}"
unfolding canonical show_ℕ
canonical_test = refl
