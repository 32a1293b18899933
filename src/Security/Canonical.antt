-- ===== src/Security/Canonical.antt =====
-- The canonical JSON of `compute_intent_hash`: `json.dumps` with sorted keys, no blanks and
-- `ensure_ascii`. The keys of the payload stand in their sorted order.
pub mod Injective
pub mod Order
use Prim.Native.String.{compare, ◌++◌}
use text.Mathlib.Text.{is_lt}
use alph_e.Common.{suc, String, json_text, [], ◌∷◌, true, false, show_ℕ, if◌then◌else◌}
use alph_e.Schemas.{Params, ParamValue}

json_value : ParamValue → String
unfolding json_text
json_value (ParamValue.text s) = json_text s
json_value (ParamValue.plus n) = show_ℕ n
json_value (ParamValue.minus n) = "-" ++ show_ℕ (suc n)
json_value (ParamValue.flag true) = "true"
json_value (ParamValue.flag false) = "false"

-- `sort_keys`: by code points
insert_key : String → ParamValue → Params → Params
insert_key k v [] = (k, v) ∷ []
insert_key k v ((j, w) ∷ rest) =
    if is_lt (compare j k) then (j, w) ∷ insert_key k v rest else (k, v) ∷ (j, w) ∷ rest

sort_keys : Params → Params
unfolding insert_key
sort_keys [] = []
sort_keys ((k, v) ∷ rest) = insert_key k v (sort_keys rest)

json_items : Params → String
unfolding json_text json_value
json_items [] = ""
json_items ((k, v) ∷ []) = json_text k ++ (":" ++ json_value v)
json_items ((k, v) ∷ rest) = json_text k ++ (":" ++ (json_value v ++ ("," ++ json_items rest)))

unfoldable pub canonical : String → String → Params → String → String → String
unfolding sort_keys json_items json_text
canonical action_type target parameters expected_effect rollback_hint =
    "{\"action_type\":"
    ++ (json_text action_type
        ++ (",\"expected_effect\":"
            ++ (json_text expected_effect
                ++ (",\"parameters\":{"
                    ++ (json_items (sort_keys parameters)
                        ++ ("},\"rollback_hint\":"
                            ++ (json_text rollback_hint
                                ++ (",\"target\":" ++ (json_text target ++ "}")))))))))
