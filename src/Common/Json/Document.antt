-- ===== src/Common/Json/Document.antt =====
-- Values in JSON, and `json.dumps(value, indent=2)`. A float is written by a function that is an
-- argument, since its shortest text is no part of the model.
use Prim.Native.Nat.{ℕ, zero, suc}
use Prim.Native.String.{String, ◌++◌}
use mathlib.Core.List.{List, [], ◌∷◌}
use mathlib.Core.Path.{◌≡◌, refl}
use alph_e.Common.Format.{show_ℕ}
use alph_e.Common.Json.{json_text}

-- What `json.dumps` is called with. `Elements` is a list of values, `Members` one of named values.
mutual
  pub data Elements : Type 0 where
    no_elements : Elements
    element : Value → Elements → Elements

  pub data Members : Type 0 where
    no_members : Members
    member : String → Value → Members → Members

  pub data Value : Type 0 where
    object : Members → Value
    array : Elements → Value
    text : String → Value
    number float : ℕ → Value
    null : Value

unfoldable pub spaces : ℕ → String
spaces zero = ""
spaces (suc n) = "  " ++ spaces n

-- a new line at so many levels
unfoldable pub new_line : ℕ → String
unfolding spaces
new_line level = "\n" ++ spaces level

module _ (float_text : ℕ → String) where
  unfoldable mutual
    unfolding new_line json_text show_ℕ

    pub dumps : ℕ → Value → String
    dumps level null = "null"
    dumps level (text s) = json_text s
    dumps level (number n) = show_ℕ n
    dumps level (float x) = float_text x
    dumps level (array no_elements) = "[]"
    dumps level (array (element v vs)) =
        "["
        ++ (new_line (suc level)
            ++ (dumps (suc level) v ++ (dump_items (suc level) vs ++ (new_line level ++ "]"))))
    dumps level (object no_members) = "{}"
    dumps level (object (member k v vs)) =
        "{"
        ++ (new_line (suc level)
            ++ (json_text k
                ++ (": "
                    ++ (dumps (suc level) v
                        ++ (dump_fields (suc level) vs ++ (new_line level ++ "}"))))))

    -- the items after the first
    pub dump_items : ℕ → Elements → String
    dump_items level no_elements = ""
    dump_items level (element v vs) =
        "," ++ (new_line level ++ (dumps level v ++ dump_items level vs))

    -- the fields after the first
    pub dump_fields : ℕ → Members → String
    dump_fields level no_members = ""
    dump_fields level (member k v vs) =
        ","
        ++ (new_line level ++ (json_text k ++ (": " ++ (dumps level v ++ dump_fields level vs))))

-- an array of what a function gives for each member
unfoldable pub each {ℓ} : {A : Type ℓ} → (A → Value) → List A → Elements
each f [] = no_elements
each f (x ∷ xs) = element (f x) (each f xs)

-- a dictionary, in the order of its keys
unfoldable pub fields_of : List (String × Value) → Members
fields_of [] = no_members
fields_of ((k, v) ∷ rest) = member k v (fields_of rest)

abbrev pub object_of : List (String × Value) → Value
object_of entries = object (fields_of entries)

abbrev pub array_of {ℓ} : {A : Type ℓ} → (A → Value) → List A → Value
array_of f xs = array (each f xs)

dumps_test :
    dumps show_ℕ 0 (
      object (
        member "a"
          (array (element (number 1) (element null no_elements)))
          (member "b" (array no_elements) no_members)))
    ≡ "{\n  \"a\": [\n    1,\n    null\n  ],\n  \"b\": []\n}"
unfolding dumps
dumps_test = refl
