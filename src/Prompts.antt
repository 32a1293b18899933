-- ===== src/Prompts.antt =====
-- agent/src/agent/prompts/loader.py: the prompts of the roles, read once. The files of the directory are
-- an argument, by their names, and so is SHA-256.
pub mod Load
use Prim.Native.String.{[], ◌∷◌}
use alph_e.Common.{
  String, ◌<>◌, ◌==◌, ◌≡◌, refl, Option, none, some, List, Assoc, lookup, insert, Result, ok, err,
  truthy, if◌then◌else◌,
}

-- `PromptBundle`
pub record PromptBundle : Type 0 where
  pub system_prefix : String
  pub role_prompt : String
  pub cache_key : String

-- the module's variables
pub record Prompts : Type 0 where
  pub system_prefix : String
  pub system_cache_key : String
  pub role_cache : Assoc String

prepend : String → Option String → Option String
prepend s none = none
prepend s (some t) = some (s <> t)

-- what stands before the suffix `.md` of a name that has it
unfoldable pub without_md : String → Option String
unfolding prepend
without_md [] = none
without_md (c ∷ s) =
    let rest = without_md s in if (c ∷ s) == ".md" then some "" else prepend (c ∷ []) rest

-- the `stem` of a path, from what stands before the suffix; `none` for the shared prompt
unfoldable pub key_of : String → Option String → Option String
key_of name none = none
key_of name (some base) =
    let stem = if truthy base then base else name in if stem == "system" then none else some stem

-- The key for a file of `glob("*.md")`; `none` for the files left out.
unfoldable pub role_of : String → Option String
unfolding without_md key_of
role_of name = key_of name (without_md name)

keep : Option String → String → Assoc String → Assoc String
keep none content cache = cache
keep (some role) content cache = insert role content cache

-- the value of the dictionary for the files, from `cache` on
unfoldable pub read_roles : Assoc String → List (String × String) → Assoc String
unfolding role_of keep
read_roles cache List.[] = cache
read_roles cache (List.◌∷◌ (name, content) rest) =
    read_roles (keep (role_of name) content cache) rest

module _ (sha256 : String → String) where
  -- the body of the module; an error is the name of the file that is not there
  unfoldable pub read_prompts : List (String × String) → Result String Prompts
  unfolding read_roles
  read_prompts files = elim (lookup "system.md" files) [
    | none ↦ err "system.md"
    | some system ↦ ok (record {
      system_prefix = system;
      system_cache_key = sha256 system;
      role_cache = read_roles List.[] files;
    })
  ]

-- `load`; an error is the text of `PromptNotFoundError`
unfoldable pub load : Prompts → String → Result String PromptBundle
load prompts role = elim (lookup role prompts.role_cache) [
  | none ↦ err ("No prompt file found for role '" <> role <> "' (expected " <> role <> ".md)")
  | some role_prompt ↦ ok (record {
    system_prefix = prompts.system_prefix;
    role_prompt = role_prompt;
    cache_key = prompts.system_cache_key;
  })
]

-- the system prompt that the nodes make of a bundle
unfoldable pub system_prompt : PromptBundle → String
system_prompt bundle = bundle.system_prefix <> "\n\n" <> bundle.role_prompt

role_of_test : role_of "planner.md" ≡ some "planner"
unfolding role_of truthy
role_of_test = refl
