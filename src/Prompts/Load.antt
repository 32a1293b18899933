-- ===== src/Prompts/Load.antt =====
-- What `load` gives for a role: the file of the role, and the shared prefix with its key.
use Prim.Native.String.{[], ◌∷◌, ◌++◌, count}
use Prim.Native.Char.{Char}
use mathlib.Core.Path.{subst}
use mathlib.Core.Option.{some-injective, none-ne-some}
use text.Mathlib.TextLemmas.{cons-append, nil-append, length-append, tail-eq_of_cons-eq}
use alph_e.Common.{
  String, ◌<>◌, ◌==◌, ◌≡◌, refl, sym, ap, ◌∙◌, Option, none, some, List, true, false, Bool-cases,
  inl, inr, arith, eq_iff, Assoc, lookup, lookup-insert, Result, ok, err, truthy, if◌then◌else◌,
  IsDistinct, contains, map,
}
use alph_e.Prompts.{
  Prompts, PromptBundle, without_md, prepend, role_of, key_of, keep, read_roles, read_prompts, load,
}

one : (c : Char) (s : String) → (c ∷ []) ++ s ≡ c ∷ s
one c s = cons-append c [] s ∙ ap (λ t. c ∷ t) (nil-append s)

-- a longer name is not the suffix alone
longer : (c : Char) (b : String) → ((c ∷ (b ++ ".md")) == ".md") ≡ false
longer c b = elim (Bool-cases ((c ∷ (b ++ ".md")) == ".md")) [
  | inr h ↦ h
  | inl h ↦
      let same = ap count (tail-eq_of_cons-eq ((eq_iff (c ∷ (b ++ ".md")) ".md").0 h)) in
      absurd (omega (arith, same, length-append b ".md"))
]

without_md-append : (b : String) → without_md (b ++ ".md") ≡ some b
unfolding without_md prepend
without_md-append [] = refl
without_md-append (c ∷ b) =
    ap without_md (cons-append c b ".md") ∙ rw (longer c b, without_md-append b) (ap some (one c b))

append_of_without_md : (n b : String) → without_md n ≡ some b → n ≡ b ++ ".md"
unfolding without_md prepend
append_of_without_md [] b h = cc
append_of_without_md (c ∷ n) b h = elim (Bool-cases ((c ∷ n) == ".md")) [
  | inl e ↦
      let whole = (eq_iff (c ∷ n) ".md").0 e in
      let empty : "" ≡ b = some-injective _ _ (rw (e, without_md) at h) in
      whole ∙ ap (λ t. t ++ ".md") empty
  | inr e ↦ go (append_of_without_md n) (without_md n) refl (rw (e, without_md) at h)
]
  where
    go :
        ((t : String) → without_md n ≡ some t → n ≡ t ++ ".md")
        → (r : Option String) → without_md n ≡ r
        → prepend (c ∷ []) r ≡ some b
        → c ∷ n ≡ b ++ ".md"
    go again none q k = cc
    go again (some t) q k =
        ap (λ m. c ∷ m) (again t q)
        ∙ (sym (cons-append c t ".md")
            ∙ ap (λ m. m ++ ".md") (sym (one c t) ∙ some-injective _ _ k))

-- The roles that `load` can find: not the shared prompt, and not a name that a suffix alone makes.
pub record IsRole (role : String) : Type 0 where
  pub named : truthy role ≡ true
  pub shared : (role == "system") ≡ false
  pub suffix : (role == ".md") ≡ false

role_of-append : (role : String) → IsRole role → role_of (role ++ ".md") ≡ some role
unfolding role_of key_of
role_of-append role is =
    ap (key_of (role ++ ".md")) (without_md-append role) ∙ rw (is.named, is.shared) refl

append_of_key_of :
    (name base role : String)
    → IsRole role
    → name ≡ base ++ ".md"
    → key_of name (some base) ≡ some role
    → name ≡ role ++ ".md"
unfolding key_of truthy
append_of_key_of name base role is e h = elim (Bool-cases (base == "")) [
  | inl empty ↦
      let suffix : name ≡ ".md" = e ∙ ap (λ b. b ++ ".md") ((eq_iff base "").0 empty) in
      absurd (ground (arith, h, empty, suffix, is.suffix, eq_iff role ".md"))
  | inr named ↦ e ∙ ap (λ b. b ++ ".md") (ground (arith, h, named))
]

append_of_role_of :
    (name role : String) → IsRole role → role_of name ≡ some role → name ≡ role ++ ".md"
unfolding role_of
append_of_role_of name role is h = go (without_md name) refl
  where
    go : (r : Option String) → without_md name ≡ r → name ≡ role ++ ".md"
    go none q = absurd (none-ne-some role (sym (ap (key_of name) q) ∙ h))
    go (some base) q =
        append_of_key_of name base role is (append_of_without_md name base q)
          (sym (ap (key_of name) q) ∙ h)

abbrev pub names : List (String × String) → List String
names = map (λ file. file.0)

-- the content that was found, else what the cache had
or_old : Option String → Option String → Option String
or_old none old = old
or_old (some content) old = some content

lookup_absent :
    (key : String) (files : List (String × String))
    → contains key (names files) ≡ false
    → lookup key files ≡ none
unfolding lookup
lookup_absent key List.[] h = refl
lookup_absent key (List.◌∷◌ (name, content) rest) h = ground (arith, h, lookup_absent key rest)

-- A file with another name leaves the role's entry alone.
keep_other :
    (role name content : String) (cache : Assoc String) (r : Option String)
    → IsRole role
    → role_of name ≡ r
    → (name == (role ++ ".md")) ≡ false
    → lookup role (keep r content cache) ≡ lookup role cache
unfolding keep
keep_other role name content cache none is q other = refl
keep_other role name content cache (some r) is q other = elim (Bool-cases (r == role)) [
  | inr h ↦ lookup-insert r role content cache ∙ rw h refl
  | inl h ↦
      let found : role_of name ≡ some role = q ∙ ap some ((eq_iff r role).0 h) in
      let same = append_of_role_of name role is found in
      absurd (ground (arith, other, eq_iff name (role ++ ".md"), same))
]

lookup-read_roles :
    (role : String) (cache : Assoc String) (files : List (String × String))
    → IsRole role
    → IsDistinct (names files)
    → lookup role (read_roles cache files)
      ≡ or_old (lookup (role ++ ".md") files) (lookup role cache)
unfolding read_roles or_old lookup
lookup-read_roles role cache List.[] is d = refl
lookup-read_roles role cache (List.◌∷◌ (name, content) rest) is d =
    lookup-read_roles role (keep (role_of name) content cache) rest is d.1 ∙ here
  where
    file : String
    file = role ++ ".md"

    kept : lookup role (keep (some role) content cache) ≡ some content
    kept = lookup-insert role role content cache ∙ rw ((eq_iff role role).1 refl) refl

    found :
        (name == file) ≡ true
        → or_old (lookup file rest) (lookup role (keep (role_of name) content cache)) ≡ some content
    found h =
        let same = (eq_iff name file).0 h in
        let absent =
          lookup_absent file rest (subst (λ n. contains n (names rest) ≡ false) same d.0) in
        let key : role_of name ≡ some role = ap role_of same ∙ role_of-append role is in
        (λ i. or_old (absent i) (lookup role (keep (key i) content cache))) ∙ kept

    here :
        or_old (lookup file rest) (lookup role (keep (role_of name) content cache))
        ≡ or_old (lookup file (List.◌∷◌ (name, content) rest)) (lookup role cache)
    here = elim (Bool-cases (name == file)) [
      | inl h ↦
          found h
          ∙ sym (
              ap (λ b. or_old (if b then some content else lookup file rest) (lookup role cache)) h)
      | inr h ↦
          ap (or_old (lookup file rest))
            (keep_other role name content cache (role_of name) is refl h)
          ∙ sym (
              ap (λ b. or_old (if b then some content else lookup file rest) (lookup role cache)) h)
    ]

or_old_none : (o : Option String) → or_old o none ≡ o
unfolding or_old
or_old_none none = refl
or_old_none (some c) = refl

-- the bundle of a role's file
abbrev pub bundle_of :
    (String → String) → String → String → Option String → Result String PromptBundle
bundle_of sha256 system role (some content) =
    ok (record { system_prefix = system; role_prompt = content; cache_key = sha256 system })
bundle_of sha256 system role none =
    err ("No prompt file found for role '" <> role <> "' (expected " <> role <> ".md)")

-- For a directory whose files have different names and one of which is system.md: `load` gives for
-- a role, other than `system` and the names that a suffix alone makes, the content of the role's
-- file with the shared prompt and its hash, and the error that names the role if there is no such
-- file.
pub load-read_prompts :
    (sha256 : String → String) (files : List (String × String)) (system role : String)
    → IsDistinct (names files)
    → lookup "system.md" files ≡ some system
    → IsRole role
    → (prompts : Prompts) × (read_prompts sha256 files ≡ ok prompts)
      × (load prompts role ≡ bundle_of sha256 system role (lookup (role ++ ".md") files))
unfolding read_prompts load lookup
load-read_prompts sha256 files system role d found is = (
  record {
    system_prefix = system;
    system_cache_key = sha256 system;
    role_cache = read_roles List.[] files;
  },
  rw (found, read_prompts) refl,
  ap (bundle_of sha256 system role) (lookup-read_roles role List.[] files is d ∙ or_old_none _),
)
