-- ===== src/Dev/Snapshot.antt =====
-- `_read_repo_snapshot` of agent/src/agent/orchestrator/nodes/dev.py. What is found under the path, in
-- sorted order, is an argument.
use text.Mathlib.Text.{starts_with}
use alph_e.Common.{
  ◌<>◌, ℕ, ◌+◌, ◌-◌, ◌≤◌, zero, suc, String, ◌≡◌, refl, Option, none, some, Bool, true, false, not,
  ◌||◌, List, [], ◌∷◌, any, joined, repr, first_chars, text_length, leb, All, arith, ◌==◌,
  Bool-cases, inl, inr,
}

-- An entry below the path: the parts of its relative path, whether it is a file, and its text, `none`
-- where the reading raises.
pub record RepoEntry : Type 0 where
  pub parts : List String
  pub is_file : Bool
  pub text : Option String

-- `_MAX_REPO_SNAPSHOT_BYTES`
abbrev pub max_repo_snapshot_bytes : ℕ
max_repo_snapshot_bytes = 32768

-- a part that hides the file
abbrev pub hides : String → Bool
hides part = starts_with part "." || part == "__pycache__"

-- What the snapshot has for one file.
pub data SnapshotItem : Type 0 where
  snippet_of : List String → String → SnapshotItem
  unreadable : List String → SnapshotItem
  cap_reached : List String → SnapshotItem

-- The loop over the entries. The characters taken never exceed the cap, so that the difference is
-- exact.
unfoldable pub snapshot_items : ℕ → List RepoEntry → List SnapshotItem
snapshot_items total_bytes [] = []
snapshot_items total_bytes (child ∷ rest) = elim (not child.is_file || any hides child.parts) [
  | true ↦ snapshot_items total_bytes rest
  | false ↦ elim child.text [
    | none ↦ unreadable child.parts ∷ snapshot_items total_bytes rest
    | some text ↦ elim (leb max_repo_snapshot_bytes total_bytes) [
      | true ↦ cap_reached child.parts ∷ []
      | false ↦
          let snippet = first_chars (max_repo_snapshot_bytes - total_bytes) text in
          snippet_of child.parts snippet ∷ snapshot_items (total_bytes + text_length snippet) rest
    ]
  ]
]

unfoldable pub item_lines : List SnapshotItem → List String
item_lines [] = []
item_lines (snippet_of parts snippet ∷ rest) =
    ("## " <> joined "/" parts) ∷ "```" ∷ snippet ∷ "```" ∷ item_lines rest
item_lines (unreadable parts ∷ rest) =
    ("## " <> joined "/" parts) ∷ "[unreadable]" ∷ item_lines rest
item_lines (cap_reached parts ∷ rest) =
    ("## " <> joined "/" parts) ∷ "[... snapshot size cap reached ...]" ∷ item_lines rest

-- `_read_repo_snapshot`; no entries where the path is no directory
unfoldable pub read_repo_snapshot : String → Option (List RepoEntry) → String
read_repo_snapshot repo_path none =
    "[repo snapshot unavailable: " <> repr repo_path <> " is not a directory]"
read_repo_snapshot repo_path (some entries) =
    joined "\n" (("# Repo snapshot: " <> repo_path) ∷ "" ∷ item_lines (snapshot_items 0 entries))

-- The characters of the files in a snapshot.
abbrev pub taken : List SnapshotItem → ℕ
taken [] = 0
taken (snippet_of parts snippet ∷ rest) = text_length snippet + taken rest
taken (unreadable parts ∷ rest) = taken rest
taken (cap_reached parts ∷ rest) = taken rest

-- The path of an item has no hidden part.
abbrev pub IsVisible : SnapshotItem → Type 0
IsVisible (snippet_of parts snippet) = any hides parts ≡ false
IsVisible (unreadable parts) = any hides parts ≡ false
IsVisible (cap_reached parts) = any hides parts ≡ false

first_chars-length : (n : ℕ) (s : String) → text_length (first_chars n s) ≤ n
unfolding first_chars text_length
first_chars-length zero s = omega arith
first_chars-length (suc n) String.[] = omega arith
first_chars-length (suc n) (String.◌∷◌ c s) = omega (arith, first_chars-length n s)

-- Items that fit under the cap, and are visible.
abbrev pub Fits : ℕ → List SnapshotItem → Type 0
Fits total_bytes items = (total_bytes + taken items ≤ max_repo_snapshot_bytes) × All IsVisible items

snapshot_items-Fits :
    (total_bytes : ℕ) (entries : List RepoEntry)
    → total_bytes ≤ max_repo_snapshot_bytes
    → Fits total_bytes (snapshot_items total_bytes entries)
unfolding snapshot_items
snapshot_items-Fits total_bytes [] h = (omega (arith, h), tt)
snapshot_items-Fits total_bytes (child ∷ rest) h =
    elim (Bool-cases (not child.is_file || any hides child.parts)) [
      | inl skipped ↦ rw (skipped, snapshot_items) (snapshot_items-Fits total_bytes rest h)
      | inr shown ↦
          rw (shown, snapshot_items)
            (with_text (λ n k. snapshot_items-Fits n rest k) child.text (ground (arith, shown)))
    ]
  where
    with_snippet :
        ((n : ℕ) → n ≤ max_repo_snapshot_bytes → Fits n (snapshot_items n rest))
        → (text : String) (b : Bool) → any hides child.parts ≡ false
        → leb max_repo_snapshot_bytes total_bytes ≡ b
        → Fits total_bytes (elim b as (λ x. List SnapshotItem) [
          | true ↦ cap_reached child.parts ∷ []
          | false ↦
              snippet_of child.parts (first_chars (max_repo_snapshot_bytes - total_bytes) text)
              ∷ snapshot_items
                  (total_bytes
                    + text_length (first_chars (max_repo_snapshot_bytes - total_bytes) text))
                  rest
        ])
    with_snippet more text true visible e = (omega (arith, h), (visible, tt))
    with_snippet more text false visible e =
        let snippet = first_chars (max_repo_snapshot_bytes - total_bytes) text in
        let short = first_chars-length (max_repo_snapshot_bytes - total_bytes) text in
        let after = more (total_bytes + text_length snippet) (omega (arith, short, h)) in
        (omega (arith, after.0), (visible, after.1))

    with_text :
        ((n : ℕ) → n ≤ max_repo_snapshot_bytes → Fits n (snapshot_items n rest))
        → (o : Option String) → any hides child.parts ≡ false
        → Fits total_bytes (elim o as (λ x. List SnapshotItem) [
          | none ↦ unreadable child.parts ∷ snapshot_items total_bytes rest
          | some text ↦ elim (leb max_repo_snapshot_bytes total_bytes) as (λ x. List SnapshotItem) [
            | true ↦ cap_reached child.parts ∷ []
            | false ↦
                snippet_of child.parts (first_chars (max_repo_snapshot_bytes - total_bytes) text)
                ∷ snapshot_items
                    (total_bytes
                      + text_length (first_chars (max_repo_snapshot_bytes - total_bytes) text))
                    rest
          ]
        ])
    with_text more none visible = let after = more total_bytes h in (after.0, (visible, after.1))
    with_text more (some text) visible = with_snippet more text _ visible refl

-- A snapshot takes at most 32768 characters from the files, however many and long they are, and it
-- shows no file with a hidden part in its path.
pub snapshot_items-bounded :
    (entries : List RepoEntry)
    → (taken (snapshot_items 0 entries) ≤ max_repo_snapshot_bytes)
      × All IsVisible (snapshot_items 0 entries)
snapshot_items-bounded entries =
    let all = snapshot_items-Fits 0 entries (omega arith) in (omega (arith, all.0), all.1)
