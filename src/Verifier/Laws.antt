-- ===== src/Verifier/Laws.antt =====
-- Which intent the verifier checks, and when the check of a proposal's diffs passes.
use alph_e.Common.{
  String, ◌≡◌, ◌≢◌, refl, ap, ◌==◌, ◌↔◌, ◌⊎◌, inl, inr, some, Bool, true, false, ◌&&◌,
  if◌then◌else◌, List, [], ◌∷◌, ◌++◌, All, arith, Result, ok, err,
}
use alph_e.Schemas.{ActionIntent, FileChange, FixProposal}
use alph_e.Verifier.{RunOf, apply_loop, check_git_apply, last_of, pending_of, active_intent}

module _ (run : RunOf) where
  -- The run of a change ended, with this flag.
  abbrev pub Ended : FileChange → Bool → Type 0
  Ended c b = (output : String) × (run c ≡ ok (b, output))

  -- The run of a change raised, after those of the changes before it had ended.
  pub record StopsAt (cs : List FileChange) (exc : String) : Type 0 where
    pub before : List FileChange
    pub after : List FileChange
    pub change : FileChange
    pub split : cs ≡ before ++ change ∷ after
    pub ended : All (λ c. (b : Bool) × Ended c b) before
    pub raised : run change ≡ err exc

  -- What the loop gives: the exception of the first run that raised, or whether all applied.
  abbrev pub Looped : List FileChange → Bool → Result String (Bool × List String) → Type 0
  Looped cs passed (err exc) = StopsAt cs exc
  Looped cs passed (ok (b, outputs)) =
      All (λ c. (b : Bool) × Ended c b) cs
      × ((b ≡ true) ↔ ((passed ≡ true) × All (λ c. Ended c true) cs))

  Looped-cons :
      (c : FileChange) (cs : List FileChange) (passed b : Bool) (output : String)
      (r : Result String (Bool × List String))
      → run c ≡ ok (b, output)
      → Looped cs (passed && b) r
      → Looped (c ∷ cs) passed r
  Looped-cons c cs passed b output (err exc) e stop = record {
    before = c ∷ stop.before;
    after = stop.after;
    change = stop.change;
    split = ap (λ xs. c ∷ xs) stop.split;
    ended = ((b, (output, e)), stop.ended);
    raised = stop.raised;
  }
  Looped-cons c cs passed b output (ok (d, outputs)) e (ended, iff) = (
    ((b, (output, e)), ended),
    (
      λ h.
          let (both, rest) = iff.0 h in
          let applies : b ≡ true = ground (arith, both) in
          (ground (arith, both), ((output, rw applies at e), rest)),
      λ (p, ((o, q), rest)).
          let applies : b ≡ true = ground (arith, e, q) in iff.1 (rw (p, applies) refl, rest),
    ),
  )

  apply_loop-Looped :
      (cs : List FileChange) (passed : Bool) (outputs : List String)
      → Looped cs passed (apply_loop run cs passed outputs)
  unfolding apply_loop
  apply_loop-Looped [] passed outputs = (tt, (λ e. (e, tt), λ p. p.0))
  apply_loop-Looped (c ∷ cs) passed outputs =
      go (run c) refl (λ b more. apply_loop-Looped cs (passed && b) more)
    where
      go :
          (r : Result String (Bool × String))
          → run c ≡ r
          → ((b : Bool) (more : List String)
              → Looped cs (passed && b) (apply_loop run cs (passed && b) more))
          → Looped (c ∷ cs) passed (apply_loop run (c ∷ cs) passed outputs)
      go (err exc) e ih =
          rw (e, apply_loop)
            (record { before = []; after = cs; change = c; split = refl; ended = tt; raised = e })
      go (ok (b, output)) e ih = rw (e, apply_loop) (Looped-cons c cs passed b output _ e (ih b _))

  -- What the check of a proposal's diffs gives: the exception of the first run that raised, or, where
  -- all ended, that it passes exactly when each of them applies.
  abbrev pub GitChecked : List FileChange → Result String (Bool × String) → Type 0
  GitChecked cs (err exc) = StopsAt cs exc
  GitChecked cs (ok (b, output)) =
      All (λ c. (d : Bool) × Ended c d) cs × ((b ≡ true) ↔ All (λ c. Ended c true) cs)

  pub check_git_apply-GitChecked :
      (proposal : FixProposal) → GitChecked proposal.changes (check_git_apply run proposal)
  unfolding check_git_apply
  check_git_apply-GitChecked proposal =
      go (apply_loop run proposal.changes true []) refl (apply_loop-Looped proposal.changes true [])
    where
      go :
          (r : Result String (Bool × List String))
          → apply_loop run proposal.changes true [] ≡ r
          → Looped proposal.changes true r
          → GitChecked proposal.changes (check_git_apply run proposal)
      go (err exc) e h = rw (e, check_git_apply) h
      go (ok (b, outputs)) e (ended, iff) =
          rw (e, check_git_apply) (ended, (λ p. (iff.0 p).1, λ a. iff.1 (refl, a)))

abbrev pub IsPending : ActionIntent → Bool → Type 0
IsPending i b = (i.approval_status == "pending") ≡ b

-- The last pending intent, or the last one where none is pending.
pub record IsActive (intents : List ActionIntent) (i : ActionIntent) : Type 0 where
  pub before : List ActionIntent
  pub after : List ActionIntent
  pub split : intents ≡ before ++ i ∷ after
  pub none_after : All (λ j. IsPending j false) after
  pub status : IsPending i true ⊎ (All (λ j. IsPending j false) intents × (after ≡ []))

-- what a filtered list tells of a list
Filtered : List ActionIntent → List ActionIntent → Type 0
Filtered intents [] = All (λ j. IsPending j false) intents
Filtered intents (p ∷ ps) =
    (before after : List ActionIntent) × (intents ≡ before ++ last_of p ps ∷ after)
    × IsPending (last_of p ps) true
    × All (λ j. IsPending j false) after

filtered : (intents : List ActionIntent) → Filtered intents (pending_of intents)
unfolding Filtered last_of
filtered [] = tt
filtered (i ∷ rest) = go (i.approval_status == "pending") refl (pending_of rest) (filtered rest)
  where
    go :
        (b : Bool)
        → (i.approval_status == "pending") ≡ b
        → (ps : List ActionIntent) → Filtered rest ps
        → Filtered (i ∷ rest) (if b then i ∷ ps else ps)
    go true e [] h = ([], rest, refl, e, h)
    go true e (p ∷ ps) (before, after, split, pending, h) =
        (i ∷ before, after, ap (λ xs. i ∷ xs) split, pending, h)
    go false e [] h = (e, h)
    go false e (p ∷ ps) (before, after, split, pending, h) =
        (i ∷ before, after, ap (λ xs. i ∷ xs) split, pending, h)

last_split :
    (i : ActionIntent) (rest : List ActionIntent)
    → (before : List ActionIntent) × (i ∷ rest ≡ before ++ last_of i rest ∷ [])
unfolding last_of
last_split i [] = ([], refl)
last_split i (j ∷ rest) = let (before, e) = last_split j rest in (i ∷ before, ap (λ xs. i ∷ xs) e)

-- Where there is an intent, the verifier checks the last pending one, or the last one if none is
-- pending; no intent after it is pending.
pub active_intent-IsActive :
    (intents : List ActionIntent)
    → intents ≢ []
    → (i : ActionIntent) × (active_intent intents ≡ some i) × IsActive intents i
unfolding active_intent Filtered
active_intent-IsActive [] h = absurd (h refl)
active_intent-IsActive (i ∷ rest) h = go (pending_of (i ∷ rest)) refl (filtered (i ∷ rest))
  where
    go :
        (ps : List ActionIntent)
        → pending_of (i ∷ rest) ≡ ps
        → Filtered (i ∷ rest) ps
        → (k : ActionIntent) × (active_intent (i ∷ rest) ≡ some k) × IsActive (i ∷ rest) k
    go [] e idle =
        let (before, split) = last_split i rest in
        (
          last_of i rest,
          rw (e, active_intent) refl,
          record {
            before = before;
            after = [];
            split = split;
            none_after = tt;
            status = inr (idle, refl);
          },
        )
    go (p ∷ ps) e (before, after, split, pending, idle) = (
      last_of p ps,
      rw (e, active_intent) refl,
      record {
        before = before;
        after = after;
        split = split;
        none_after = idle;
        status = inl pending;
      },
    )
