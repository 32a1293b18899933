-- ===== src/Llm/Structured/Attempts.antt =====
-- What `complete_typed` returns was validated, and how many attempts it makes.
use mathlib.Core.Path.{subst}
use alph_e.Common.{
  ℕ, zero, suc, ◌+◌, ◌*◌, ◌≤◌, String, ◌≡◌, refl, Option, none, some, List, [], ◌∷◌, ◌++◌, length,
  length-append, Result, ok, err, arith, ◌⊎◌, inl, inr,
}
use alph_e.Llm.{LlmError}
use alph_e.Llm.Structured.{
  Block, Turn, Judged, accepted, rejected, OutputModel, extract_tool_input, judge_input, exhausted,
  corrective, assistant, typed_loop, complete_typed,
}

module _ {Raw T : Type 0} (model : OutputModel Raw T)
    (call : ℕ → List (Turn Raw) → Result LlmError (List (Block Raw))) where
  -- Why the calls ended at an attempt with a conversation.
  abbrev pub Cause : ℕ → ℕ → List (Turn Raw) → Result LlmError T → Type 0
  Cause max_retries attempt conversation (ok t) =
      (content : List (Block Raw)) × (call attempt conversation ≡ ok content)
      × ((raw : Raw) × (extract_tool_input model.tool_name content ≡ some raw)
          × (model.validate raw ≡ ok t))
  Cause max_retries attempt conversation (err e) =
      (call attempt conversation ≡ err e)
      ⊎ ((attempt ≡ max_retries) × ((exc : Option String) × (e ≡ exhausted model exc)))

  -- The outcome, with the attempt at which it came and the turns of the conversation then: two
  -- were added for each attempt before.
  pub record IsTyped (max_retries first : ℕ) (messages : List (Turn Raw)) (r : Result LlmError T)
      : Type 0 where
    pub attempt : ℕ
    pub allowed : attempt ≤ max_retries
    pub conversation : List (Turn Raw)
    pub turns : length conversation + 2 * first ≡ length messages + 2 * attempt
    pub cause : Cause max_retries attempt conversation r

  judge_accepts :
      (last : Option String) (input : Option Raw) (t : T)
      → judge_input model last input ≡ accepted t
      → (raw : Raw) × (input ≡ some raw) × (model.validate raw ≡ ok t)
  unfolding judge_input
  judge_accepts last none t e = absurd (ground arith)
  judge_accepts last (some raw) t e = go (model.validate raw) refl
    where
      go :
          (r : Result String T)
          → model.validate raw ≡ r
          → (x : Raw) × (some raw ≡ some x) × (model.validate x ≡ ok t)
      go (err exc) q = absurd (ground arith)
      go (ok u) q = (raw, refl, ground arith)

  after_retry :
      (max_retries attempt : ℕ) (conversation longer : List (Turn Raw)) (r : Result LlmError T)
      → length longer ≡ length conversation + 2
      → IsTyped max_retries (attempt + 1) longer r
      → IsTyped max_retries attempt conversation r
  after_retry max_retries attempt conversation longer r e later = record {
    attempt = later.attempt;
    allowed = later.allowed;
    conversation = later.conversation;
    turns = omega (arith, e, later.turns);
    cause = later.cause;
  }

  loop-IsTyped :
      (left attempt : ℕ) (conversation : List (Turn Raw)) (last : Option String)
      → IsTyped
          (attempt + left)
          attempt
          conversation
          (typed_loop model call left attempt conversation last)
  unfolding typed_loop
  loop-IsTyped zero attempt conversation last = go (call attempt conversation) refl
    where
      stop :
          (r : Result LlmError T)
          → Cause (attempt + 0) attempt conversation r
          → IsTyped (attempt + 0) attempt conversation r
      stop r c = record {
        attempt = attempt;
        allowed = omega arith;
        conversation = conversation;
        turns = refl;
        cause = c;
      }

      judged :
          (content : List (Block Raw))
          → call attempt conversation ≡ ok content
          → (j : Judged T) → judge_input model last (extract_tool_input model.tool_name content) ≡ j
          → IsTyped
              (attempt + 0)
              attempt
              conversation
              (typed_loop model call 0 attempt conversation last)
      judged content q (accepted t) p =
          rw (q, p, typed_loop)
            (stop (ok t)
              (content, q, judge_accepts last (extract_tool_input model.tool_name content) t p))
      judged content q (rejected exc detail raw_json) p =
          rw (q, p, typed_loop) (stop (err (exhausted model exc)) (inr (omega arith, (exc, refl))))

      go :
          (r : Result LlmError (List (Block Raw)))
          → call attempt conversation ≡ r
          → IsTyped
              (attempt + 0)
              attempt
              conversation
              (typed_loop model call 0 attempt conversation last)
      go (err e) q = rw (q, typed_loop) (stop (err e) (inl q))
      go (ok content) q = judged content q _ refl
  loop-IsTyped (suc left) attempt conversation last =
      go (call attempt conversation) refl (loop-IsTyped left (attempt + 1))
    where
      Rest : Type 0
      Rest =
          (longer : List (Turn Raw)) (exc : Option String)
          → IsTyped ((attempt + 1) + left) (attempt + 1) longer
              (typed_loop model call left (attempt + 1) longer exc)

      stop :
          (r : Result LlmError T)
          → Cause (attempt + suc left) attempt conversation r
          → IsTyped (attempt + suc left) attempt conversation r
      stop r c = record {
        attempt = attempt;
        allowed = omega arith;
        conversation = conversation;
        turns = refl;
        cause = c;
      }

      judged :
          (content : List (Block Raw))
          → call attempt conversation ≡ ok content
          → (j : Judged T) → judge_input model last (extract_tool_input model.tool_name content) ≡ j
          → Rest
          → IsTyped
              (attempt + suc left)
              attempt
              conversation
              (typed_loop model call (suc left) attempt conversation last)
      judged content q (accepted t) p rest =
          rw (q, p, typed_loop)
            (stop (ok t)
              (content, q, judge_accepts last (extract_tool_input model.tool_name content) t p))
      judged content q (rejected exc detail raw_json) p rest =
          let longer =
            conversation ++ (assistant content ∷ corrective model detail raw_json ∷ []) in
          let r = typed_loop model call left (attempt + 1) longer exc in
          rw (q, p, typed_loop)
            (after_retry (attempt + suc left) attempt conversation longer r
              (length-append conversation
                (assistant content ∷ corrective model detail raw_json ∷ []))
              (subst (λ n. IsTyped n (attempt + 1) longer r) (omega arith) (rest longer exc)))

      go :
          (r : Result LlmError (List (Block Raw)))
          → call attempt conversation ≡ r
          → Rest
          → IsTyped
              (attempt + suc left)
              attempt
              conversation
              (typed_loop model call (suc left) attempt conversation last)
      go (err e) q rest = rw (q, typed_loop) (stop (err e) (inl q))
      go (ok content) q rest = judged content q _ refl rest

  -- `complete_typed` always ends, at one of `max_retries` + 1 attempts, each of which made the
  -- conversation two turns longer than the one before. What it returns is the input of a tool use
  -- in the reply of that attempt, validated; what it raises is what the client raised, or, at the
  -- last attempt, that the attempts are used up.
  pub complete_typed-IsTyped :
      (max_retries : ℕ) (messages : List (Turn Raw))
      → IsTyped max_retries 0 messages (complete_typed model call max_retries messages)
  unfolding complete_typed
  complete_typed-IsTyped max_retries messages =
      subst (λ n. IsTyped n 0 messages (typed_loop model call max_retries 0 messages none))
        (omega arith) (loop-IsTyped max_retries 0 messages none)
