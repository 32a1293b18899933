-- ===== src/Llm/Structured.antt =====
-- agent/src/agent/llm/structured.py. The client and the validation by pydantic are arguments.
pub mod Attempts
use alph_e.Common.{
  ◌<>◌, ℕ, zero, suc, ◌+◌, String, Option, none, some, Bool, List, [], ◌∷◌, ◌++◌, Result, ok, err,
  ◌==◌, if◌then◌else◌,
}
use alph_e.Llm.{LlmError, structured_output_error, other_error}

-- A block of a message: a use of a tool with its name and input, or another.
pub data Block (Raw : Type 0) : Type 0 where
  tool_use : String → Raw → Block Raw
  other_block : Block Raw

-- A turn of the conversation.
pub data Turn (Raw : Type 0) : Type 0 where
  user : String → Turn Raw
  assistant : List (Block Raw) → Turn Raw

-- `_extract_tool_input`; `none` is the sentinel
unfoldable pub extract_tool_input : {Raw : Type 0} → String → List (Block Raw) → Option Raw
extract_tool_input tool_name [] = none
extract_tool_input tool_name (tool_use name input ∷ rest) =
    if name == tool_name then some input else extract_tool_input tool_name rest
extract_tool_input tool_name (other_block ∷ rest) = extract_tool_input tool_name rest

-- What one reply comes to: a valid output, or the last error so far, the detail and the JSON text
-- for the corrective turn.
pub data Judged (T : Type 0) : Type 0 where
  accepted : T → Judged T
  rejected : Option String → String → String → Judged T

-- The model class: its tool's name, its validation in strict mode, the input without fields, and
-- `json.dumps` of an input.
pub record OutputModel (Raw T : Type 0) : Type 0 where
  pub tool_name : String
  pub validate : Raw → Result String T
  pub empty : Raw
  pub dumps : Raw → String

module _ {Raw T : Type 0} (model : OutputModel Raw T) where
  abbrev error_of : Result String T → Option String → Option String
  error_of (ok t) last = last
  error_of (err exc) last = some exc

  -- the two branches of the loop's body
  unfoldable pub judge_input : Option String → Option Raw → Judged T
  judge_input last none =
      rejected (error_of (model.validate model.empty) last)
        ("You did not call the '" <> model.tool_name
          <> "' tool. You MUST respond by calling that tool with a valid JSON payload.")
        "{}"
  judge_input last (some raw) = elim (model.validate raw) [
    | ok t ↦ accepted t
    | err exc ↦ rejected (some exc) exc (model.dumps raw)
  ]

  -- the corrective turn
  abbrev pub corrective : String → String → Turn Raw
  corrective detail raw_json = user (
      "Your previous response did not satisfy the required schema. Validation error:\n\n" <> detail
      <> "\n\nRaw output received:\n\n" <> raw_json <> "\n\nPlease call the '" <> model.tool_name
      <> "' tool again with a corrected, fully valid JSON payload.")

  -- what is raised when the attempts are used up
  abbrev pub exhausted : Option String → LlmError
  exhausted none = other_error "last_exc must be set before exhaustion"
  exhausted (some exc) =
      structured_output_error
        ("Structured output validation failed after all retries. Last validation error: " <> exc)

  module _ (call : ℕ → List (Turn Raw) → Result LlmError (List (Block Raw))) where
    -- The loop, from an attempt on, with so many attempts left after it.
    unfoldable pub typed_loop : ℕ → ℕ → List (Turn Raw) → Option String → Result LlmError T
    typed_loop zero attempt conversation last = elim (call attempt conversation) [
      | err e ↦ err e
      | ok content ↦ elim (judge_input last (extract_tool_input model.tool_name content)) [
        | accepted t ↦ ok t
        | rejected exc detail raw_json ↦ err (exhausted exc)
      ]
    ]
    typed_loop (suc left) attempt conversation last = elim (call attempt conversation) [
      | err e ↦ err e
      | ok content ↦ elim (judge_input last (extract_tool_input model.tool_name content)) [
        | accepted t ↦ ok t
        | rejected exc detail raw_json ↦
            typed_loop left (attempt + 1)
              (conversation ++ (assistant content ∷ corrective detail raw_json ∷ [])) exc
      ]
    ]

    -- `complete_typed`
    unfoldable pub complete_typed : ℕ → List (Turn Raw) → Result LlmError T
    complete_typed max_retries messages = typed_loop max_retries 0 messages none
