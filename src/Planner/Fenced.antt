-- ===== src/Planner/Fenced.antt =====
-- The state in the planner's message stands within its fence, whatever texts the state has.
use alph_e.Common.{ℕ, String, ◌<>◌, ◌≡◌, refl, false, str_in, dumps, IsFloatWriter, dumps-fenced}
use alph_e.Schemas.{IncidentState}
use alph_e.Planner.Message.{planner_message, planner_payload}

-- An opening without a backtick, a fence that opens, a body none of whose lines begins with a
-- backtick, and the fence that closes, where the message ends.
pub record IsFenced (message : String) : Type 0 where
  pub opening : String
  pub body : String
  pub split : message ≡ (opening <> "```json\n" <> body <> "\n```")
  pub clear : str_in "`" opening ≡ false
  pub inner : str_in "\n`" ("\n" <> body) ≡ false

-- Where a float is written with a digit first and without a new line: whatever the texts in the
-- incident are, the planner's message is an opening without a backtick, a fence, a body none of
-- whose lines begins with a backtick, and the closing fence: no text of an alert, of a finding or of
-- the model closes the fence before.
pub planner_message-IsFenced :
    (float_text : ℕ → String)
    → IsFloatWriter float_text
    → (state : IncidentState) → IsFenced (planner_message float_text state)
unfolding planner_message str_in
planner_message-IsFenced float_text floats state = record {
  opening =
      "Here is the current incident state. Produce a RemediationPlan and, for mutable actions, the required ActionIntent fields.\n\n";
  body = dumps float_text 0 (planner_payload state);
  split = refl;
  clear = refl;
  inner = dumps-fenced float_text floats (planner_payload state);
}
