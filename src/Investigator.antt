-- ===== src/Investigator.antt =====
-- agent/src/agent/orchestrator/nodes/investigator.py. The reply of the language model and SHA-256
-- are arguments; the prompt, which only the model reads, is left out.
pub mod Merge
pub mod Tick
pub mod Message
pub mod Told
pub mod Accepted
use alph_e.Common.{
  ℕ, ◌+◌, String, Option, none, some, Bool, not, List, [], ◌∷◌, ◌++◌, map, contains, Assoc, insert,
  truthy, first_chars, leb, ltb, Result, ok, err, if◌then◌else◌,
}
use alph_e.Schemas.{IncidentState, Hypothesis, TimelineEvent}
use alph_e.Llm.{LlmError}

pub record InvestigatorOutput : Type 0 where
  pub hypotheses : List Hypothesis
  pub current_focus_hypothesis_id : String
  pub reasoning : String

abbrev pub max_attempts : ℕ
max_attempts = 5

-- the value of the dictionary for a list: `{h.id: h for h in hypotheses}`, from `by_id` on
unfoldable pub add_all : Assoc Hypothesis → List Hypothesis → Assoc Hypothesis
add_all by_id [] = by_id
add_all by_id (h ∷ rest) = add_all (insert h.id h by_id) rest

-- `list(by_id.values())`
abbrev pub values : Assoc Hypothesis → List Hypothesis
values = map (λ entry. entry.1)

-- `_merge_hypotheses`
unfoldable pub merge_hypotheses : List Hypothesis → List Hypothesis → List Hypothesis
merge_hypotheses existing proposed = values (add_all (add_all [] existing) proposed)

-- `max(hypotheses, key=score)`: the first of those with the highest score
unfoldable pub best_of : Hypothesis → List Hypothesis → Hypothesis
best_of best [] = best
best_of best (h ∷ rest) = best_of (if ltb best.score h.score then h else best) rest

abbrev pub ids : List Hypothesis → List String
ids = map (λ h. h.id)

-- the id of the best hypothesis, or the empty text
abbrev pub fallback_focus : List Hypothesis → String
fallback_focus [] = ""
fallback_focus (h ∷ rest) = (best_of h rest).id

-- the focus, checked against the proposed hypotheses
unfoldable pub choose_focus : String → List Hypothesis → String
choose_focus focus proposed =
    if contains focus (ids proposed) then focus else fallback_focus proposed

-- What the node writes; `none` is a field that it leaves alone.
pub record InvestigatorUpdate : Type 0 where
  pub hypotheses : Option (List Hypothesis)
  pub current_focus_hypothesis_id : Option String
  pub investigation_attempts : ℕ
  pub timeline : List TimelineEvent
  pub updated_at : ℕ

abbrev pub investigator_event : ℕ → String → TimelineEvent
investigator_event now event_type = record {
  ts = now;
  actor = "orchestrator:investigator";
  event_type = event_type;
  ref_id = none;
}

module _ (sha256 : String → String) where
  -- `_content_hash`
  unfoldable pub content_hash : String → String
  content_hash text = first_chars 16 (sha256 text)

  -- `_ensure_id`
  unfoldable pub ensure_id : Hypothesis → Hypothesis
  ensure_id h = if truthy h.id then h else record h { id = content_hash h.text }

  -- what follows the reply of the model
  unfoldable pub after_reply : IncidentState → ℕ → InvestigatorOutput → InvestigatorUpdate
  after_reply state now output =
      let proposed = map ensure_id output.hypotheses in
      record {
        hypotheses = some (merge_hypotheses state.hypotheses proposed);
        current_focus_hypothesis_id =
            some (choose_focus output.current_focus_hypothesis_id proposed);
        investigation_attempts = state.investigation_attempts + 1;
        timeline = state.timeline ++ investigator_event now "investigator.tick" ∷ [];
        updated_at = now;
      }

  -- `investigator_node`
  unfoldable pub investigator_node :
      IncidentState → ℕ → Result LlmError InvestigatorOutput → Result LlmError InvestigatorUpdate
  investigator_node state now reply =
      if leb max_attempts state.investigation_attempts
      then ok (record {
        hypotheses = none;
        current_focus_hypothesis_id = none;
        investigation_attempts = state.investigation_attempts;
        timeline = state.timeline ++ investigator_event now "investigator.cap_reached" ∷ [];
        updated_at = now;
      })
      else elim reply [ err e ↦ err e | ok output ↦ ok (after_reply state now output) ]
