-- ===== src/Graph/Runs.antt =====
-- Every run of the graph: how long it is, where it leads, and what it keeps.
use alph_e.Common.{
  ℕ, suc, ◌+◌, ◌-◌, ◌*◌, ◌≤◌, String, ◌≡◌, refl, inl, inr, Option, none, some, Bool, true, false,
  List, [], ◌∷◌, ◌==◌, any, Result, ok, arith, leb, Elem, if◌then◌else◌, Bool-cases,
}
use alph_e.Schemas.{IncidentState, is_confirmed}
use alph_e.Llm.{LlmError}
use alph_e.Routing.{
  route_after_investigator, node_investigator, node_collectors, node_planner, node_coordinator,
}
use alph_e.Investigator.{InvestigatorOutput, InvestigatorUpdate, investigator_node, after_reply}
use alph_e.Graph.{
  World, Step, Run, at_intake, at_investigator, at_collectors, at_planner, at_coordinator, stay,
  step, successor, intake_node, node_intake, investigated,
}

-- The steps that the investigator still allows.
abbrev pub ticks_left : ℕ → ℕ
ticks_left attempts = if leb 4 attempts then 2 else 2 * (5 - attempts)

-- A bound on the steps from a node on.
abbrev pub steps_left : Option String → ℕ → ℕ
steps_left none attempts = 0
steps_left (some node) attempts =
    if node == node_intake
    then ticks_left attempts + 1
    else if node == node_investigator
    then ticks_left attempts
    else if node == node_collectors
    then ticks_left attempts + 1
    else if node == node_planner
    then 2
    else if node == node_coordinator
    then 1
    else 0

attempts_after :
    (sha256 : String → String) (s : IncidentState) (now : ℕ)
    (reply : Result LlmError InvestigatorOutput) (u : InvestigatorUpdate)
    → investigator_node sha256 s now reply ≡ ok u
    → u.investigation_attempts ≡ (
        if leb 5 s.investigation_attempts
        then s.investigation_attempts
        else s.investigation_attempts + 1)
unfolding investigator_node after_reply
attempts_after sha256 s now reply u e = ground arith

routed_left :
    (t : IncidentState) (attempts : ℕ)
    → t.investigation_attempts ≡ (if leb 5 attempts then attempts else attempts + 1)
    → suc (steps_left (some (route_after_investigator t)) t.investigation_attempts)
      ≤ ticks_left attempts
unfolding route_after_investigator
routed_left t attempts e = go (any is_confirmed t.hypotheses) t.investigation_attempts e
  where
    go :
        (sure : Bool) (a : ℕ)
        → a ≡ (if leb 5 attempts then attempts else attempts + 1)
        → suc (
            steps_left
              (some (
                if leb 5 a
                then node_coordinator
                else if sure
                then node_planner
                else node_collectors))
              a)
          ≤ ticks_left attempts
    go true a q = elim (Bool-cases (leb 5 a)) [
      | inl h ↦ rw h (ground arith)
      | inr h ↦ rw h (ground arith)
    ]
    go false a q = elim (Bool-cases (leb 5 a)) [
      | inl h ↦ rw h (ground arith)
      | inr h ↦ rw h (ground arith)
    ]

abbrev pub live_nodes : List String
live_nodes =
    node_intake ∷ node_investigator ∷ node_collectors ∷ node_planner ∷ node_coordinator ∷ []

-- the end, or one of the five nodes
abbrev pub IsLive : Option String → Type 0
IsLive none = Unit
IsLive (some node) = Elem node live_nodes

routed-IsLive : (t : IncidentState) → IsLive (some (route_after_investigator t))
unfolding route_after_investigator
routed-IsLive t = go (leb 5 t.investigation_attempts) (any is_confirmed t.hypotheses)
  where
    go :
        (late sure : Bool)
        → IsLive (
            some
              (if late then node_coordinator else if sure then node_planner else node_collectors))
    go true sure = inr (inr (inr (inr (inl refl))))
    go false true = inr (inr (inr (inl refl)))
    go false false = inr (inr (inl refl))

module _ (world : World) where
  pub Step-steps_left :
      (node : String) (s t : IncidentState)
      → Step world node s t
      → suc (steps_left (successor node t) t.investigation_attempts)
        ≤ steps_left (some node) s.investigation_attempts
  unfolding successor intake_node
  Step-steps_left _ _ _ (at_intake s now) = omega arith
  Step-steps_left _ _ _ (at_investigator s now reply u e) =
      routed_left (investigated s u) s.investigation_attempts (attempts_after _ s now reply u e)
  Step-steps_left _ _ _ (at_collectors s services rows supply) = omega arith
  Step-steps_left _ _ _ (at_planner s now reply u e) = omega arith
  Step-steps_left _ _ _ (at_coordinator s supply u e) = omega arith

  run_left :
      (n : ℕ) (place : Option String) (s : IncidentState) (last : Option String) (t : IncidentState)
      → Run world n place s last t
      → n ≤ steps_left place s.investigation_attempts
  run_left _ _ _ _ _ (stay place s) = omega arith
  run_left _ _ _ _ _ (step n node s t last u now rest) =
      omega (arith, Step-steps_left node s t now, run_left n (successor node t) t last u rest)

  -- Every run from the intake has at most eleven steps, whatever the model and the services answer
  -- and however many attempts the incident has had.
  pub run_bounded :
      (n : ℕ) (s : IncidentState) (last : Option String) (t : IncidentState)
      → Run world n (some node_intake) s last t
      → n ≤ 11
  run_bounded n s last t run =
      let h = run_left n (some node_intake) s last t run in
      elim (Bool-cases (leb 4 s.investigation_attempts)) [
        | inl late ↦ ground arith
        | inr early ↦ ground arith
      ]

  pub Step-IsLive :
      (node : String) (s t : IncidentState) → Step world node s t → IsLive (successor node t)
  unfolding successor intake_node route_after_investigator
  Step-IsLive _ _ _ (at_intake s now) = inr (inl refl)
  Step-IsLive _ _ _ (at_investigator s now reply u e) = routed-IsLive (investigated s u)
  Step-IsLive _ _ _ (at_collectors s services rows supply) = inr (inl refl)
  Step-IsLive _ _ _ (at_planner s now reply u e) = inr (inr (inr (inr (inl refl))))
  Step-IsLive _ _ _ (at_coordinator s supply u e) = tt

  Run-IsLive :
      (n : ℕ) (place : Option String) (s : IncidentState) (last : Option String) (t : IncidentState)
      → IsLive place
      → Run world n place s last t
      → IsLive last
  Run-IsLive _ _ _ _ _ h (stay place s) = h
  Run-IsLive _ _ _ _ _ h (step n node s t last u now rest) =
      Run-IsLive n (successor node t) t last u (Step-IsLive node s t now) rest

  -- A run from the intake stands at the end or at the intake, the investigator, the collectors, the
  -- planner or the coordinator: never at the dev agent, the verifier or the reviewer.
  pub run-IsLive :
      (n : ℕ) (s : IncidentState) (last : Option String) (t : IncidentState)
      → Run world n (some node_intake) s last t
      → IsLive last
  run-IsLive n s last t run = Run-IsLive n (some node_intake) s last t (inl refl) run
