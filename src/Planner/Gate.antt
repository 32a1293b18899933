-- ===== src/Planner/Gate.antt =====
-- The gate of the planner in agent/src/agent/orchestrator/nodes/planner.py, and what a step of it leaves.
use mathlib.Core.Path.{subst}
use alph_e.Common.{
  ℕ, ◌*◌, ◌^◌, ◌≤◌, ◌<◌, Bool-cases, String, ◌≡◌, refl, ◌∙◌, ◌⊎◌, inl, inr, Option, none, some,
  Bool, true, false, [], ◌∷◌, ◌++◌, ok, arith, ltb, if◌then◌else◌, Option-cases,
}
use alph_e.Schemas.{
  IncidentState, IncidentPhase, TimelineEvent, ActionType, RemediationType, RemediationPlan,
}
use alph_e.Security.{Crypto, new_signer}
use alph_e.Planner.{
  PlannerDecision, PlannerUpdate, planner_node, after_gate, decided, build_intent, gated,
  gate_reason, decision_to_plan, force_none_plan, plan_to_action_type, confidence_threshold,
}

-- A confidence of at least one half; it counts multiples of 2^-1074.
abbrev pub IsSure : PlannerDecision → Type 0
IsSure d = 2 ^ 1074 ≤ 2 * d.confidence

-- The plans that mutate, with the action of each.
pub data Mutates : RemediationType → ActionType → Type 0 where
  rolls_back : Mutates RemediationType.rollback ActionType.rollback
  scales : Mutates RemediationType.scale ActionType.scale
  flips : Mutates RemediationType.flag_flip ActionType.flag_flip

-- A decision that wants a mutation and is sure enough.
abbrev pub action_of_decision : PlannerDecision → Option ActionType
action_of_decision d =
    if ltb d.confidence confidence_threshold then none else plan_to_action_type d.plan_type

gate-action :
    (d : PlannerDecision)
    → plan_to_action_type (gated (decision_to_plan d)).type ≡ action_of_decision d
unfolding gated decision_to_plan force_none_plan
gate-action d = go (ltb d.confidence confidence_threshold)
  where
    go :
        (b : Bool)
        → plan_to_action_type
            (if b
              then force_none_plan (decision_to_plan d) (gate_reason (decision_to_plan d))
              else decision_to_plan d).type
          ≡ (if b then none else plan_to_action_type d.plan_type)
    go true = refl
    go false = refl

gate-type :
    (d : PlannerDecision)
    → (gated (decision_to_plan d)).type
      ≡ (if ltb d.confidence confidence_threshold then RemediationType.none else d.plan_type)
unfolding gated decision_to_plan force_none_plan
gate-type d = go (ltb d.confidence confidence_threshold)
  where
    go :
        (b : Bool)
        → (if b
            then force_none_plan (decision_to_plan d) (gate_reason (decision_to_plan d))
            else decision_to_plan d).type
          ≡ (if b then RemediationType.none else d.plan_type)
    go true = refl
    go false = refl

-- What the planner leaves, by the functions that it calls.
pub record IsStep (crypto : Crypto) (key : crypto.PrivateKey) (state : IncidentState) (now : ℕ)
    (d : PlannerDecision) (u : PlannerUpdate) : Type 0 where
  pub phase : u.phase ≡ IncidentPhase.planning
  pub timeline :
      (event : TimelineEvent) × (u.timeline ≡ state.timeline ++ event ∷ [])
      × (event.ref_id ≡ some u.remediation_plan.id)
  pub plan : gated (decision_to_plan d) ≡ u.remediation_plan
  pub type :
      u.remediation_plan.type
      ≡ (if ltb d.confidence confidence_threshold then RemediationType.none else d.plan_type)
  pub intents :
      ((action_of_decision d ≡ none) × (u.action_intents ≡ state.action_intents))
      ⊎ ((a : ActionType) × (action_of_decision d ≡ some a)
          × (u.action_intents ≡ state.action_intents ++ build_intent crypto key d a now ∷ []))

ltb-cases : (a b : ℕ) → ((ltb a b ≡ true) × (a < b)) ⊎ ((ltb a b ≡ false) × (b ≤ a))
ltb-cases a b = elim (Bool-cases (ltb a b)) [
  | inl h ↦ inl (h, ground (arith, h))
  | inr h ↦ inr (h, ground (arith, h))
]

-- the gate as an order
pub gate-IsSure :
    (d : PlannerDecision)
    → (IsSure d × (ltb d.confidence confidence_threshold ≡ false))
      ⊎ ((¬ IsSure d) × (ltb d.confidence confidence_threshold ≡ true))
gate-IsSure d = elim (ltb-cases d.confidence confidence_threshold) [
  | inr (below, above) ↦ inl (omega (arith, above), below)
  | inl (below, under) ↦ inr (λ sure. omega (arith, under, sure), below)
]

mutation-cases :
    (t : RemediationType)
    → (((a : ActionType) → ¬ Mutates t a) × (plan_to_action_type t ≡ none))
      ⊎ ((a : ActionType) × Mutates t a × (plan_to_action_type t ≡ some a))
mutation-cases RemediationType.rollback = inr (ActionType.rollback, rolls_back, refl)
mutation-cases RemediationType.scale = inr (ActionType.scale, scales, refl)
mutation-cases RemediationType.flag_flip = inr (ActionType.flag_flip, flips, refl)
mutation-cases RemediationType.pr = inl (not_so, refl)
  where
    not_so : (a : ActionType) → ¬ Mutates RemediationType.pr a
    not_so a = elim [ ]
mutation-cases RemediationType.runbook = inl (not_so, refl)
  where
    not_so : (a : ActionType) → ¬ Mutates RemediationType.runbook a
    not_so a = elim [ ]
mutation-cases RemediationType.none = inl (not_so, refl)
  where
    not_so : (a : ActionType) → ¬ Mutates RemediationType.none a
    not_so a = elim [ ]

pub gated-keeps :
    (d : PlannerDecision) (p : RemediationPlan)
    → gated (decision_to_plan d) ≡ p
    → (p.id ≡ d.plan_id)
      × (p.confidence ≡ d.confidence)
      × (p.evidence_ids ≡ d.evidence_ids)
      × (p.target_repos ≡ d.target_repos)
      × (p.target_services ≡ d.target_services)
      × (p.rollback_plan ≡ d.rollback_plan)
      × (p.requires_human_approval ≡ d.requires_human_approval)
unfolding gated decision_to_plan force_none_plan
gated-keeps d p e = ground arith

pub decision-type :
    (d : PlannerDecision) (t : RemediationType)
    → t ≡ (if ltb d.confidence confidence_threshold then RemediationType.none else d.plan_type)
    → (IsSure d × (t ≡ d.plan_type)) ⊎ ((¬ IsSure d) × (t ≡ RemediationType.none))
decision-type d t e = elim (gate-IsSure d) [
  | inl (sure, below) ↦ inl (sure, e ∙ rw below refl)
  | inr (unsure, below) ↦ inr (unsure, e ∙ rw below refl)
]

-- the actions of a decision that has none
pub no_mutation :
    (d : PlannerDecision)
    → action_of_decision d ≡ none
    → (a : ActionType) → ¬ (IsSure d × Mutates d.plan_type a)
no_mutation d e a (sure, m) = elim (gate-IsSure d) [
  | inr (unsure, _) ↦ unsure sure
  | inl (_, below) ↦ elim (mutation-cases d.plan_type) [
    | inl (not_so, _) ↦ not_so a m
    | inr (b, _, acts) ↦ absurd (ground (arith, below, e, acts))
  ]
]

pub mutation :
    (d : PlannerDecision) (a : ActionType)
    → action_of_decision d ≡ some a
    → IsSure d × Mutates d.plan_type a
mutation d a e = elim (gate-IsSure d) [
  | inr (_, below) ↦ absurd (ground (arith, below, e))
  | inl (sure, below) ↦ elim (mutation-cases d.plan_type) [
    | inl (_, none_acts) ↦ absurd (ground (arith, below, e, none_acts))
    | inr (b, m, acts) ↦ (sure, subst (Mutates d.plan_type) (ground (arith, below, e, acts)) m)
  ]
]

module _ (crypto : Crypto) (signing_key : Option String) (private : crypto.PrivateKey)
    (loaded : new_signer crypto signing_key ≡ ok private) where
  -- With a key that can be loaded the planner returns.
  pub planner_node-IsStep :
      (state : IncidentState) (now : ℕ) (d : PlannerDecision)
      → (u : PlannerUpdate) × (planner_node crypto signing_key state now (ok d) ≡ ok u)
        × IsStep crypto private state now d u
  unfolding planner_node after_gate decided build_intent
  planner_node-IsStep state now d = elim (Option-cases (action_of_decision d)) [
    | inl no_action ↦ (
      decided state now (gated (decision_to_plan d)) none,
      rw (gate-action d, no_action, after_gate) refl,
      record {
        phase = refl;
        timeline = (_, refl, refl);
        plan = refl;
        type = gate-type d;
        intents = inl (no_action, refl);
      },
    )
    | inr (a, e) ↦ (
      decided state now (gated (decision_to_plan d)) (some (build_intent crypto private d a now)),
      rw (gate-action d, e, after_gate) (rw loaded refl),
      record {
        phase = refl;
        timeline = (_, refl, refl);
        plan = refl;
        type = gate-type d;
        intents = inr (a, e, refl);
      },
    )
  ]
