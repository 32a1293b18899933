-- ===== src/Planner/Decision.antt =====
-- What the planner decides: when it adds an intent, and that the coordinator can verify it.
use mathlib.Core.Path.{subst}
use alph_e.Common.{
  ℕ, ◌+◌, String, ◌≡◌, refl, ap, ◌∙◌, ◌⊎◌, inl, inr, Option, none, some, [], ◌∷◌, ◌++◌, ok, arith,
  All, All-append,
}
use alph_e.Schemas.{
  IncidentState, IncidentPhase, TimelineEvent, ActionIntent, ActionType, RemediationType,
  action_type_name,
}
use alph_e.Security.{Crypto, new_signer, sign, verify, compute_intent_hash, canonical}
use alph_e.Security.Laws.{IsKeyPair, verify-sign}
use alph_e.Coordinator.Verification.{IsOk}
use alph_e.Planner.Gate.{
  IsSure, Mutates, action_of_decision, gated-keeps, decision-type, no_mutation, mutation,
  planner_node-IsStep,
}
use alph_e.Planner.{PlannerDecision, PlannerUpdate, planner_node, build_intent, unsigned_intent}

-- The intent that carries out a decision: its action with all it says of it, open for approval for
-- fifteen minutes, and signed.
pub record CarriesOut (crypto : Crypto) (key : crypto.PrivateKey) (d : PlannerDecision)
    (a : ActionType) (now : ℕ) (i : ActionIntent) : Type 0 where
  pub action_type : i.action_type ≡ a
  pub target : i.target ≡ d.action_target
  pub parameters : i.parameters ≡ d.action_parameters
  pub expected_effect : i.expected_effect ≡ d.expected_effect
  pub rollback_hint : i.rollback_hint ≡ d.rollback_hint
  pub signer : i.signer ≡ "orchestrator:planner"
  pub pending : (i.approval_status ≡ "pending") × (i.approved_by ≡ none) × (i.approved_at ≡ none)
  pub expires_at : i.expires_at ≡ now + 900000000
  pub hash :
      i.hash
      ≡ crypto.sha256 (
          canonical
            (action_type_name a)
            d.action_target
            d.action_parameters
            d.expected_effect
            d.rollback_hint)
  pub signature : i.signature ≡ crypto.b64encode (crypto.sign_bytes key i.hash)

-- What the planner leaves: the plan of the decision, whose type is `none` if the decision is not sure;
-- one event, which names the plan; and one new intent if it is sure of a mutation, and no new one else.
pub record IsDecided (crypto : Crypto) (key : crypto.PrivateKey) (state : IncidentState) (now : ℕ)
    (d : PlannerDecision) (u : PlannerUpdate) : Type 0 where
  pub phase : u.phase ≡ IncidentPhase.planning
  pub timeline :
      (event : TimelineEvent) × (u.timeline ≡ state.timeline ++ event ∷ [])
      × (event.ref_id ≡ some d.plan_id)
  pub plan :
      (u.remediation_plan.id ≡ d.plan_id)
      × (u.remediation_plan.confidence ≡ d.confidence)
      × (u.remediation_plan.evidence_ids ≡ d.evidence_ids)
      × (u.remediation_plan.target_repos ≡ d.target_repos)
      × (u.remediation_plan.target_services ≡ d.target_services)
      × (u.remediation_plan.rollback_plan ≡ d.rollback_plan)
      × (u.remediation_plan.requires_human_approval ≡ d.requires_human_approval)
  pub type :
      (IsSure d × (u.remediation_plan.type ≡ d.plan_type))
      ⊎ ((¬ IsSure d) × (u.remediation_plan.type ≡ RemediationType.none))
  pub intents :
      (((a : ActionType) → ¬ (IsSure d × Mutates d.plan_type a))
        × (u.action_intents ≡ state.action_intents))
      ⊎ ((a : ActionType) × IsSure d
          × Mutates d.plan_type a
          × ((i : ActionIntent) × (u.action_intents ≡ state.action_intents ++ i ∷ [])
              × CarriesOut crypto key d a now i))

module _ (crypto : Crypto) (signing_key : Option String) (private : crypto.PrivateKey)
    (loaded : new_signer crypto signing_key ≡ ok private) where
  decided-verifies :
      (public : crypto.PublicKey) (state : IncidentState) (now : ℕ) (d : PlannerDecision)
      (u : PlannerUpdate)
      → IsKeyPair crypto private public
      → All (λ i. IsOk (verify crypto public i)) state.action_intents
      → ((action_of_decision d ≡ none) × (u.action_intents ≡ state.action_intents))
        ⊎ ((a : ActionType) × (action_of_decision d ≡ some a)
            × (u.action_intents ≡ state.action_intents ++ build_intent crypto private d a now ∷ []))
      → All (λ i. IsOk (verify crypto public i)) u.action_intents
  unfolding build_intent
  decided-verifies public state now d u pair before (inl (_, kept)) = rw kept before
  decided-verifies public state now d u pair before (inr (a, _, added)) = rw added (
      All-append (λ i. IsOk (verify crypto public i)) state.action_intents _ before
        (rw (verify-sign crypto private public pair (unsigned_intent d a now)) tt, tt))

  -- With a signing key that can be loaded and the public key of its pair: if the verifier accepts
  -- every intent that was there, it accepts every intent that the planner leaves.
  pub planner_node-verifies :
      (public : crypto.PublicKey) (state : IncidentState) (now : ℕ) (d : PlannerDecision)
      (u : PlannerUpdate)
      → IsKeyPair crypto private public
      → All (λ i. IsOk (verify crypto public i)) state.action_intents
      → planner_node crypto signing_key state now (ok d) ≡ ok u
      → All (λ i. IsOk (verify crypto public i)) u.action_intents
  unfolding build_intent
  planner_node-verifies public state now d u pair before run =
      let (u', e, h) = planner_node-IsStep crypto signing_key private loaded state now d in
      let same : u' ≡ u = ground arith in
      subst (λ v. All (λ i. IsOk (verify crypto public i)) v.action_intents) same
        (decided-verifies public state now d u' pair before h.intents)

  built-CarriesOut :
      (d : PlannerDecision) (a : ActionType) (now : ℕ)
      → CarriesOut crypto private d a now (build_intent crypto private d a now)
  unfolding build_intent sign unsigned_intent compute_intent_hash
  built-CarriesOut d a now = record {
    action_type = refl;
    target = refl;
    parameters = refl;
    expected_effect = refl;
    rollback_hint = refl;
    signer = refl;
    pending = (refl, refl, refl);
    expires_at = refl;
    hash = refl;
    signature = refl;
  }

  -- With a signing key that can be loaded and a reply of the model, the planner returns, with the plan
  -- of the decision. Its type is that of the decision for a confidence of at least one half, and `none`
  -- for one below. It adds an intent exactly if the decision is a rollback, a scaling or a flag flip
  -- with at least that confidence; the intent has the decision's action, target, parameters, effect and
  -- hint, may be approved for fifteen minutes, and carries the hash and the signature of these.
  pub planner_node-IsDecided :
      (state : IncidentState) (now : ℕ) (d : PlannerDecision)
      → (u : PlannerUpdate) × (planner_node crypto signing_key state now (ok d) ≡ ok u)
        × IsDecided crypto private state now d u
  planner_node-IsDecided state now d =
      let (u, run, step) = planner_node-IsStep crypto signing_key private loaded state now d in
      let (event, added, names) = step.timeline in
      let kept = gated-keeps d u.remediation_plan step.plan in
      (
        u,
        run,
        record {
          phase = step.phase;
          timeline = (event, added, names ∙ ap some kept.0);
          plan = kept;
          type = decision-type d u.remediation_plan.type step.type;
          intents = elim step.intents [
            | inl (no_action, same) ↦ inl (no_mutation d no_action, same)
            | inr (a, e, new) ↦
                let (sure, m) = mutation d a e in
                inr (a, sure, m, (_, new, built-CarriesOut d a now))
          ];
        },
      )
