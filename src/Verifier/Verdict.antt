-- ===== src/Verifier/Verdict.antt =====
-- What the node of agent/src/agent/orchestrator/nodes/verifier.py decides, in each of its branches.
use mathlib.Core.Path.{subst}
use alph_e.Common.{
  All, joined, filter, Bool, ◌⊎◌, ℕ, String, ◌≡◌, ◌≢◌, refl, Option, none, some, List, [], ◌∷◌,
  ◌++◌, map, truthy, Result, ok, err, Bool-cases, inl, inr, arith, eq_iff,
}
use alph_e.Schemas.{
  IncidentState, IncidentPhase, FixProposal, FileChange, ActionIntent, TimelineEvent,
}
use alph_e.Llm.{LlmError}
use alph_e.Verifier.{
  VerifierLlmOutput, VerifierUpdate, verified, check_git_apply, active_intent, kind_name,
}
use alph_e.Verifier.Laws.{
  active_intent-IsActive, Ended, StopsAt, GitChecked, check_git_apply-GitChecked,
}
use alph_e.Verifier.Manifests.{check_kubectl_dry_run, looks_like_k8s_manifest, combined_yaml}
use alph_e.Verifier.Node.{
  Checks, CheckResult, VerifierError, llm_raised, run_raised, both_checks, proposal_checks,
  intent_checks, conclude, noop_result, build_user_message, verify_intent, verifier_node,
}

-- The changes of a proposal that look like manifests.
abbrev pub manifests : FixProposal → List FileChange
manifests p = filter looks_like_k8s_manifest p.changes

-- What kubectl has to say of a proposal: nothing where no change is a manifest, else the output of its
-- run on the contents of the manifests.
abbrev pub KubectlSays : Checks → FixProposal → String → Type 0
KubectlSays checks p output =
    ((manifests p ≡ []) × (output ≡ ""))
    ⊎ ((manifests p ≢ [])
        × ((b : Bool) × (checks.kubectl (combined_yaml (manifests p)) ≡ ok (b, output))))

-- The checks that a verdict names: those of the proposal, the one with kubectl only where kubectl has
-- an output, or that of the intent.
pub data NamesChecks (checks : Checks) : Option FixProposal → List String → Type 0 where
  git_alone :
      (p : FixProposal)
      → KubectlSays checks p ""
      → NamesChecks checks (some p) ("git.apply.check" ∷ [])
  git_and_kubectl :
      (p : FixProposal) (output : String)
      → KubectlSays checks p output
      → output ≢ ""
      → NamesChecks checks (some p) ("git.apply.check" ∷ "kubectl.apply.dry-run.server" ∷ [])
  precondition : NamesChecks checks none ("action_intent.precondition" ∷ [])

-- The run of git on a change raised, after it had ended on those before; or it ended on all, some change
-- is a manifest, and the run of kubectl raised.
pub data RunRaised (checks : Checks) (p : FixProposal) (exc : String) : Type 0 where
  git_raised : StopsAt checks.git p.changes exc → RunRaised checks p exc
  kubectl_raised :
      All (λ c. (b : Bool) × Ended checks.git c b) p.changes
      → manifests p ≢ []
      → checks.kubectl (combined_yaml (manifests p)) ≡ err exc
      → RunRaised checks p exc

-- The update that a verdict of the model gives.
pub record IsJudged (checks : Checks) (proposal : Option FixProposal) (state : IncidentState)
    (now : ℕ) (output : VerifierLlmOutput) (u : VerifierUpdate) : Type 0 where
  pub kind : u.verifier_result.kind ≡ output.kind
  pub failures : u.verifier_result.failures ≡ output.failures
  pub named : NamesChecks checks proposal u.verifier_result.checks_run
  pub phase : u.phase ≡ IncidentPhase.verifying
  pub timeline :
      (event : TimelineEvent) × (u.timeline ≡ state.timeline ++ event ∷ [])
      × (event.ref_id ≡ some (kind_name output.kind))

-- What is verified, with the checks that were run: the proposal, or the active intent without one.
pub data HasSubject (checks : Checks) (state : IncidentState)
    : Option FixProposal → Option ActionIntent → List CheckResult → Type 0 where
  the_proposal :
      (p : FixProposal) (results : List CheckResult)
      → proposal_checks checks p ≡ ok results
      → HasSubject checks state (some p) none results
  the_intent :
      (i : ActionIntent)
      → active_intent state.action_intents ≡ some i
      → HasSubject checks state none (some i) (intent_checks checks i)

pub data IsVerdict (checks : Checks) (proposal : Option FixProposal) (state : IncidentState)
    (now : ℕ) : Result VerifierError VerifierUpdate → Type 0 where
  skipped :
      proposal ≡ none
      → state.action_intents ≡ []
      → IsVerdict checks proposal state now (ok (verified state now noop_result))
  unrun :
      (p : FixProposal) (exc : String)
      → proposal ≡ some p
      → RunRaised checks p exc
      → IsVerdict checks proposal state now (err (run_raised exc))
  raised :
      (intent : Option ActionIntent) (results : List CheckResult) (e : LlmError)
      → HasSubject checks state proposal intent results
      → checks.ask (build_user_message state proposal intent results) ≡ err e
      → IsVerdict checks proposal state now (err (llm_raised e))
  judged :
      (intent : Option ActionIntent) (results : List CheckResult) (output : VerifierLlmOutput)
      (u : VerifierUpdate)
      → HasSubject checks state proposal intent results
      → checks.ask (build_user_message state proposal intent results) ≡ ok output
      → IsJudged checks proposal state now output u
      → IsVerdict checks proposal state now (ok u)

conclude-IsVerdict :
    (checks : Checks) (proposal : Option FixProposal) (state : IncidentState) (now : ℕ)
    (intent : Option ActionIntent) (results : List CheckResult) (dry_run_output : String)
    (reply : Result LlmError VerifierLlmOutput)
    → HasSubject checks state proposal intent results
    → checks.ask (build_user_message state proposal intent results) ≡ reply
    → NamesChecks checks proposal (map (λ c. c.name) results)
    → IsVerdict checks proposal state now (conclude state now results dry_run_output reply)
unfolding conclude verified
conclude-IsVerdict checks proposal state now intent results dry (err e) subject asked named =
    raised intent results e subject asked
conclude-IsVerdict checks proposal state now intent results dry (ok output) subject asked named =
    judged intent results output _ subject asked (record {
      kind = refl;
      failures = refl;
      named = named;
      phase = refl;
      timeline = (_, refl, refl);
    })

-- What the check with kubectl gives: what the run raises, or its output.
KubectlGives : Checks → FixProposal → Result String (Bool × String) → Type 0
KubectlGives checks p (err exc) =
    (manifests p ≢ []) × (checks.kubectl (combined_yaml (manifests p)) ≡ err exc)
KubectlGives checks p (ok (b, output)) = KubectlSays checks p output

check_kubectl_dry_run-KubectlGives :
    (checks : Checks) (p : FixProposal)
    → KubectlGives checks p (check_kubectl_dry_run checks.kubectl p)
unfolding KubectlGives check_kubectl_dry_run joined
check_kubectl_dry_run-KubectlGives checks p = go (manifests p) refl
  where
    go :
        (cs : List FileChange)
        → manifests p ≡ cs
        → KubectlGives checks p (check_kubectl_dry_run checks.kubectl p)
    go [] e = rw (e, check_kubectl_dry_run) (inl (e, refl))
    go (c ∷ cs) e = run (checks.kubectl (combined_yaml (c ∷ cs))) refl
      where
        some_manifest : manifests p ≢ []
        some_manifest q = absurd (ground (arith, e, q))

        run :
            (r : Result String (Bool × String))
            → checks.kubectl (combined_yaml (c ∷ cs)) ≡ r
            → KubectlGives checks p (check_kubectl_dry_run checks.kubectl p)
        run (err exc) q = rw (e, q, check_kubectl_dry_run) (some_manifest, rw e q)
        run (ok (b, output)) q = rw (e, q, check_kubectl_dry_run) (inr (some_manifest, (b, rw e q)))

both_checks-NamesChecks :
    (checks : Checks) (p : FixProposal) (git : Bool × String) (b : Bool) (output : String)
    → KubectlSays checks p output
    → NamesChecks checks (some p) (map (λ c. c.name) (both_checks git (b, output)))
unfolding both_checks truthy
both_checks-NamesChecks checks p (d, shown) b output says = elim (Bool-cases (truthy output)) [
  | inl h ↦
      rw h (git_and_kubectl p output says (λ e. absurd (ground (arith, h, e, eq_iff output ""))))
  | inr h ↦
      rw h (git_alone p (subst (KubectlSays checks p) (ground (arith, h, eq_iff output "")) says))
]

no_intent : (intents : List ActionIntent) → active_intent intents ≡ none → intents ≡ []
no_intent [] e = refl
no_intent (i ∷ rest) e =
    let (k, found, _) = active_intent-IsActive (i ∷ rest) (λ q. absurd (ground (arith, q))) in
    absurd (ground (arith, found, e))

intent-IsVerdict :
    (checks : Checks) (state : IncidentState) (now : ℕ) (o : Option ActionIntent)
    → active_intent state.action_intents ≡ o
    → IsVerdict checks none state now (verify_intent checks state now o)
unfolding verify_intent intent_checks
intent-IsVerdict checks state now none e = skipped refl (no_intent state.action_intents e)
intent-IsVerdict checks state now (some intent) e =
    conclude-IsVerdict checks none state now (some intent) (intent_checks checks intent) _ _
      (the_intent intent e) refl precondition

proposal-IsVerdict :
    (checks : Checks) (p : FixProposal) (state : IncidentState) (now : ℕ)
    (g k : Result String (Bool × String))
    → check_git_apply checks.git p ≡ g
    → GitChecked checks.git p.changes g
    → check_kubectl_dry_run checks.kubectl p ≡ k
    → KubectlGives checks p k
    → IsVerdict checks (some p) state now (verifier_node checks (some p) state now)
unfolding verifier_node proposal_checks KubectlGives
proposal-IsVerdict checks p state now (err exc) k e h f says =
    rw (e, verifier_node, proposal_checks) (unrun p exc refl (git_raised h))
proposal-IsVerdict checks p state now (ok git) (err exc) e h f says =
    rw (e, f, verifier_node, proposal_checks) (unrun p exc refl (kubectl_raised h.0 says.0 says.1))
proposal-IsVerdict checks p state now (ok git) (ok (b, output)) e h f says =
    rw (e, f, verifier_node, proposal_checks)
      (conclude-IsVerdict checks (some p) state now none (both_checks git (b, output)) _ _
        (the_proposal p _ (rw (e, f, proposal_checks) refl)) refl
        (both_checks-NamesChecks checks p git b output says))

-- The verifier skips the verification only where there is neither a proposal nor an intent. For a proposal
-- it raises what the first run of git on a change raised, or else what the run of kubectl raised, which
-- there is only for manifests. Else it asks the model with the message on the proposal, or on the active
-- intent, and on the checks that were run; it raises what the call raised, or its verdict and failures
-- are the model's, it names the checks, that of kubectl only where kubectl has an output, and it adds
-- one event, which names the verdict.
pub verifier_node-IsVerdict :
    (checks : Checks) (proposal : Option FixProposal) (state : IncidentState) (now : ℕ)
    → IsVerdict checks proposal state now (verifier_node checks proposal state now)
unfolding verifier_node
verifier_node-IsVerdict checks none state now =
    intent-IsVerdict checks state now (active_intent state.action_intents) refl
verifier_node-IsVerdict checks (some p) state now =
    proposal-IsVerdict checks p state now _ _ refl (check_git_apply-GitChecked checks.git p) refl
      (check_kubectl_dry_run-KubectlGives checks p)
