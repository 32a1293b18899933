-- ===== src/Intake/Slack/Report.antt =====
-- What an investigation of agent/src/agent/intake/slack.py reports.
use text.Mathlib.TextLemmas.{append_assoc as text_assoc}
use alph_e.Common.{
  ◌<>◌, ◌≤◌, String, ◌≡◌, refl, true, List, [], ◌∷◌, ◌++◌, length, nonempty, Any, inl, inr, Result,
  ok, err, Supply, joined, get_or, length-append, arith, if◌then◌else◌,
}
use alph_e.Schemas.{IncidentState}
use alph_e.Intake.Slack.Investigation.{
  Desk, CollectorReply, raised, refused, answered, suggested_actions, kube_findings, prom_findings,
  ai_findings, investigation_findings, investigate_incident,
}

-- A section begins with the text.
abbrev pub HasSection : String → List String → Type 0
HasSection title = Any (λ section. (rest : String) × (section ≡ title <> rest))

abbrev pub kube_title : String
kube_title = "**🔍 Kubernetes Analysis:**"

abbrev pub prom_title : String
prom_title = "**📊 Metrics Analysis:**"

-- The report consists of two to four sections, with one on Kubernetes and one on the metrics.
pub record IsReport (report : String) : Type 0 where
  pub sections : List String
  pub whole : report ≡ joined "\n\n" sections
  pub at_least : 2 ≤ length sections
  pub at_most : length sections ≤ 4
  pub kubernetes : HasSection kube_title sections
  pub metrics : HasSection prom_title sections

HasSection-left :
    (title : String) (xs ys : List String) → HasSection title xs → HasSection title (xs ++ ys)
HasSection-left title [] ys h = absurd h
HasSection-left title (x ∷ xs) ys (inl h) = inl h
HasSection-left title (x ∷ xs) ys (inr h) = inr (HasSection-left title xs ys h)

HasSection-right :
    (title : String) (xs ys : List String) → HasSection title ys → HasSection title (xs ++ ys)
HasSection-right title [] ys h = h
HasSection-right title (x ∷ xs) ys h = inr (HasSection-right title xs ys h)

kube_findings-HasSection : (r : CollectorReply) → HasSection kube_title (kube_findings r)
unfolding kube_findings
kube_findings-HasSection (raised e) =
    inl (" Error during investigation: " <> e, text_assoc kube_title _ e)
kube_findings-HasSection (refused code) = inl (" Unable to connect to kube-collector", refl)
kube_findings-HasSection (answered summary followups) =
    inl ("\n" <> get_or summary "No data available", text_assoc kube_title _ _)

prom_findings-HasSection : (r : CollectorReply) → HasSection prom_title (prom_findings r)
unfolding prom_findings
prom_findings-HasSection (raised e) =
    inl (" Error during metrics collection: " <> e, text_assoc prom_title _ e)
prom_findings-HasSection (refused code) = inl (" Unable to connect to prometheus collector", refl)
prom_findings-HasSection (answered summary followups) =
    inl ("\n" <> get_or summary "No metrics data available", text_assoc prom_title _ _)

suggested_actions-length : (f : Result String (List String)) → length (suggested_actions f) ≤ 1
unfolding suggested_actions
suggested_actions-length (err e) = omega arith
suggested_actions-length (ok []) = omega arith
suggested_actions-length (ok (x ∷ xs)) = omega arith

kube_findings-length :
    (r : CollectorReply) → (1 ≤ length (kube_findings r)) × (length (kube_findings r) ≤ 2)
unfolding kube_findings
kube_findings-length (raised e) = (omega arith, omega arith)
kube_findings-length (refused code) = (omega arith, omega arith)
kube_findings-length (answered summary followups) =
    (omega arith, omega (arith, suggested_actions-length followups))

prom_findings-length : (r : CollectorReply) → length (prom_findings r) ≡ 1
unfolding prom_findings
prom_findings-length (raised e) = refl
prom_findings-length (refused code) = refl
prom_findings-length (answered summary followups) = refl

ai_findings-length :
    (desk : Desk) (text : String) (findings : List String)
    → length (ai_findings desk text findings) ≤ 1
unfolding ai_findings
ai_findings-length desk text findings = ground arith

sections-IsReport :
    (kube prom ai : List String)
    → (1 ≤ length kube) × (length kube ≤ 2)
    → length prom ≡ 1
    → length ai ≤ 1
    → HasSection kube_title kube
    → HasSection prom_title prom
    → IsReport (
        if nonempty ((kube ++ prom) ++ ai)
        then joined "\n\n" ((kube ++ prom) ++ ai)
        else "*No investigation data available. Collectors may not be accessible.*")
sections-IsReport kube prom ai h k l a b = record {
  sections = (kube ++ prom) ++ ai;
  whole = rw (nonempty_of_two _ at_least) refl;
  at_least = at_least;
  at_most = omega (arith, length-append (kube ++ prom) ai, length-append kube prom, h.1, k, l);
  kubernetes = HasSection-left kube_title _ ai (HasSection-left kube_title kube prom a);
  metrics = HasSection-left prom_title _ ai (HasSection-right prom_title kube prom b);
}
  where
    at_least : 2 ≤ length ((kube ++ prom) ++ ai)
    at_least = omega (arith, length-append (kube ++ prom) ai, length-append kube prom, h.0, k)

    nonempty_of_two : (xs : List String) → 2 ≤ length xs → nonempty xs ≡ true
    nonempty_of_two [] q = absurd (omega (arith, q))
    nonempty_of_two (x ∷ xs) q = refl

-- Whatever the collectors and the language model answer or raise, an investigation gives a report
-- of two to four sections, one of which is on Kubernetes and one on the metrics.
pub investigate_incident-IsReport :
    (desk : Desk) (incident : IncidentState) (text : String) (s : Supply)
    → IsReport (investigate_incident desk incident text s).0
unfolding investigate_incident investigation_findings
investigate_incident-IsReport desk incident text s =
    sections-IsReport (kube_findings _) (prom_findings _) (ai_findings desk text _)
      (kube_findings-length _) (prom_findings-length _) (ai_findings-length desk text _)
      (kube_findings-HasSection _) (prom_findings-HasSection _)
