-- ===== src/Investigator/Told.antt =====
-- What the investigator's message tells of an incident: it is determined by the message.
use alph_e.Common.{
  ℕ, zero, suc, String, ◌≡◌, refl, sym, ap, ◌∙◌, List, [], ◌∷◌, map, ◌==◌, if◌then◌else◌, Value,
  Elements, Members, each, fields_of, IsExactWriter, dumps-injective,
}
use alph_e.Schemas.{
  IncidentState, Hypothesis, HypothesisStatus, Finding, Severity, severity_name, status_name,
}
use alph_e.Investigator.Message.{
  investigator_message, investigator_payload, alert_json, hypothesis_json, finding_json,
}

-- the value of a field, by its place
nth_field : ℕ → Members → Value
nth_field n Members.no_members = Value.null
nth_field zero (Members.member k v vs) = v
nth_field (suc n) (Members.member k v vs) = nth_field n vs

at : ℕ → Value → Value
unfolding nth_field
at n (Value.object vs) = nth_field n vs
at n _ = Value.null

text_of : Value → String
text_of (Value.text s) = s
text_of _ = ""

natural_of : Value → ℕ
natural_of (Value.number n) = n
natural_of (Value.float x) = x
natural_of _ = 0

members : Elements → List Value
members Elements.no_elements = []
members (Elements.element v vs) = v ∷ members vs

members_of : Value → List Value
unfolding members
members_of (Value.array vs) = members vs
members_of _ = []

entries : Members → List (String × String)
unfolding text_of
entries Members.no_members = []
entries (Members.member k v vs) = (k, text_of v) ∷ entries vs

entries_of : Value → List (String × String)
unfolding entries
entries_of (Value.object vs) = entries vs
entries_of _ = []

texts-each : (xs : List String) → map text_of (members (each Value.text xs)) ≡ xs
unfolding members each text_of
texts-each [] = refl
texts-each (x ∷ xs) = ap (λ ys. x ∷ ys) (texts-each xs)

entries-labels :
    (xs : List (String × String))
    → entries (fields_of (map (λ entry. (entry.0, Value.text entry.1)) xs)) ≡ xs
unfolding entries fields_of text_of
entries-labels [] = refl
entries-labels (x ∷ xs) = ap (λ ys. x ∷ ys) (entries-labels xs)

status_of : String → HypothesisStatus
status_of s =
    if s == "open"
    then HypothesisStatus.still_open
    else if s == "confirmed"
    then HypothesisStatus.confirmed
    else if s == "refuted"
    then HypothesisStatus.refuted
    else HypothesisStatus.abandoned

status_of-status_name : (s : HypothesisStatus) → status_of (status_name s) ≡ s
unfolding status_of
status_of-status_name HypothesisStatus.still_open = refl
status_of-status_name _ = refl

severity_of : String → Severity
severity_of s =
    if s == "critical"
    then Severity.critical
    else if s == "high"
    then Severity.high
    else if s == "medium"
    then Severity.medium
    else Severity.low

severity_of-severity_name : (s : Severity) → severity_of (severity_name s) ≡ s
unfolding severity_of
severity_of-severity_name Severity.critical = refl
severity_of-severity_name _ = refl

-- A hypothesis without the time of its making, and a finding without what the message leaves out.
abbrev pub told_hypothesis : Hypothesis → Hypothesis
told_hypothesis h = record h { created_at = 0 }

abbrev pub told_finding : Finding → Finding
told_finding f = record f { evidence_id = ""; suggested_followups = []; created_at = 0 }

read_hypothesis : Value → Hypothesis
unfolding at text_of natural_of members_of status_of
read_hypothesis v = record {
  id = text_of (at 0 v);
  text = text_of (at 1 v);
  score = natural_of (at 2 v);
  status = status_of (text_of (at 3 v));
  supporting_evidence_ids = map text_of (members_of (at 4 v));
  refuting_evidence_ids = map text_of (members_of (at 5 v));
  created_at = 0;
}

read_finding : Value → Finding
unfolding at text_of natural_of
read_finding v = record {
  id = text_of (at 0 v);
  collector_name = text_of (at 1 v);
  question = text_of (at 2 v);
  summary = text_of (at 3 v);
  evidence_id = "";
  confidence = natural_of (at 4 v);
  suggested_followups = [];
  created_at = 0;
}

read_hypothesis-hypothesis_json :
    (h : Hypothesis) → read_hypothesis (hypothesis_json h) ≡ told_hypothesis h
unfolding read_hypothesis hypothesis_json
read_hypothesis-hypothesis_json h = λ i. record {
  id = h.id;
  text = h.text;
  score = h.score;
  status = status_of-status_name h.status i;
  supporting_evidence_ids = texts-each h.supporting_evidence_ids i;
  refuting_evidence_ids = texts-each h.refuting_evidence_ids i;
  created_at = 0;
}

read_finding-finding_json : (f : Finding) → read_finding (finding_json f) ≡ told_finding f
unfolding read_finding finding_json
read_finding-finding_json f = refl

read-each :
    {A B : Type 0} (f : A → Value) (read : Value → B) (told : A → B)
    → ((a : A) → read (f a) ≡ told a)
    → (xs : List A) → map read (members (each f xs)) ≡ map told xs
unfolding members each
read-each f read told law [] = refl
read-each f read told law (x ∷ xs) = λ i. law x i ∷ read-each f read told law xs i

-- What two incidents have in common that the model cannot tell apart.
pub record IsToldAlike (isoformat : ℕ → String) (s t : IncidentState) : Type 0 where
  pub incident_id : s.incident_id ≡ t.incident_id
  pub attempts : s.investigation_attempts ≡ t.investigation_attempts
  pub source : s.alert.source ≡ t.alert.source
  pub raw_message : s.alert.raw_message ≡ t.alert.raw_message
  pub service : s.alert.service ≡ t.alert.service
  pub severity : s.alert.severity ≡ t.alert.severity
  pub fired_at : isoformat s.alert.fired_at ≡ isoformat t.alert.fired_at
  pub labels : s.alert.labels ≡ t.alert.labels
  pub hypotheses : map told_hypothesis s.hypotheses ≡ map told_hypothesis t.hypotheses
  pub findings : map told_finding s.findings ≡ map told_finding t.findings

-- Where the texts of floats tell them apart and from naturals: two incidents for which the
-- investigator is sent the same message have the same id, attempts and alert, the time by its text,
-- the same hypotheses but for the times of their making, and the same findings but for evidence,
-- follow-ups and times.
pub investigator_message-IsToldAlike :
    (float_text isoformat : ℕ → String)
    → IsExactWriter float_text
    → (s t : IncidentState)
    → investigator_message float_text isoformat s ≡ investigator_message float_text isoformat t
    → IsToldAlike isoformat s t
unfolding investigator_message alert_json at text_of natural_of entries_of members_of
investigator_message-IsToldAlike float_text isoformat floats s t e =
    let same =
      dumps-injective float_text floats (investigator_payload isoformat s)
        (investigator_payload isoformat t) e in
    let alerts = ap (at 2) same in
    record {
      incident_id = ap (λ v. text_of (at 0 v)) same;
      attempts = ap (λ v. natural_of (at 1 v)) same;
      source = ap (λ v. text_of (at 0 v)) alerts;
      raw_message = ap (λ v. text_of (at 1 v)) alerts;
      service = ap (λ v. text_of (at 2 v)) alerts;
      severity =
          sym (severity_of-severity_name s.alert.severity)
          ∙ (ap (λ v. severity_of (text_of (at 3 v))) alerts
              ∙ severity_of-severity_name t.alert.severity);
      fired_at = ap (λ v. text_of (at 4 v)) alerts;
      labels =
          sym (entries-labels s.alert.labels)
          ∙ (ap (λ v. entries_of (at 5 v)) alerts ∙ entries-labels t.alert.labels);
      hypotheses =
          sym (
            read-each hypothesis_json read_hypothesis told_hypothesis
              read_hypothesis-hypothesis_json s.hypotheses)
          ∙ (ap (λ v. map read_hypothesis (members_of (at 3 v))) same
              ∙ read-each hypothesis_json read_hypothesis told_hypothesis
                  read_hypothesis-hypothesis_json t.hypotheses);
      findings =
          sym
            (read-each finding_json read_finding told_finding read_finding-finding_json s.findings)
          ∙ (ap (λ v. map read_finding (members_of (at 4 v))) same
              ∙ read-each finding_json read_finding told_finding read_finding-finding_json
                  t.findings);
    }
