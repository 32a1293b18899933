-- ===== src/Intake/Seeded.antt =====
-- What the handler of Alertmanager makes of a payload, agent/src/agent/intake/webhook.py.
use alph_e.Common.{
  ℕ, zero, suc, ◌+◌, String, ◌≡◌, refl, ap, Bool, true, false, List, [], ◌∷◌, map, filter, length,
  nonempty, All, Result, ok, err, Supply, arith, inl, inr, Bool-cases, ◌==◌,
}
use alph_e.Schemas.{IncidentState}
use alph_e.Intake.{
  AlertmanagerAlert, AlertmanagerPayload, IntakeResponse, HttpException, incident_id_of,
  new_incident, seeded_alert, seed_incident, take_in, alertmanager_webhook,
}

abbrev pub is_firing : AlertmanagerAlert → Bool
is_firing alert = alert.status == "firing"

-- The next identifiers of the supply.
abbrev pub drawn_ids : (ℕ → String) → ℕ → ℕ → List String
drawn_ids uuids from zero = []
drawn_ids uuids from (suc n) = incident_id_of (uuids from) ∷ drawn_ids uuids (from + 1) n

-- An incident without any work: the fields besides the alert, the id and the time are empty.
abbrev pub IsNew : IncidentState → Type 0
IsNew i = i ≡ new_incident i.incident_id i.alert i.created_at

-- The incidents taken in from the alerts, with the identifiers that the supply gives.
pub record IsTakenIn (receiver : String) (alerts : List AlertmanagerAlert) (s : Supply)
    (accepted : List IncidentState) (ignored : ℕ) : Type 0 where
  pub ids :
      map (λ i. i.incident_id) accepted
      ≡ drawn_ids s.uuids s.draws (length (filter is_firing alerts))
  pub alerts_kept :
      map (λ i. i.alert) accepted ≡ map (seeded_alert receiver) (filter is_firing alerts)
  pub count : length accepted ≡ length (filter is_firing alerts)
  pub accounted : length accepted + ignored ≡ length alerts
  pub fresh : All IsNew accepted

abbrev after_seed : Supply → Supply
after_seed s = record s { reads = s.reads + 1; draws = s.draws + 1 }

pub take_in-IsTakenIn :
    (receiver : String) (alerts : List AlertmanagerAlert) (s : Supply)
    → IsTakenIn receiver alerts s (take_in receiver alerts s).0.0 (take_in receiver alerts s).0.1
unfolding take_in seed_incident
take_in-IsTakenIn receiver [] s = record {
  ids = refl;
  alerts_kept = refl;
  count = refl;
  accounted = refl;
  fresh = tt;
}
take_in-IsTakenIn receiver (alert ∷ alerts) s = elim (Bool-cases (alert.status == "firing")) [
  | inl h ↦
      let rest = take_in-IsTakenIn receiver alerts (after_seed s) in
      let here : is_firing alert ≡ true = h in
      rw h (record {
        ids = rw here (ap (λ ids. incident_id_of (s.uuids s.draws) ∷ ids) rest.ids);
        alerts_kept = rw here (ap (λ xs. seeded_alert receiver alert ∷ xs) rest.alerts_kept);
        count = rw here (ap suc rest.count);
        accounted = omega (arith, rest.accounted);
        fresh = (refl, rest.fresh);
      })
  | inr h ↦
      let rest = take_in-IsTakenIn receiver alerts s in
      let here : is_firing alert ≡ false = h in
      rw h (record {
        ids = rw here rest.ids;
        alerts_kept = rw here rest.alerts_kept;
        count = rw here rest.count;
        accounted = omega (arith, rest.accounted);
        fresh = rest.fresh;
      })
]

-- What a response says of the payload, and of the incidents behind it.
pub record IsIntake (payload : AlertmanagerPayload) (s : Supply) (response : IntakeResponse)
    : Type 0 where
  pub firing : response.accepted ≡ length (filter is_firing payload.alerts)
  pub accounted : response.accepted + response.ignored ≡ length payload.alerts
  pub ids :
      response.incidents ≡ drawn_ids s.uuids s.draws (length (filter is_firing payload.alerts))

-- no alerts and the refusal, or a response for the alerts
pub data IsAnswer (payload : AlertmanagerPayload) (s : Supply)
    : Result HttpException IntakeResponse → Type 0 where
  refused :
      (e : HttpException) → payload.alerts ≡ [] → e.status_code ≡ 400 → IsAnswer payload s (err e)
  answered :
      (response : IntakeResponse)
      → nonempty payload.alerts ≡ true
      → IsIntake payload s response
      → IsAnswer payload s (ok response)

-- The handler refuses a payload without alerts with status 400. Any other payload it answers: it
-- accepts as many incidents as alerts are firing, the rest of the alerts is ignored, and the
-- incidents have the next identifiers in order.
pub alertmanager_webhook-IsAnswer :
    (payload : AlertmanagerPayload) (s : Supply)
    → IsAnswer payload s (alertmanager_webhook payload s).0
unfolding alertmanager_webhook
alertmanager_webhook-IsAnswer payload s = go payload.alerts refl
  where
    go :
        (alerts : List AlertmanagerAlert)
        → payload.alerts ≡ alerts
        → IsAnswer payload s (alertmanager_webhook payload s).0
    go [] e =
        let no_alert : nonempty payload.alerts ≡ false = rw e in
        rw (no_alert, alertmanager_webhook) (refused _ e refl)
    go (alert ∷ alerts) e =
        let taken = take_in-IsTakenIn payload.receiver payload.alerts s in
        let some_alert : nonempty payload.alerts ≡ true = rw e in
        rw (some_alert, alertmanager_webhook)
          (answered _ some_alert
            (record { firing = taken.count; accounted = taken.accounted; ids = taken.ids }))
