-- ===== src/Coordinator/Preflight/Table.antt =====
-- The order of the tests of `check_preflight` and its decision table agree.
use alph_e.Common.{◌≡◌, refl, true, false, List, [], ◌∷◌, filter, any, all, nonempty, arith}
use alph_e.Schemas.{IncidentState, ActionIntent, Hypothesis, is_confirmed, is_negative}
use alph_e.Coordinator.Preflight.{PreflightOutcome, check_preflight, preflight_table}

nonempty-filter : (hs : List Hypothesis) → nonempty (filter is_confirmed hs) ≡ any is_confirmed hs
nonempty-filter [] = refl
nonempty-filter (h ∷ hs) = ground (arith, nonempty-filter hs)

-- No hypothesis is both confirmed and refuted or abandoned.
not_all_negative : (hs : List Hypothesis) → any is_confirmed hs ≡ true → all is_negative hs ≡ false
not_all_negative [] h = ground arith
not_all_negative (h ∷ hs) e = ground (arith, not_all_negative hs)

-- The outcome depends only on the hypotheses and on whether there is an intent, by the table.
pub check_preflight-eq-table :
    (state : IncidentState) (intents : List ActionIntent)
    → (check_preflight state intents).outcome ≡ preflight_table state.hypotheses (nonempty intents)
unfolding check_preflight
check_preflight-eq-table state intents =
    ground (arith, nonempty-filter state.hypotheses, not_all_negative state.hypotheses)

-- The check is passed exactly for a confirmed hypothesis and at least one intent.
pub check_preflight-eq-ok_iff :
    (state : IncidentState) (intents : List ActionIntent)
    → ((check_preflight state intents).outcome ≡ PreflightOutcome.ok
        → (any is_confirmed state.hypotheses ≡ true) × (nonempty intents ≡ true))
      × ((any is_confirmed state.hypotheses ≡ true) × (nonempty intents ≡ true)
          → (check_preflight state intents).outcome ≡ PreflightOutcome.ok)
check_preflight-eq-ok_iff state intents =
    rw (check_preflight-eq-table state intents) (ground arith, ground arith)
