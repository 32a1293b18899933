-- ===== src/Routing/Laws.antt =====
-- When each edge out of the investigator is taken.
use alph_e.Common.{◌≤◌, ◌<◌, ◌≡◌, ◌↔◌, true, false, any, arith, eq_iff}
use alph_e.Schemas.{IncidentState, is_confirmed}
use alph_e.Routing.{route_after_investigator, node_coordinator, node_planner, node_collectors}

-- The investigator hands over to the coordinator exactly when five attempts are used up, else to
-- the planner exactly when a hypothesis is confirmed, and to the collectors in all other cases.
pub route_after_investigator_iff :
    (state : IncidentState)
    → ((route_after_investigator state ≡ node_coordinator) ↔ (5 ≤ state.investigation_attempts))
      × ((route_after_investigator state ≡ node_planner)
          ↔ ((state.investigation_attempts < 5) × (any is_confirmed state.hypotheses ≡ true)))
      × ((route_after_investigator state ≡ node_collectors)
          ↔ ((state.investigation_attempts < 5) × (any is_confirmed state.hypotheses ≡ false)))
unfolding route_after_investigator
route_after_investigator_iff state = ground (
  arith,
  eq_iff node_coordinator node_planner,
  eq_iff node_coordinator node_collectors,
  eq_iff node_planner node_collectors,
  eq_iff node_planner node_coordinator,
  eq_iff node_collectors node_planner,
  eq_iff node_collectors node_coordinator,
)
