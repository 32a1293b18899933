-- ===== src/Schemas/Bounds.antt =====
-- What pydantic accepts for the `Field` constraints of agent/src/agent/schemas/{incident,collector}.py.
use alph_e.Common.{ℕ, ◌^◌, Bool, ◌&&◌, leb, all}
use alph_e.Schemas.Incident.{Hypothesis, Finding, CollectorOutput, IncidentState}

-- the numerator of 1.0
unfoldable pub max_score : ℕ
max_score = 2 ^ 1074

unfoldable pub accepts_hypothesis : Hypothesis → Bool
unfolding max_score
accepts_hypothesis h = leb h.score max_score

unfoldable pub accepts_finding : Finding → Bool
unfolding max_score
accepts_finding f = leb f.confidence max_score

-- its two counts are natural numbers
unfoldable pub accepts_collector_output : CollectorOutput → Bool
unfolding accepts_finding
accepts_collector_output o = accepts_finding o.finding

unfoldable pub accepts_state : IncidentState → Bool
unfolding accepts_hypothesis accepts_finding
accepts_state s = all accepts_hypothesis s.hypotheses && all accepts_finding s.findings
