-- ===== src/Examples/Execution.antt =====
-- The executor's and the router's theorems at concrete inputs.
use alph_e.Common.{none, some, true, []}
use alph_e.Coordinator.Executor.{Executor, execute, compensate}
use alph_e.Coordinator.Executor.Once.{IsOnce, execute-compensate-IsOnce}
use alph_e.Samples.{supply, rollback}

-- an executor with an evidence store that takes every record
abbrev recording : Executor
recording = record { evidence = some (λ r. true); executed_hashes = []; stored = [] }

recording-IsOnce : IsOnce recording
recording-IsOnce = record { distinct = tt; executed = tt }

execute-compensate-IsOnce_example :
    IsOnce (execute none rollback recording supply).0.2
    × IsOnce (compensate none rollback recording supply).0.2
execute-compensate-IsOnce_example =
    execute-compensate-IsOnce none rollback recording supply recording-IsOnce
