-- ===== src/Coordinator/Ops.antt =====
-- The executor that the node builds: `IdempotentExecutor()`, with no evidence client and nothing
-- executed before.
use alph_e.Common.{String, Option, none, ok, [], ◌>>=◌, pure}
use alph_e.Coordinator.{ExecutorOps}
use alph_e.Coordinator.Executor.{Executor, new_executor, execute, compensate}

-- The argument is the variable KUBECONFIG_AGENT. Neither method raises.
unfoldable pub idempotent_ops : Option String → ExecutorOps Executor
idempotent_ops kubeconfig = record {
  initial = new_executor none [];
  execute = λ intent x. do
    (_, action, x') ← execute kubeconfig intent x
    pure (ok action, x');
  compensate = λ intent x. do
    (_, action, x') ← compensate kubeconfig intent x
    pure (ok action, x');
}
