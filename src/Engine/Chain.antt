-- ===== src/Engine/Chain.antt =====
-- The calls of ExecuteToken with which a call ends, one after the other (moveTokenToNextElements of
-- src/process/execution_processor.go, ExecuteToken of src/process/engine.go). A process may have a
-- loop without an end, so the number of the calls is an argument: the chain up to that many.
use atom_engine.Base.{ℕ, zero, suc, String, Option, Dict}
use atom_engine.Token.{Value}
use atom_engine.Engine.{Engine}
use atom_engine.Engine.Callbacks.{Callback, CallbackAnswer, moved, rejected}
use atom_engine.Engine.Execution.{Executor, Reply, answered, execute_token, refused}
use atom_engine.Engine.JobCallbacks.{JobAnswer, JobCallbacks, JobEngine, continued}
use atom_engine.Engine.Processor.{Answer, Env, done, error, executes}

abbrev pub answer_in : Reply → Answer
answer_in (refused r) = done
answer_in (answered a) = a

module _ (executors : String → Value → Option Executor) (e : Env)
    (definitions : Dict (Dict Value)) where
  unfoldable pub execute_chain : ℕ → Answer → Engine → Engine
  unfolding execute_token
  execute_chain zero a s = s
  execute_chain (suc n) (executes t) s =
      let d = execute_token executors e definitions t s in
      execute_chain n (answer_in d.reply) d.engine
  execute_chain (suc n) done s = s
  execute_chain (suc n) (error x) s = s

  abbrev pub chain_of : ℕ → CallbackAnswer → Engine → Engine
  chain_of n (rejected r) s = s
  chain_of n (moved a) s = execute_chain n a s

  -- The state after a callback with the executions that it ends with.
  abbrev pub executed : ℕ → Callback → Engine
  executed n c = chain_of n c.answer c.engine

  abbrev pub job_chain : ℕ → JobAnswer → JobEngine → JobEngine
  job_chain n (continued a) s = record s { engine = chain_of n a s.engine }
  job_chain n _ s = s

  abbrev pub executed_job : ℕ → JobCallbacks → JobEngine
  executed_job n c = job_chain n c.answer c.state
