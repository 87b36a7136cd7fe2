-- ===== src/AsyncClient/Trace/Safety.antt =====
-- No undefined behaviour in the runs of a `RedisAsyncClient` whose functions of replies, of errors
-- and of connections do not call `disconnect`.
use redisclient.Base.{ℕ}
use redisclient.Client.{Client, Run, Ends, Env}
use redisclient.Client.Moves.{Moves}
use redisclient.AsyncClient.Scripts.{Program, env_of}
use redisclient.AsyncClient.Trace.{Trace}

-- No undefined behaviour, whatever is left
abbrev IsDefined : Run Unit → Type 0
IsDefined = Ends (λ d. Unit)

module _ (depth : ℕ) (p : Program) where
  abbrev env : Env
  env = env_of depth p
