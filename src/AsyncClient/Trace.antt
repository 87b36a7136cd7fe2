-- ===== src/AsyncClient/Trace.antt =====
-- Runs of a `RedisAsyncClient` of src/redisclient/redisasyncclient.h from its construction on, under
-- boost::asio: calls by the user, tasks of the strand, and the ends of connects, writes and reads.
pub mod Invariant
pub mod Order
pub mod Safety
pub mod Turns
use redisclient.Base.{ℕ, suc, ◌+◌, ◌≡◌, Bool, List, [], ◌∷◌, ◌++◌, if◌then◌else◌, Bytes}
use redisclient.Parser.{is_empty}
use redisclient.Client.{
  Client, Run, returns, throws, Env, ErrorCode, is_error_code, Handler, Task, message,
}
use redisclient.Client.Queue.{async_write, do_async_command}
use redisclient.Client.Queue.Order.{Command}
use redisclient.Client.Messages.{async_read, handle_async_connect}
use redisclient.AsyncClient.{new_client}
use redisclient.AsyncClient.Scripts.{Script, run_script}

-- What can come next: code of the user that no function of the client runs, the oldest task of the
-- strand, the end of a connect with its handler, of a write, or of a read with its bytes.
pub data Event : Type 0 where
  user_calls : Script → Event
  strand_runs : Event
  connect_ends : ErrorCode → Handler → Event
  write_ends : ErrorCode → Event
  read_ends : ErrorCode → Bytes → Event

-- A task leaves the strand and is run.
unfoldable pub run_front : Env → List Task → Client → Run Unit
run_front env [] c = returns tt c
run_front env (message h payload ∷ ts) c = env.on_message h payload (record c { posted = ts })
run_front env (Task.command buff h ∷ ts) c = do_async_command env buff h (record c { posted = ts })

-- No write ends while none is under way.
unfoldable pub happens : Env → Event → Client → Run Unit
happens env (user_calls s) c = run_script env s c
happens env strand_runs c = run_front env c.posted c
happens env (connect_ends ec h) c = handle_async_connect env ec h c
happens env (write_ends ec) c =
    if is_empty c.data_writed then returns tt c else async_write env ec c
happens env (read_ends ec bytes) c = async_read env ec bytes c

-- The commands that the strand has run, and the writes that have ended, and those with an error.
abbrev pub run_command : List Task → List Command → List Command
run_command (Task.command buff h ∷ ts) cs = cs ++ (record { buff = buff; handler = h }) ∷ []
run_command _ cs = cs

abbrev pub commands_run : Event → Client → List Command → List Command
commands_run strand_runs c cs = run_command c.posted cs
commands_run _ c cs = cs

abbrev pub writes_ended : Event → Client → ℕ → ℕ
writes_ended (write_ends ec) c n = if is_empty c.data_writed then n else suc n
writes_ended _ c n = n

abbrev pub writes_failed : Event → Client → ℕ → ℕ
writes_failed (write_ends ec) c n =
    if is_empty c.data_writed then n else (if is_error_code ec then suc n else n)
writes_failed _ c n = n

-- `d` is what a call leaves, by a return, or by an exception that the caller of asio catches.
abbrev pub Leads : {A : Type 0} → Run A → Client → Type 0
Leads (returns a e) d = e ≡ d
Leads (throws s e) d = e ≡ d
Leads Run.faults d = ⊥

pub data Trace (env : Env) : List Command → ℕ → ℕ → Client → Type 0 where
  constructed : Trace env [] 0 0 new_client
  goes_on :
      {cs : List Command} {ended failed : ℕ} {c d : Client} (x : Event)
      → Trace env cs ended failed c
      → Leads (happens env x c) d
      → Trace env (commands_run x c cs) (writes_ended x c ended) (writes_failed x c failed) d
