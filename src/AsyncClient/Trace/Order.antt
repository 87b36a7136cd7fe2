-- ===== src/AsyncClient/Trace/Order.antt =====
-- What holds in every run of a `RedisAsyncClient`, whatever the user's functions do with it.
use redisclient.Base.{ℕ, refl, inl, inr, Bool-cases, List, [], ◌∷◌, Bytes}
use redisclient.Value.{RedisValue}
use redisclient.Parser.{is_empty}
use redisclient.Parser.Invariant.{new_parser-IsIdle}
use redisclient.Client.{Client, Env, Handler, Task, message}
use redisclient.Client.Queue.Order.{Command}
use redisclient.Client.Moves.{Moves-same, Moving, Leaves, Ends-Leaves, Beside}
use redisclient.Client.Messages.Effects.{async_read-Beside, handle_async_connect-Beside}
use redisclient.AsyncClient.Scripts.{run_script, Program, env_of}
use redisclient.AsyncClient.Scripts.Effects.{
  run_script-Moves, env_of-Moving, on_reply-Moves, on_message-Moves,
}
use redisclient.AsyncClient.Trace.Invariant.{
  IsOrdered, Leaves-Leads, Beside-IsOrdered, Leaves-IsOrdered, do_async_command-IsOrdered,
  async_write-IsOrdered,
}
use redisclient.AsyncClient.Trace.{
  Event, user_calls, strand_runs, connect_ends, write_ends, read_ends, run_front, happens,
  run_command, commands_run, writes_ended, writes_failed, Trace, constructed, goes_on,
}

-- The user's functions are beside the queues, as scripts are.
pub record IsBeside (env : Env) : Type 0 where
  pub moving : Moving ⊥ env
  pub replies : (h : Handler) (v : RedisValue) (c : Client) → Leaves (Beside c) (env.on_reply h v c)
  pub messages :
      (h : Handler) (payload : Bytes) (c : Client) → Leaves (Beside c) (env.on_message h payload c)

pub env_of-IsBeside : (depth : ℕ) (p : Program) → IsBeside (env_of depth p)
env_of-IsBeside depth p = record {
  moving = env_of-Moving ⊥ depth p (λ k. absurd k);
  replies = λ h v c. Ends-Leaves (Beside c) _ (on_reply-Moves ⊥ depth p h v c (λ k. absurd k));
  messages = λ h payload c. Ends-Leaves (Beside c) _ (on_message-Moves depth p h payload c);
}

module _ (env : Env) (beside : IsBeside env) where
  popped-IsOrdered :
      (cs : List Command) (ended failed : ℕ) (c : Client) (ts : List Task)
      → IsOrdered cs ended failed c
      → IsOrdered cs ended failed (record c { posted = ts })
  popped-IsOrdered cs ended failed c ts i =
      let d = record c { posted = ts } in
      Beside-IsOrdered cs ended failed c i d (Moves-same ⊥ c d refl refl refl refl refl)

  run_front-IsOrdered :
      (cs : List Command) (ended failed : ℕ) (c : Client) (ts : List Task)
      → IsOrdered cs ended failed c
      → Leaves (IsOrdered (run_command ts cs) ended failed) (run_front env ts c)
  unfolding run_front
  run_front-IsOrdered cs ended failed c [] i = i
  run_front-IsOrdered cs ended failed c (message h payload ∷ ts) i =
      let d = record c { posted = ts } in
      Leaves-IsOrdered cs ended failed d (popped-IsOrdered cs ended failed c ts i)
        (env.on_message h payload d) (beside.messages h payload d)
  run_front-IsOrdered cs ended failed c (Task.command buff h ∷ ts) i =
      do_async_command-IsOrdered cs ended failed (record c { posted = ts })
        (popped-IsOrdered cs ended failed c ts i) env (record { buff = buff; handler = h })

  pub happens-IsOrdered :
      (cs : List Command) (ended failed : ℕ) (c : Client) (x : Event)
      → IsOrdered cs ended failed c
      → Leaves
          (IsOrdered (commands_run x c cs) (writes_ended x c ended) (writes_failed x c failed))
          (happens env x c)
  unfolding happens
  happens-IsOrdered cs ended failed c (user_calls s) i =
      Leaves-IsOrdered cs ended failed c i (run_script env s c)
        (Ends-Leaves (Beside c) _ (run_script-Moves ⊥ env beside.moving s c (λ k. absurd k)))
  happens-IsOrdered cs ended failed c strand_runs i =
      run_front-IsOrdered cs ended failed c c.posted i
  happens-IsOrdered cs ended failed c (connect_ends ec h) i =
      Leaves-IsOrdered cs ended failed c i _
        (handle_async_connect-Beside env beside.moving beside.replies ec h c)
  happens-IsOrdered cs ended failed c (write_ends ec) i =
      elim (Bool-cases (is_empty c.data_writed)) [
        | inl idle ↦ rw idle i
        | inr busy ↦ rw busy (async_write-IsOrdered cs ended failed c env ec beside.moving i busy)
      ]
  happens-IsOrdered cs ended failed c (read_ends ec bytes) i =
      Leaves-IsOrdered cs ended failed c i _
        (async_read-Beside env beside.moving beside.replies ec bytes c)

  steps-IsOrdered :
      (cs : List Command) (ended failed : ℕ) (c : Client)
      → Trace env cs ended failed c
      → IsOrdered cs ended failed c
  steps-IsOrdered _ _ _ _ constructed = record {
    in_order = refl;
    waiting = ([], refl);
    at_most_one = refl;
    no_wait = λ z u. refl;
    ready = new_parser-IsIdle.valid;
  }
  steps-IsOrdered _ _ _ d (goes_on x before leads) =
      Leaves-Leads _ (happens env x _) d
        (happens-IsOrdered _ _ _ _ x (steps-IsOrdered _ _ _ _ before)) leads

-- In every run of a client from its construction on (calls of the user, tasks of the strand, and
-- the ends of connects, writes and reads, in any order, with any bytes and any errors, and with
-- functions that are any scripts of calls, `disconnect` among them): what has been given to the
-- socket and what waits are, in order, the commands that the strand has run; the handlers that
-- wait are the last of these commands' functions, in order; at most one write is under way; as
-- long as no write has failed, no command waits while none is under way; and the parser is one
-- that calls of `parse` leave.
pub Trace-IsOrdered :
    (depth : ℕ) (p : Program) (cs : List Command) (ended failed : ℕ) (c : Client)
    → Trace (env_of depth p) cs ended failed c
    → IsOrdered cs ended failed c
Trace-IsOrdered depth p = steps-IsOrdered (env_of depth p) (env_of-IsBeside depth p)
