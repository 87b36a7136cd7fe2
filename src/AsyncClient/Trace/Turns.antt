-- ===== src/AsyncClient/Trace/Turns.antt =====
-- A conversation with a server: the end of a write, the reply, and the command that the reply's
-- function gives, from the posted task to its write.
use redisclient.Base.{◌≡◌, refl, ap, subst, ◌∙◌, true, List, [], ◌∷◌, ◌++◌, All, Bytes, append-nil}
use redisclient.Parser.{RedisParser}
use redisclient.Parser.Loop.{result_of}
use redisclient.Parser.Invariant.{IsIdle}
use redisclient.Resp.{Reply, none_left, print, value_of, IsPrintable}
use redisclient.Client.{
  Client, Run, returns, ◌>>>◌, Env, no_error, Handler, Task, starts_write, starts_read, post,
  process_message, is_connected,
}
use redisclient.Client.Queue.{async_write}
use redisclient.Client.Queue.Order.{sent, sent-append, do_async_command-sends}
use redisclient.Client.Messages.Dispatch.{do_process_message-answers}
use redisclient.Client.Messages.Safety.{IsPolite}
use redisclient.Client.Messages.Wire.{process_all, async_read-parsers}
use redisclient.AsyncClient.Requests.{connected-plain, map_result-one}
use redisclient.AsyncClient.Trace.{Event, strand_runs, write_ends, read_ends, happens, run_front}

-- Events one after the other, up to an exception
unfoldable pub play : Env → List Event → Client → Run Unit
play env [] c = returns tt c
play env (x ∷ xs) c = happens env x c >>> λ u d. play env xs d

-- A connected client that has sent `bytes`, and waits for the one reply, with function `h`.
pub record Awaits (h : Handler) (bytes : Bytes) (c : Client) : Type 0 where
  pub connected_now : is_connected c.state ≡ true
  pub none_posted : c.posted ≡ []
  pub handlers_are : c.handlers ≡ h ∷ []
  pub writed_are : c.data_writed ≡ bytes ∷ []
  pub none_queued : c.data_queued ≡ []
  pub idle : IsIdle c.redis_parser

-- The end of the write, the reply, and the strand's task.
abbrev pub answered_turn : Reply → List Event → List Event
answered_turn r xs = write_ends no_error ∷ read_ends no_error (print r []) ∷ strand_runs ∷ xs

-- The end of the write
abbrev pub written : Client → Client
written c = record c { data_writed = [] }

-- The reply's function has been called, and has posted a command.
abbrev answered : RedisParser → Bytes → Handler → Client → Client
answered q bytes g c =
    process_message
      (record (post (Task.command bytes g) (record (written c) { redis_parser = q })) {
        handlers = [];
      })

-- The strand has run the command.
abbrev asked : RedisParser → Bytes → Handler → Client → Client
asked q bytes g c = record (answered q bytes g c) {
  posted = [];
  handlers = g ∷ [];
  data_writed = bytes ∷ [];
  data_queued = [];
  io = (c.io ++ starts_read ∷ []) ++ starts_write (bytes ∷ []) ∷ [];
}

module _ (env : Env) (h g : Handler) (old bytes : Bytes) (c : Client)
    (awaits : Awaits h old c) where
  pub write_ends-written : happens env (write_ends no_error) c ≡ returns tt (written c)
  unfolding happens async_write
  write_ends-written = rw (awaits.writed_are, awaits.none_queued) refl

  read_ends-answered :
      (r : Reply)
      → IsPolite env
      → IsPrintable r
      → ((x : Client)
          → is_connected x.state ≡ true
          → env.on_reply h (value_of r) x ≡ returns tt (post (Task.command bytes g) x))
      → (q : RedisParser) × IsIdle q
        × (happens env (read_ends no_error (print r [])) (written c)
            ≡ returns tt (answered q bytes g c))
  unfolding happens process_all print
  read_ends-answered r polite printable posts =
      let (qs, values, idles, read) =
        async_read-parsers r none_left env (written c) polite (printable, tt) awaits.idle in
      let (q, one, value) = map_result-one qs (value_of r) values in
      let d = record (written c) { redis_parser = q } in
      let ran =
        do_process_message-answers env h h [] [] (result_of q) d (post (Task.command bytes g) d)
          (connected-plain c.state awaits.connected_now) awaits.handlers_are
          (ap (λ v. env.on_reply h v d) value ∙ posts d awaits.connected_now) awaits.handlers_are in
      (
        q,
        (subst (All IsIdle) one idles).0,
        read ∙ ap (λ l. process_all env l (written c)) one ∙ rw ran refl,
      )

  strand_runs-asked :
      (q : RedisParser)
      → happens env strand_runs (answered q bytes g c) ≡ returns tt (asked q bytes g c)
  unfolding happens run_front
  strand_runs-asked q = rw awaits.none_posted (
      do_async_command-sends env (record { buff = bytes; handler = g })
        (record (answered q bytes g c) { posted = [] }) refl
      ∙ rw awaits.none_queued refl)

  asked-sent : (q : RedisParser) → sent (asked q bytes g c).io ≡ sent c.io ++ bytes ∷ []
  asked-sent q =
      sent-append (c.io ++ starts_read ∷ []) (starts_write (bytes ∷ []) ∷ [])
      ∙ ap (λ l. l ++ bytes ∷ []) (sent-append c.io (starts_read ∷ []) ∙ append-nil (sent c.io))

  asked-Awaits : (q : RedisParser) → IsIdle q → Awaits g bytes (asked q bytes g c)
  asked-Awaits q idle = record {
    connected_now = awaits.connected_now;
    none_posted = refl;
    handlers_are = refl;
    writed_are = refl;
    none_queued = refl;
    idle = idle;
  }

  -- A turn of the conversation: the reply's function is called with the reply's value, and its
  -- command is sent.
  pub play-turn :
      (r : Reply) (xs : List Event)
      → IsPolite env
      → IsPrintable r
      → ((x : Client)
          → is_connected x.state ≡ true
          → env.on_reply h (value_of r) x ≡ returns tt (post (Task.command bytes g) x))
      → (d : Client) × (play env (answered_turn r xs) c ≡ play env xs d)
        × Awaits g bytes d
        × (sent d.io ≡ sent c.io ++ bytes ∷ [])
  unfolding play
  play-turn r xs polite printable posts =
      let (q, idle, read) = read_ends-answered r polite printable posts in
      (
        asked q bytes g c,
        rw (write_ends-written, read, strand_runs-asked q) refl,
        asked-Awaits q idle,
        asked-sent q,
      )
