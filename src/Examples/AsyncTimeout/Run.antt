-- ===== src/Examples/AsyncTimeout/Run.antt =====
-- What examples/async_timeout.cpp sends to a server that is late now and then.
use redisclient.Base.{
  ℕ, zero, suc, ◌≡◌, refl, sym, ap, subst, ◌∙◌, true, List, [], ◌∷◌, ◌++◌, append-nil, Bytes, codes,
}
use redisclient.Value.{RedisValue}
use redisclient.Parser.{new_parser}
use redisclient.Parser.Invariant.{IsIdle}
use redisclient.Buffer.{from_string, make_command}
use redisclient.Resp.{Reply, IsPrintable}
use redisclient.Resp.Reference.{wants_more, read_reply}
use redisclient.Client.{
  Client, returns, Ends, Env, ErrorCode, no_error, operation_aborted, Handler, Task, post, close,
  does, process_message, is_connected, connected, unconnected, connecting, Io, cancels, shuts_down,
  closes, sets_no_delay, starts_read, starts_write,
}
use redisclient.Client.Queue.Order.{sent, sent-append, do_async_command-sends}
use redisclient.Client.Messages.{handle_async_connect}
use redisclient.Client.Messages.Safety.{Keeps, Keeps-refl, IsPolite}
use redisclient.AsyncClient.{command, state_valid, connect}
use redisclient.AsyncClient.Scripts.{perform, run_script, env_of}
use redisclient.AsyncClient.Scripts.Commands.{command-posted, command-Keeps}
use redisclient.AsyncClient.Trace.{
  happens, run_front, Event, user_calls, strand_runs, connect_ends, write_ends, read_ends,
}
use redisclient.AsyncClient.Trace.Turns.{answered_turn}
use redisclient.Examples.AsyncTimeout.{
  timed_args, on_connected, on_got, on_timeout_script, timed_worker,
}

abbrev pub timed_get : Bytes
timed_get = make_command (from_string (codes "GET") ∷ timed_args)

-- What happens between one GET and the next: the reply comes in time; or only some bytes of it
-- come, and behind the timeout there are connections that take too long as well.
pub data Round : Type 0 where
  answers : Reply → Round
  times_out : Bytes → ℕ → Round

-- Connections that take too long, and one that is made.
abbrev pub dials : ℕ → List Event → List Event
dials zero xs = connect_ends no_error on_connected ∷ strand_runs ∷ xs
dials (suc n) xs =
    user_calls (on_timeout_script no_error)
    ∷ connect_ends operation_aborted on_connected
    ∷ dials n xs

abbrev pub reads_some : Bytes → List Event → List Event
reads_some [] xs = xs
reads_some (b ∷ bs) xs = read_ends no_error (b ∷ bs) ∷ xs

abbrev pub round_events : Round → List Event → List Event
round_events (answers r) xs = answered_turn r xs
round_events (times_out partial n) xs =
    write_ends no_error
    ∷ reads_some partial
        (user_calls (on_timeout_script no_error) ∷ read_ends operation_aborted [] ∷ dials n xs)

abbrev pub all_events : List Round → List Event
all_events [] = []
all_events (r ∷ rs) = round_events r (all_events rs)

-- A reply that comes is printable, and the bytes that come of a late one are not a whole reply.
abbrev pub IsRound : Round → Type 0
IsRound (answers r) = IsPrintable r
IsRound (times_out partial n) = read_reply partial ≡ wants_more

-- A client that is about to connect
pub record Dials (c : Client) : Type 0 where
  pub none_posted : c.posted ≡ []
  pub no_handlers : c.handlers ≡ []
  pub none_writed : c.data_writed ≡ []
  pub none_queued : c.data_queued ≡ []
  pub idle : IsIdle c.redis_parser

pub sent_silent : (ios : List Io) (i : Io) → sent (i ∷ []) ≡ [] → sent (ios ++ i ∷ []) ≡ sent ios
sent_silent ios i h = sent-append ios (i ∷ []) ∙ ap (λ l. sent ios ++ l) h ∙ append-nil (sent ios)

-- `onTimeout`: the client is closed, and dials.
abbrev pub redialed : Client → Client
redialed c =
    does (Io.connects 6379)
      (record (does closes
        (does shuts_down (does cancels (record c { msg_handlers = []; handlers = [] })))) {
          redis_parser = new_parser;
          state = connecting;
        })

pub redialed-sent : (c : Client) → sent (redialed c).io ≡ sent c.io
redialed-sent c =
    let i1 = c.io ++ cancels ∷ [] in
    let i2 = i1 ++ shuts_down ∷ [] in
    let i3 = i2 ++ closes ∷ [] in
    sent_silent i3 (Io.connects 6379) refl
    ∙ sent_silent i2 closes refl
    ∙ sent_silent i1 shuts_down refl
    ∙ sent_silent c.io cancels refl

pub timeout-redials :
    (env : Env) (c : Client)
    → happens env (user_calls (on_timeout_script no_error)) c ≡ returns tt (redialed c)
unfolding happens run_script perform connect close
timeout-redials env c = refl

abbrev pub opened : Client → Client
opened c =
    process_message
      (post (Task.command timed_get on_got) (record (does sets_no_delay c) { state = connected }))

abbrev pub asked : Client → Client
asked c = record (opened c) {
  posted = [];
  handlers = on_got ∷ [];
  data_writed = timed_get ∷ [];
  data_queued = [];
  io = ((c.io ++ sets_no_delay ∷ []) ++ starts_read ∷ []) ++ starts_write (timed_get ∷ []) ∷ [];
}

module _ (depth : ℕ) (texts : ErrorCode → Bytes) where
  abbrev env : Env
  env = env_of (suc depth) (timed_worker texts)

  timed_idles :
      (d : ℕ) (h : Handler) (s : Bytes) (c : Client)
      → (env_of d (timed_worker texts)).on_error h s c ≡ returns tt c
  unfolding env_of run_script
  timed_idles zero h s c = refl
  timed_idles (suc d) h s c = refl

  pub timed-IsPolite : IsPolite env
  unfolding env_of
  timed-IsPolite q = record {
    reply_keeps = λ h v c.
        command-Keeps (λ p. p ≡ q) (env_of depth (timed_worker texts)) _ _ _ c
          (λ h s. timed_idles depth h s c);
    error_keeps = λ h s c.
        subst (Ends (Keeps (λ p. p ≡ q) c)) (sym (timed_idles (suc depth) h s c))
          (Keeps-refl (λ p. p ≡ q) c);
  }

  pub got-posts :
      (v : RedisValue) (x : Client)
      → is_connected x.state ≡ true
      → env.on_reply on_got v x ≡ returns tt (post (Task.command timed_get on_got) x)
  unfolding env_of
  got-posts v x ready =
      command-posted (env_of depth (timed_worker texts)) (codes "GET") timed_args on_got x ready

  pub connect_fails :
      (c : Client)
      → happens env (connect_ends operation_aborted on_connected) c
        ≡ returns tt (record c { state = unconnected })
  unfolding happens handle_async_connect env_of run_script
  connect_fails c = refl

  pub connect_opens :
      (c : Client) → happens env (connect_ends no_error on_connected) c ≡ returns tt (opened c)
  unfolding happens handle_async_connect env_of run_script perform command state_valid
  connect_opens c = refl

  pub strand_asks :
      (c : Client) → Dials c → happens env strand_runs (opened c) ≡ returns tt (asked c)
  unfolding happens run_front
  strand_asks c is = rw is.none_posted (
      do_async_command-sends env (record { buff = timed_get; handler = on_got })
        (record (opened c) { posted = [] }) (rw is.none_writed refl)
      ∙ rw (is.none_queued, is.no_handlers) refl)
