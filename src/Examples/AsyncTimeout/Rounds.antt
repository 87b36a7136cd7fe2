-- ===== src/Examples/AsyncTimeout/Rounds.antt =====
-- The runs of examples/async_timeout.cpp, round by round.
use redisclient.Base.{
  ℕ, zero, suc, ◌≡◌, refl, sym, ap, subst, ◌∙◌, some, List, [], ◌∷◌, ◌++◌, append-nil, append_assoc,
  All, Bytes, length,
}
use redisclient.Parser.{RedisParser, incompleted}
use redisclient.Parser.Loop.{Parsed, parse}
use redisclient.Parser.Invariant.{IsIdle, new_parser-IsIdle}
use redisclient.Resp.{value_of}
use redisclient.Resp.Reference.{wants_more, read_reply}
use redisclient.Resp.Reference.Equivalence.{ParseAgrees, parse-read_reply}
use redisclient.Client.{
  Client, returns, Env, ErrorCode, no_error, operation_aborted, process_message, unconnected,
  sets_no_delay, starts_read, starts_write, does, connects, connecting,
}
use redisclient.Client.Queue.Order.{sent, sent-append}
use redisclient.Client.Messages.{async_read, read_messages, read_round, read_parsed}
use redisclient.AsyncClient.{new_client, connect}
use redisclient.AsyncClient.Scripts.{perform, run_script, env_of}
use redisclient.AsyncClient.Trace.{happens, Event, user_calls, read_ends}
use redisclient.AsyncClient.Trace.Turns.{play, Awaits, written, write_ends-written, play-turn}
use redisclient.Examples.AsyncTimeout.{on_got, run_worker, on_timeout_script, timed_worker}
use redisclient.Examples.AsyncTimeout.Run.{
  timed_get, dials, reads_some, Round, answers, times_out, round_events, all_events, IsRound, Dials,
  sent_silent, redialed, redialed-sent, timeout-redials, asked, timed-IsPolite, got-posts,
  connect_fails, connect_opens, strand_asks,
}

asked-Awaits : (c : Client) → Dials c → Awaits on_got timed_get (asked c)
asked-Awaits c is = record {
  connected_now = refl;
  none_posted = refl;
  handlers_are = refl;
  writed_are = refl;
  none_queued = refl;
  idle = is.idle;
}

asked-sent : (c : Client) → sent (asked c).io ≡ sent c.io ++ timed_get ∷ []
asked-sent c =
    let one = c.io ++ sets_no_delay ∷ [] in
    let two = one ++ starts_read ∷ [] in
    sent-append two (starts_write (timed_get ∷ []) ∷ [])
    ∙ ap (λ l. l ++ timed_get ∷ [])
        (sent_silent one starts_read refl ∙ sent_silent c.io sets_no_delay refl)

-- A write has ended, and nothing waits; the handlers and the parser do not matter.
record IsLate (c : Client) : Type 0 where
  none_posted : c.posted ≡ []
  none_writed : c.data_writed ≡ []
  none_queued : c.data_queued ≡ []

redialed-Dials : (c : Client) → IsLate c → Dials (redialed c)
redialed-Dials c late = record {
  none_posted = late.none_posted;
  no_handlers = refl;
  none_writed = late.none_writed;
  none_queued = late.none_queued;
  idle = new_parser-IsIdle;
}

written-IsLate : (c : Client) → Awaits on_got timed_get c → IsLate (written c)
written-IsLate c awaits = record {
  none_posted = awaits.none_posted;
  none_writed = refl;
  none_queued = awaits.none_queued;
}

async_read-incompleted :
    (env : Env) (b : ℕ) (bs : Bytes) (c : Client) (r : Parsed)
    → parse c.redis_parser (b ∷ bs) ≡ some r
    → r.result ≡ incompleted
    → async_read env no_error (b ∷ bs) c
      ≡ returns tt (process_message (record c { redis_parser = r.parser }))
unfolding async_read read_messages read_round read_parsed
async_read-incompleted env b bs c r parsed more = rw (parsed, more) refl

-- A read of a reply's begin
async_read-part :
    (env : Env) (b : ℕ) (bs : Bytes) (c : Client)
    → IsIdle c.redis_parser
    → read_reply (b ∷ bs) ≡ wants_more
    → (q : RedisParser) × (async_read env no_error (b ∷ bs) c
        ≡ returns tt (process_message (record c { redis_parser = q })))
async_read-part env b bs c idle part =
    let (r, parsed, agrees) = parse-read_reply c.redis_parser b bs idle in
    let more : r.result ≡ incompleted =
      subst (λ x. ParseAgrees x (length (b ∷ bs)) r) part agrees in
    (r.parser, async_read-incompleted env b bs c r parsed more)

-- Behind `run`
abbrev dialing : Client
dialing = does (connects 6379) (record new_client { state = connecting })

dialing-Dials : Dials dialing
dialing-Dials = record {
  none_posted = refl;
  no_handlers = refl;
  none_writed = refl;
  none_queued = refl;
  idle = new_parser-IsIdle;
}

abbrev pub repeat : ℕ → Bytes → List Bytes
repeat zero bytes = []
repeat (suc n) bytes = bytes ∷ repeat n bytes

module _ (depth : ℕ) (texts : ErrorCode → Bytes) where
  abbrev env : Env
  env = env_of (suc depth) (timed_worker texts)

  -- What comes to a client that waits for a reply again, with one more GET sent.
  abbrev AsksAgain : List Event → List Event → Client → Type 0
  AsksAgain events xs c =
      (d : Client) × (play env events c ≡ play env xs d)
      × Awaits on_got timed_get d
      × (sent d.io ≡ sent c.io ++ timed_get ∷ [])

  dials-AsksAgain : (n : ℕ) (xs : List Event) (c : Client) → Dials c → AsksAgain (dials n xs) xs c
  unfolding play
  dials-AsksAgain zero xs c is = (
    asked c,
    rw (connect_opens depth texts c, strand_asks depth texts c is) refl,
    asked-Awaits c is,
    asked-sent c,
  )
  dials-AsksAgain (suc n) xs c is =
      let e = record (redialed c) { state = unconnected } in
      let late : IsLate c = record {
        none_posted = is.none_posted;
        none_writed = is.none_writed;
        none_queued = is.none_queued;
      } in
      let again = redialed-Dials c late in
      let (d, run, awaits, sends) = dials-AsksAgain n xs e (record {
        none_posted = again.none_posted;
        no_handlers = again.no_handlers;
        none_writed = again.none_writed;
        none_queued = again.none_queued;
        idle = again.idle;
      }) in
      (
        d,
        rw (timeout-redials env c, connect_fails depth texts (redialed c)) run,
        awaits,
        sends ∙ ap (λ l. l ++ timed_get ∷ []) (redialed-sent c),
      )

  reads_some-IsLate :
      (partial : Bytes) (xs : List Event) (c : Client)
      → IsLate c
      → IsIdle c.redis_parser
      → read_reply partial ≡ wants_more
      → (d : Client) × (play env (reads_some partial xs) c ≡ play env xs d)
        × IsLate d
        × (sent d.io ≡ sent c.io)
  unfolding play happens
  reads_some-IsLate [] xs c late idle part = (c, refl, late, refl)
  reads_some-IsLate (b ∷ bs) xs c late idle part =
      let (q, read) = async_read-part env b bs c idle part in
      (
        process_message (record c { redis_parser = q }),
        rw read refl,
        record {
          none_posted = late.none_posted;
          none_writed = late.none_writed;
          none_queued = late.none_queued;
        },
        sent_silent c.io starts_read refl,
      )

  aborted_read : (c : Client) → happens env (read_ends operation_aborted []) c ≡ returns tt c
  unfolding happens async_read
  aborted_read c = refl

  round-AsksAgain :
      (r : Round) (xs : List Event) (c : Client)
      → IsRound r
      → Awaits on_got timed_get c
      → AsksAgain (round_events r xs) xs c
  unfolding play
  round-AsksAgain (answers r) xs c good awaits =
      play-turn env on_got on_got timed_get timed_get c awaits r xs (timed-IsPolite depth texts)
        good (λ x ready. got-posts depth texts (value_of r) x ready)
  round-AsksAgain (times_out partial n) xs c part awaits =
      let behind =
        user_calls (on_timeout_script no_error) ∷ read_ends operation_aborted [] ∷ dials n xs in
      let (e, some_read, late, same) =
        reads_some-IsLate partial behind (written c) (written-IsLate c awaits) awaits.idle part in
      let (d, run, again, sends) = dials-AsksAgain n xs (redialed e) (redialed-Dials e late) in
      (
        d,
        rw (write_ends-written env on_got on_got timed_get timed_get c awaits)
            (some_read ∙ rw (timeout-redials env e, aborted_read (redialed e)) run),
        again,
        sends ∙ ap (λ l. l ++ timed_get ∷ []) (redialed-sent e ∙ same),
      )

  rounds-Awaits :
      (rounds : List Round) (c : Client)
      → All IsRound rounds
      → Awaits on_got timed_get c
      → (d : Client) × (play env (all_events rounds) c ≡ returns tt d)
        × Awaits on_got timed_get d
        × (sent d.io ≡ sent c.io ++ repeat (length rounds) timed_get)
  unfolding play
  rounds-Awaits [] c good awaits = (c, refl, awaits, sym (append-nil (sent c.io)))
  rounds-Awaits (r ∷ rounds) c good awaits =
      let (e, first, again, sends) = round-AsksAgain r (all_events rounds) c good.0 awaits in
      let (d, others, last, more) = rounds-Awaits rounds e good.1 again in
      (
        d,
        first ∙ others,
        last,
        more
            ∙ ap (λ l. l ++ repeat (length rounds) timed_get) sends
            ∙ append_assoc (sent c.io) (timed_get ∷ []) (repeat (length rounds) timed_get),
      )

  -- The program of async_timeout.cpp, when its writes do not fail: after any number of connections
  -- that take too long and one that is made, and then any number of rounds, in each of which a
  -- printable reply comes in time, or only bytes that are not yet a whole reply, and the timer
  -- ends, the client is closed, and again any number of connections take too long before one is
  -- made, it throws nothing, has sent GET once and then once for each round, and is connected and
  -- waits for the reply to one GET with an idle parser.
  pub play-timed_worker :
      (n : ℕ) (rounds : List Round)
      → All IsRound rounds
      → (d : Client) × (play env (user_calls run_worker ∷ dials n (all_events rounds)) new_client
          ≡ returns tt d)
        × Awaits on_got timed_get d
        × (sent d.io ≡ repeat (suc (length rounds)) timed_get)
  unfolding play happens run_script perform connect
  play-timed_worker n rounds good =
      let (c, begun, asks, one) = dials-AsksAgain n (all_events rounds) dialing dialing-Dials in
      let (d, run, awaits, sends) = rounds-Awaits rounds c good asks in
      (d, begun ∙ run, awaits, sends ∙ ap (λ l. l ++ repeat (length rounds) timed_get) one)
