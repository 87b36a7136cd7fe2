-- ===== src/AsyncClient/Requests.antt =====
-- A request of the asynchronous client on its whole way: `command`, the strand, the write, and the
-- reply.
use redisclient.Base.{
  ◌≡◌, refl, ap, sym, subst, ◌∙◌, true, false, List, [], ◌∷◌, ◌++◌, Bytes, arith, map,
}
use redisclient.Value.{RedisValue}
use redisclient.Parser.{RedisParser, is_empty}
use redisclient.Parser.Loop.{result_of}
use redisclient.Parser.Invariant.{IsIdle}
use redisclient.Buffer.{RedisBuffer, from_string, make_command}
use redisclient.Resp.{Reply, none_left, print, value_of, IsPrintable}
use redisclient.Client.{
  Client, returns, Env, no_error, Handler, Task, starts_write, post, process_message, State,
  subscribed, is_connected, is_subscribed,
}
use redisclient.Client.Queue.{do_async_command}
use redisclient.Client.Queue.Order.{do_async_command-sends}
use redisclient.Client.Messages.{async_read}
use redisclient.Client.Messages.Dispatch.{do_process_message-answers}
use redisclient.Client.Messages.Safety.{IsPolite}
use redisclient.Client.Messages.Wire.{process_all, async_read-print}
use redisclient.AsyncClient.{command, state_valid}

-- A connected client with nothing to send, to run, or to wait for
pub record IsQuiet (c : Client) : Type 0 where
  pub connected_now : is_connected c.state ≡ true
  pub none_posted : c.posted ≡ []
  pub none_waiting : c.handlers ≡ []
  pub none_writed : c.data_writed ≡ []
  pub none_queued : c.data_queued ≡ []
  pub idle : IsIdle c.redis_parser

command-posts :
    (env : Env) (cmd : Bytes) (args : List RedisBuffer) (h : Handler) (c : Client)
    → is_connected c.state ≡ true
    → command env cmd args h c
      ≡ returns tt (post (Task.command (make_command (from_string cmd ∷ args)) h) c)
unfolding command state_valid
command-posts env cmd args h c ready = rw ready refl

pub connected-plain : (s : State) → is_connected s ≡ true → is_subscribed s ≡ false
connected-plain subscribed h = ground arith
connected-plain _ h = refl

pub map_result-one :
    (qs : List RedisParser) (v : RedisValue)
    → map result_of qs ≡ v ∷ []
    → (q : RedisParser) × (qs ≡ q ∷ []) × (result_of q ≡ v)
map_result-one [] v h = cc
map_result-one (q ∷ []) v h = (q, refl, cc)
map_result-one (q ∷ p ∷ qs) v h = ground arith

process_all-one :
    (env : Env) (h : Handler) (f : Client → Client) (q : RedisParser) (c : Client)
    → ((x : Client) → env.on_reply h (result_of q) x ≡ returns tt (f x))
    → ((x : Client) → (f x).handlers ≡ x.handlers)
    → is_subscribed c.state ≡ false
    → c.handlers ≡ h ∷ []
    → process_all env (q ∷ []) c
      ≡ returns tt (process_message (record (f (record c { redis_parser = q })) { handlers = [] }))
unfolding process_all
process_all-one env h f q c runs keeps plain front =
    let d = record c { redis_parser = q } in
    let answered =
      do_process_message-answers env h h [] [] (result_of q) d (f d) plain front (runs d)
        (keeps d ∙ front) in
    rw answered refl

-- One reply, to a client with one handler
answer-once :
    (env : Env) (h : Handler) (f : Client → Client) (r : Reply) (c : Client)
    → IsPolite env
    → ((x : Client) → env.on_reply h (value_of r) x ≡ returns tt (f x))
    → ((x : Client) → (f x).handlers ≡ x.handlers)
    → IsPrintable r
    → IsIdle c.redis_parser
    → is_subscribed c.state ≡ false
    → c.handlers ≡ h ∷ []
    → (q : RedisParser) × (result_of q ≡ value_of r)
      × (async_read env no_error (print r []) c
          ≡ returns tt
              (process_message (record (f (record c { redis_parser = q })) { handlers = [] })))
unfolding print
answer-once env h f r c polite runs keeps printable idle plain front =
    let (qs, values, read) = async_read-print r none_left env c polite (printable, tt) idle in
    let (q, one, value) = map_result-one qs (value_of r) values in
    (
      q,
      value,
      read
          ∙ ap (λ l. process_all env l c) one
          ∙ process_all-one env h f q c
              (subst (λ v. (x : Client) → env.on_reply h v x ≡ returns tt (f x)) (sym value) runs)
              keeps plain front,
    )

-- The client behind the command, and behind the strand's run of the one task.
abbrev pub requested : Bytes → Handler → Client → Client
requested bytes h c = record c {
  handlers = h ∷ [];
  data_writed = bytes ∷ [];
  io = c.io ++ starts_write (bytes ∷ []) ∷ [];
}

requested-sends :
    (env : Env) (bytes : Bytes) (h : Handler) (c : Client)
    → IsQuiet c
    → do_async_command env bytes h c ≡ returns tt (requested bytes h c)
requested-sends env bytes h c quiet =
    do_async_command-sends env (record { buff = bytes; handler = h }) c
      (ap is_empty quiet.none_writed)
    ∙ rw (quiet.none_queued, quiet.none_waiting) refl

-- On a connected client with an idle parser and nothing to send, to run or to wait for, and with
-- polite functions of the user: `command` posts one task, the task starts a write of the command's
-- bytes, and `asyncRead` of a printable reply calls the command's function with the reply's value,
-- once (`f` is what that function does to the client, which leaves the handlers alone), after
-- which no handler waits and the next read is started.
pub command-answered :
    (env : Env) (cmd : Bytes) (args : List RedisBuffer) (h : Handler) (f : Client → Client)
    (r : Reply) (c : Client)
    → IsQuiet c
    → IsPolite env
    → ((x : Client) → env.on_reply h (value_of r) x ≡ returns tt (f x))
    → ((x : Client) → (f x).handlers ≡ x.handlers)
    → IsPrintable r
    → let bytes = make_command (from_string cmd ∷ args) in
      let d = requested bytes h c in
      (command env cmd args h c ≡ returns tt (record c { posted = Task.command bytes h ∷ [] }))
      × (do_async_command env bytes h c ≡ returns tt d)
      × ((q : RedisParser) × (result_of q ≡ value_of r)
          × (async_read env no_error (print r []) d
              ≡ returns tt
                  (process_message (record (f (record d { redis_parser = q })) { handlers = [] }))))
command-answered env cmd args h f r c quiet polite runs keeps printable =
    let bytes = make_command (from_string cmd ∷ args) in
    (
      command-posts env cmd args h c quiet.connected_now
          ∙ ap (λ l. returns tt (record c { posted = l ++ Task.command bytes h ∷ [] }))
              quiet.none_posted,
      requested-sends env bytes h c quiet,
      answer-once env h f r (requested bytes h c) polite runs keeps printable quiet.idle
          (connected-plain c.state quiet.connected_now) refl,
    )
