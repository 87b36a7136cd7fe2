-- ===== src/AsyncClient/Reconnect.antt =====
-- What `disconnect` leaves behind: a call from a reply's handler, and a later `connect`.
use redisclient.Base.{
  ℕ, ◌≡◌, refl, sym, ap, ◌∙◌, true, false, List, [], ◌∷◌, ◌++◌, append-nil, Bytes,
}
use redisclient.Parser.{new_parser}
use redisclient.Value.{RedisValue}
use redisclient.Client.{
  Client, Run, returns, ◌>>>◌, Env, no_error, Handler, Io, close, is_subscribed, is_error_code,
  ErrorCode, process_message, does, report, closes, shuts_down, cancels, connects, sets_no_delay,
  starts_read, installed, connected,
}
use redisclient.Client.Queue.{do_async_command, async_write}
use redisclient.Client.Queue.Order.{
  sent, sent-append, Command, enqueue, do_async_command-sends, start_write-sent,
}
use redisclient.Client.Messages.{do_process_message, handle_async_connect}
use redisclient.Client.Messages.Dispatch.{do_process_message-pops}
use redisclient.AsyncClient.{connect, disconnect}

-- Outside subscriptions, when the handler of a reply disconnects and returns, the `pop` behind the
-- call is one of an empty queue: undefined behaviour.
pub do_process_message-disconnect :
    (env : Env) (h : Handler) (hs : List Handler) (v : RedisValue) (c : Client)
    → is_subscribed c.state ≡ false
    → c.handlers ≡ h ∷ hs
    → env.on_reply h v c ≡ returns tt (disconnect c)
    → do_process_message env v c ≡ Run.faults
unfolding close
do_process_message-disconnect env h hs v c plain front ran =
    do_process_message-pops env h hs v c (disconnect c) plain front ran refl

-- The user's functions do nothing to the client.
pub record IsIdleEnv (env : Env) : Type 0 where
  pub error_idles : (h : Handler) (s : Bytes) (c : Client) → env.on_error h s c ≡ returns tt c
  pub connect_idles :
      (h : Handler) (ec : ErrorCode) (c : Client) → env.on_connect h ec c ≡ returns tt c

-- A disconnect, the end of the aborted write, and a new connection.
abbrev pub reconnect : Env → ErrorCode → ℕ → Handler → Client → Run Unit
reconnect env aborted endpoint on_connect c = async_write env aborted (disconnect c) >>> λ u d.
    connect env endpoint on_connect d >>> λ u e. handle_async_connect env no_error on_connect e

-- What is sent, and who waits, with a first command on the new connection.
abbrev pub first_command : Env → ErrorCode → ℕ → Handler → Command → Client → Run Unit
first_command env aborted endpoint on_connect x c =
    reconnect env aborted endpoint on_connect c >>> λ u d. do_async_command env x.buff x.handler d

abbrev reconnected : ℕ → Client → Client
reconnected endpoint c =
    let cleared = record c { msg_handlers = []; handlers = []; data_writed = [] } in
    let broken = does closes (does shuts_down (does cancels cleared)) in
    let fresh = does (connects endpoint) (record broken { redis_parser = new_parser }) in
    process_message (record (does sets_no_delay fresh) { state = connected })

reconnect-reconnected :
    (env : Env) (aborted : ErrorCode) (endpoint : ℕ) (on_connect k : Handler) (c : Client)
    → IsIdleEnv env
    → is_error_code aborted ≡ true
    → c.error_handler ≡ installed k
    → reconnect env aborted endpoint on_connect c ≡ returns tt (reconnected endpoint c)
unfolding async_write connect handle_async_connect close report
reconnect-reconnected env aborted endpoint on_connect k c idle fails custom =
    rw (fails, custom, idle.error_idles, idle.connect_idles) refl

sent_silent : (ios : List Io) (i : Io) → sent (i ∷ []) ≡ [] → sent (ios ++ i ∷ []) ≡ sent ios
sent_silent ios i h = sent-append ios (i ∷ []) ∙ ap (λ l. sent ios ++ l) h ∙ append-nil (sent ios)

reconnected-sent : (endpoint : ℕ) (c : Client) → sent (reconnected endpoint c).io ≡ sent c.io
reconnected-sent endpoint c =
    let i1 = c.io ++ cancels ∷ [] in
    let i2 = i1 ++ shuts_down ∷ [] in
    let i3 = i2 ++ closes ∷ [] in
    let i4 = i3 ++ connects endpoint ∷ [] in
    let i5 = i4 ++ sets_no_delay ∷ [] in
    sent_silent i5 starts_read refl
    ∙ sent_silent i4 sets_no_delay refl
    ∙ sent_silent i3 (connects endpoint) refl
    ∙ sent_silent i2 closes refl
    ∙ sent_silent i1 shuts_down refl
    ∙ sent_silent c.io cancels refl

reconnected-sends :
    (env : Env) (endpoint : ℕ) (x : Command) (c : Client)
    → (f : Client) × (do_async_command env x.buff x.handler (reconnected endpoint c) ≡ returns tt f)
      × (sent f.io ≡ sent c.io ++ (c.data_queued ++ x.buff ∷ []))
      × (f.handlers ≡ x.handler ∷ [])
reconnected-sends env endpoint x c = (
  _,
  do_async_command-sends env x (reconnected endpoint c) refl,
  sym (append-nil _)
      ∙ start_write-sent (enqueue x (reconnected endpoint c))
      ∙ ap (λ l. l ++ (c.data_queued ++ x.buff ∷ [])) (reconnected-sent endpoint c),
  refl,
)

-- With an error handler installed and functions of the user that do nothing: after `disconnect`,
-- the end of the write under way with an error, `connect` and its success, the first command given
-- is sent behind the commands that waited at the `disconnect`, and its handler is the only one in
-- the queue.
pub reconnect_sends_stale :
    (env : Env) (aborted : ErrorCode) (endpoint : ℕ) (on_connect k : Handler) (x : Command)
    (c : Client)
    → IsIdleEnv env
    → is_error_code aborted ≡ true
    → c.error_handler ≡ installed k
    → (f : Client) × (first_command env aborted endpoint on_connect x c ≡ returns tt f)
      × (sent f.io ≡ sent c.io ++ (c.data_queued ++ x.buff ∷ []))
      × (f.handlers ≡ x.handler ∷ [])
reconnect_sends_stale env aborted endpoint on_connect k x c idle fails custom =
    rw (reconnect-reconnected env aborted endpoint on_connect k c idle fails custom)
      (reconnected-sends env endpoint x c)
