-- ===== src/AsyncClient/Scripts/Effects.antt =====
-- What the calls of a `RedisAsyncClient`, made by scripts of the user, do to the client's queues.
use redisclient.Base.{
  Bool, if◌then◌else◌, ℕ, zero, suc, refl, sym, true, false, ◌||◌, inl, inr, Bool-cases, List, [],
  ◌∷◌, append-nil, Bytes,
}
use redisclient.Value.{RedisValue}
use redisclient.Buffer.{RedisBuffer, from_string, make_command}
use redisclient.Parser.{new_parser}
use redisclient.Parser.Invariant.{new_parser-IsIdle}
use redisclient.Client.{
  State, Client, returns, ◌>>>◌, Ends, Env, no_error, Handler, Io, cancels, shuts_down, closes,
  report, close, is_connected, does, post, Task,
}
use redisclient.Client.Subscriptions.{is_open, subscribe, single_shot_subscribe, unsubscribe}
use redisclient.Client.Subscriptions
use redisclient.AsyncClient.{
  Handle, connect, connect_local, start_connect, is_closed, is_unconnected, command, state_valid,
  invalid_state, subscribe_channel, psubscribe, unsubscribe_handle, punsubscribe,
  single_shot_channel, single_shot_psubscribe, publish_message,
}
use redisclient.Client.Moves.{
  Moves, Moves-same, Moves-refl, Moves-trans, Ends-trans, Moves->>>, does-Moves, Moving,
  report-Moves,
}
use redisclient.AsyncClient.Scripts.{
  Call, connects_local, disconnects, installs_error_handler, commands, publishes, unsubscribes,
  punsubscribes, single_shots, single_shot_patterns, perform, Script, stops, raises, calls, looks,
  subscribes, psubscribes, run_script, Program, env_of, IsCalmCall, IsCalmScript, IsCalm,
}
use redisclient.AsyncClient.Scripts

module _ (K : Type 0) (env : Env) (moving : Moving K env) where
  start_connect-Moves :
      (endpoint : ℕ) (h : Handler) (c : Client) → Ends (Moves K c) (start_connect env endpoint h c)
  unfolding start_connect
  start_connect-Moves endpoint h c =
      elim (Bool-cases (is_unconnected c.state || is_closed c.state)) [
        | inl starts ↦ rw starts (
            Moves-trans K c (record c { state = State.connecting }) _
              (Moves-same K c (record c { state = State.connecting }) refl refl refl refl refl)
              (does-Moves K (Io.connects endpoint) (record c { state = State.connecting }) refl
                refl))
        | inr other ↦ rw other (moving.connect_moves h no_error c)
      ]

  reset-Moves : (c : Client) → Moves K c (record c { redis_parser = new_parser })
  reset-Moves c = record {
    ready_kept = λ r. new_parser-IsIdle.valid;
    writed_same = refl;
    queued_same = refl;
    sent_same = refl;
    writes_same = refl;
    handlers_left = ([], refl);
    handlers_kept = λ k. refl;
  }

  connect-Moves :
      (endpoint : ℕ) (h : Handler) (c : Client) → Ends (Moves K c) (connect env endpoint h c)
  unfolding connect
  connect-Moves endpoint h c = elim (Bool-cases (is_closed c.state)) [
    | inl shut ↦ rw shut (
        Ends-trans K c (record c { redis_parser = new_parser }) _ (reset-Moves c)
          (start_connect-Moves endpoint h (record c { redis_parser = new_parser })))
    | inr other ↦ rw other (start_connect-Moves endpoint h c)
  ]

  close-Moves : (c : Client) → (K → ⊥) → Moves K c (close c)
  unfolding close
  close-Moves c never =
      let cleared = record c { msg_handlers = []; handlers = [] } in
      let m1 : Moves K c cleared = record {
        ready_kept = λ r. r;
        writed_same = refl;
        queued_same = refl;
        sent_same = refl;
        writes_same = refl;
        handlers_left = (c.handlers, sym (append-nil c.handlers));
        handlers_kept = λ k. absurd (never k);
      } in
      let c1 = does cancels cleared in
      let c2 = does shuts_down c1 in
      let c3 = does closes c2 in
      Moves-trans K c cleared _ m1 (
        Moves-trans K cleared c1 _ (does-Moves K cancels cleared refl refl) (
          Moves-trans K c1 c2 _ (does-Moves K shuts_down c1 refl refl) (
            Moves-trans K c2 c3 _ (does-Moves K closes c2 refl refl)
              (Moves-same K c3 _ refl refl refl refl refl))))

  state_valid-Moves : (c : Client) → Ends (Moves K c) (state_valid env c)
  unfolding state_valid invalid_state
  state_valid-Moves c = elim (Bool-cases (is_connected c.state)) [
    | inl valid ↦ rw valid (Moves-refl K c)
    | inr other ↦
        rw other
          (Moves->>> K c (report env _ c) _ (report-Moves K env moving _ c) (λ u d. Moves-refl K d))
  ]

  command-Moves :
      (cmd : Bytes) (args : List RedisBuffer) (h : Handler) (c : Client)
      → Ends (Moves K c) (command env cmd args h c)
  unfolding command
  command-Moves cmd args h c =
      Moves->>> K c (state_valid env c) _ (state_valid-Moves c) (λ valid d. posts valid d)
    where
      posts :
          (valid : Bool) (d : Client)
          → Ends (Moves K d) (
              if valid
              then returns tt (post (Task.command (make_command (from_string cmd ∷ args)) h) d)
              else returns tt d)
      posts true d = Moves-same K d _ refl refl refl refl refl
      posts false d = Moves-refl K d

  subscribe-Moves :
      (name channel : Bytes) (m h : Handler) (c : Client)
      → Ends (Moves K c) (subscribe env name channel m h c)
  unfolding subscribe Subscriptions.invalid_state
  subscribe-Moves name channel m h c = elim (Bool-cases (is_open c)) [
    | inl valid ↦ rw valid (Moves-same K c _ refl refl refl refl refl)
    | inr other ↦
        rw other
          (Moves->>> K c (report env _ c) _ (report-Moves K env moving _ c) (λ u d. Moves-refl K d))
  ]

  single_shot_subscribe-Moves :
      (name channel : Bytes) (m h : Handler) (c : Client)
      → Ends (Moves K c) (single_shot_subscribe env name channel m h c)
  unfolding single_shot_subscribe Subscriptions.invalid_state
  single_shot_subscribe-Moves name channel m h c = elim (Bool-cases (is_open c)) [
    | inl valid ↦ rw valid (Moves-same K c _ refl refl refl refl refl)
    | inr other ↦ rw other (report-Moves K env moving _ c)
  ]

  unsubscribe-Moves :
      (name channel : Bytes) (id : ℕ) (h : Handler) (c : Client)
      → Ends (Moves K c) (unsubscribe env name id channel h c)
  unfolding unsubscribe Subscriptions.invalid_state
  unsubscribe-Moves name channel id h c = elim (Bool-cases (is_open c)) [
    | inl valid ↦ rw valid (Moves-same K c _ refl refl refl refl refl)
    | inr other ↦ rw other (report-Moves K env moving _ c)
  ]

  publish_message-Moves :
      (channel : Bytes) (msg : RedisBuffer) (h : Handler) (c : Client)
      → Ends (Moves K c) (publish_message env channel msg h c)
  unfolding publish_message invalid_state
  publish_message-Moves channel msg h c = elim (Bool-cases (is_connected c.state)) [
    | inl valid ↦ rw valid (Moves-same K c _ refl refl refl refl refl)
    | inr other ↦ rw other (report-Moves K env moving _ c)
  ]

  connect_local-Moves :
      (endpoint : ℕ) (h : Handler) (c : Client) → Ends (Moves K c) (connect_local env endpoint h c)
  unfolding connect_local
  connect_local-Moves endpoint h c = start_connect-Moves endpoint h c

  handle-Moves :
      (name channel : Bytes) (m h : Handler) (c : Client)
      → Ends (Moves K c) (
          subscribe env name channel m h c >>> λ id d.
          let handle : Handle = record { id = id; channel = channel } in returns handle d)
  handle-Moves name channel m h c =
      Moves->>> K c (subscribe env name channel m h c) _ (subscribe-Moves name channel m h c)
        (λ id d. Moves-refl K d)

  -- Every call moves; it keeps the queue of the handlers unless it is `disconnect`.
  pub perform-Moves :
      (x : Call) (c : Client) → (K → IsCalmCall x) → Ends (Moves K c) (perform env x c)
  unfolding perform unsubscribe_handle punsubscribe single_shot_channel single_shot_psubscribe
      IsCalmCall
  perform-Moves (Scripts.connects endpoint h) c calm = connect-Moves endpoint h c
  perform-Moves (connects_local endpoint h) c calm = connect_local-Moves endpoint h c
  perform-Moves disconnects c calm = close-Moves c calm
  perform-Moves (installs_error_handler h) c calm = Moves-same K c _ refl refl refl refl refl
  perform-Moves (commands cmd args h) c calm = command-Moves cmd args h c
  perform-Moves (publishes channel msg h) c calm = publish_message-Moves channel msg h c
  perform-Moves (unsubscribes handle) c calm = unsubscribe-Moves _ handle.channel handle.id _ c
  perform-Moves (punsubscribes handle) c calm = unsubscribe-Moves _ handle.channel handle.id _ c
  perform-Moves (single_shots channel m h) c calm = single_shot_subscribe-Moves _ channel m h c
  perform-Moves (single_shot_patterns p m h) c calm = single_shot_subscribe-Moves _ p m h c

  pub run_script-Moves :
      (s : Script) (c : Client) → (K → IsCalmScript s) → Ends (Moves K c) (run_script env s c)
  unfolding run_script subscribe_channel psubscribe IsCalmScript
  run_script-Moves stops c calm = Moves-refl K c
  run_script-Moves (raises text) c calm = Moves-refl K c
  run_script-Moves (calls x s) c calm =
      Moves->>> K c (perform env x c) (λ u d. run_script env s d)
        (perform-Moves x c (λ k. (calm k).0)) (λ u d. run_script-Moves s d (λ k. (calm k).1))
  run_script-Moves (looks f) c calm = run_script-Moves (f c.state) c (λ k. calm k c.state)
  run_script-Moves (subscribes channel m h f) c calm =
      Moves->>> K c (subscribe_channel env channel m h c) (λ handle d. run_script env (f handle) d)
        (handle-Moves _ channel m h c)
        (λ handle d. run_script-Moves (f handle) d (λ k. calm k handle))
  run_script-Moves (psubscribes pattern m h f) c calm =
      Moves->>> K c (psubscribe env pattern m h c) (λ handle d. run_script env (f handle) d)
        (handle-Moves _ pattern m h c)
        (λ handle d. run_script-Moves (f handle) d (λ k. calm k handle))

-- The functions of a program, at any depth
pub env_of-Moving :
    (K : Type 0) (depth : ℕ) (p : Program) → (K → IsCalm p) → Moving K (env_of depth p)
unfolding env_of
env_of-Moving K zero p calm = record {
  connect_moves = λ h ec c. Moves-refl K c;
  error_moves = λ h s c. Moves-refl K c;
}
env_of-Moving K (suc depth) p calm = record {
  connect_moves = λ h ec c.
      run_script-Moves K (env_of depth p) (env_of-Moving K depth p calm) (p.connect_script h ec) c
        (λ k. (calm k).calm_connect h ec);
  error_moves = λ h s c.
      run_script-Moves K (env_of depth p) (env_of-Moving K depth p calm) (p.error_script h s) c
        (λ k. (calm k).calm_error h s);
}

pub on_reply-Moves :
    (K : Type 0) (depth : ℕ) (p : Program) (h : Handler) (v : RedisValue) (c : Client)
    → (K → IsCalm p)
    → Ends (Moves K c) ((env_of depth p).on_reply h v c)
unfolding env_of
on_reply-Moves K zero p h v c calm = Moves-refl K c
on_reply-Moves K (suc depth) p h v c calm =
    run_script-Moves K (env_of depth p) (env_of-Moving K depth p calm) (p.reply_script h v) c
      (λ k. (calm k).calm_reply h v)

-- The strand runs the functions of messages: they may `disconnect`.
pub on_message-Moves :
    (depth : ℕ) (p : Program) (h : Handler) (payload : Bytes) (c : Client)
    → Ends (Moves ⊥ c) ((env_of depth p).on_message h payload c)
unfolding env_of
on_message-Moves zero p h payload c = Moves-refl ⊥ c
on_message-Moves (suc depth) p h payload c =
    run_script-Moves ⊥ (env_of depth p) (env_of-Moving ⊥ depth p (λ k. absurd k))
      (p.message_script h payload) c (λ k. absurd k)
