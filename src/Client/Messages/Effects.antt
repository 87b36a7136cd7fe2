-- ===== src/Client/Messages/Effects.antt =====
-- What `asyncRead` and `handleAsyncConnect` do beside the queues of the bytes to send, with functions
-- of the user that may empty the queue of the handlers.
use redisclient.Base.{
  subst, sym, ◌∙◌, ℕ, zero, suc, ◌≡◌, refl, not, ◌&&◌, ◌||◌, inl, inr, Bool-cases, Option, none,
  some, List, [], ◌∷◌, leb, length, drop, Bytes,
}
use redisclient.Value.{RedisValue, to_array, to_string, to_byte_array, size}
use redisclient.Parser.{is_empty}
use redisclient.Parser.Loop.{Parsed, parse, result_of}
use redisclient.Parser.Invariant.Loop.{IsReady, ParseResult-cases, parse-IsValid}
use redisclient.Client.{
  Client, Run, returns, Env, ErrorCode, is_error_code, Handler, Task, post, report, process_message,
  starts_read, sets_no_delay, does, unconnected, connected, is_subscribed,
}
use redisclient.Client.Messages.{
  do_process_message, dispatch_fields, dispatch, call_front, pop_front, publish, post_all,
  find_single_shot, erase_single_shot, equal_range, Fields, fields, is_message, is_subscription,
  read_messages, read_round, read_parsed, async_read, is_aborted, handle_async_connect,
}
use redisclient.Client.Moves.{
  Moves-same, Moves-refl, Moves-trans, Moving, report-Moves, does-Moves, Leaves, Ends-Leaves,
  Beside, Leaves-trans, Leaves->>>,
}

pop_front-Beside :
    (hs : List Handler) (c : Client) → c.handlers ≡ hs → Leaves (Beside c) (pop_front hs c)
unfolding pop_front
pop_front-Beside [] c e = tt
pop_front-Beside (h ∷ hs) c e = record {
  ready_kept = λ r. r;
  writed_same = refl;
  queued_same = refl;
  sent_same = refl;
  writes_same = refl;
  handlers_left = (h ∷ [], e);
  handlers_kept = λ k. absurd k;
}

post_all-Beside :
    (hs : List Handler) (payload : Bytes) (c : Client) → Beside c (post_all hs payload c)
post_all-Beside [] payload c = Moves-refl ⊥ c
post_all-Beside (h ∷ hs) payload c =
    let d = post (Task.message h payload) c in
    Moves-trans ⊥ c d _ (Moves-same ⊥ c d refl refl refl refl refl) (post_all-Beside hs payload d)

publish-Beside : (channel payload : Bytes) (c : Client) → Beside c (publish channel payload c)
unfolding publish
publish-Beside channel payload c =
    let once = post_all (find_single_shot channel c.single_shot) payload c in
    let erased = record once { single_shot = erase_single_shot channel c.single_shot } in
    Moves-trans ⊥ c once _ (post_all-Beside (find_single_shot channel c.single_shot) payload c) (
      Moves-trans ⊥ once erased _ (Moves-same ⊥ once erased refl refl refl refl refl)
        (post_all-Beside (equal_range channel c.msg_handlers) payload erased))

some-injective : {A : Type 0} {x y : A} → some x ≡ some y → x ≡ y
some-injective h = cc

-- `parse` leaves a parser that calls of `parse` leave.
parse-kept :
    (bytes : Bytes) (c : Client) (r : Parsed)
    → parse c.redis_parser bytes ≡ some r
    → IsReady c.redis_parser
    → IsReady r.parser
parse-kept bytes c r parsed ready =
    let (q, found, valid) = parse-IsValid c.redis_parser bytes ready in
    subst (λ x. IsReady x.parser) (some-injective (sym found ∙ parsed)) valid.ready

parsed-Beside :
    (r : Parsed) (c : Client)
    → (IsReady c.redis_parser → IsReady r.parser)
    → Beside c (record c { redis_parser = r.parser })
parsed-Beside r c kept = record {
  ready_kept = kept;
  writed_same = refl;
  queued_same = refl;
  sent_same = refl;
  writes_same = refl;
  handlers_left = ([], refl);
  handlers_kept = λ k. refl;
}

module _ (env : Env) (moving : Moving ⊥ env)
    (replies : (h : Handler) (v : RedisValue) (c : Client)
      → Leaves (Beside c) (env.on_reply h v c)) where
  report-Beside : (s : Bytes) (c : Client) → Leaves (Beside c) (report env s c)
  report-Beside s c = Ends-Leaves (Beside c) (report env s c) (report-Moves ⊥ env moving s c)

  call_front-Beside :
      (v : RedisValue) (hs : List Handler) (c : Client) → Leaves (Beside c) (call_front env v hs c)
  unfolding call_front
  call_front-Beside v [] c = tt
  call_front-Beside v (h ∷ hs) c =
      Leaves->>> c (env.on_reply h v c) (λ u d. pop_front d.handlers d) (replies h v c)
        (λ u d. pop_front-Beside d.handlers d refl)

  dispatch-Beside :
      (v : RedisValue) (o : Option Fields) (c : Client)
      → Leaves (Beside c) (dispatch_fields env v o c)
  unfolding dispatch_fields dispatch
  dispatch-Beside v none c = tt
  dispatch-Beside v (some f) c =
      let cmd = to_string f.command in
      elim (Bool-cases (is_message cmd)) [
        | inl m ↦ rw m (publish-Beside (to_string f.pattern) (to_byte_array f.value) c)
        | inr m ↦ elim (Bool-cases (not (is_empty c.handlers) && is_subscription cmd)) [
          | inl a ↦ rw (m, a) (call_front-Beside v c.handlers c)
          | inr a ↦ rw (m, a) (report-Beside _ c)
        ]
      ]

  do_process_message-Beside :
      (v : RedisValue) (c : Client) → Leaves (Beside c) (do_process_message env v c)
  unfolding do_process_message
  do_process_message-Beside v c = elim (Bool-cases (is_subscribed c.state)) [
    | inl s ↦ elim (Bool-cases (leb 3 (size (to_array v)))) [
      | inl l ↦ rw (s, l) (dispatch-Beside v (fields (to_array v)) c)
      | inr l ↦ rw (s, l) (report-Beside _ c)
    ]
    | inr s ↦ elim (Bool-cases (is_empty c.handlers)) [
      | inl e ↦ rw (s, e) (report-Beside _ c)
      | inr e ↦ rw (s, e) (call_front-Beside v c.handlers c)
    ]
  ]

  read_parsed-Beside :
      (r : Parsed) (c : Client) (next : Client → Run Unit)
      → (IsReady c.redis_parser → IsReady r.parser)
      → ((d : Client) → Leaves (Beside d) (next d))
      → Leaves (Beside c) (read_parsed env r c next)
  unfolding read_parsed
  read_parsed-Beside r c next kept goes =
      let parsed = record c { redis_parser = r.parser } in
      let begun = parsed-Beside r c kept in
      elim (ParseResult-cases r.result) [
        | inl e ↦ rw e (
            Leaves-trans c parsed _ begun (
              Leaves->>> parsed (do_process_message env (result_of r.parser) parsed) (λ u d. next d)
                (do_process_message-Beside (result_of r.parser) parsed) (λ u d. goes d)))
        | inr (inl e) ↦
            rw e (Moves-trans ⊥ c parsed _ begun (does-Moves ⊥ starts_read parsed refl refl))
        | inr (inr e) ↦ rw e (Leaves-trans c parsed _ begun (report-Beside _ parsed))
      ]

  read_round-Beside :
      (o : Option Parsed) (c : Client) (next : ℕ → Client → Run Unit)
      → ((r : Parsed) → o ≡ some r → IsReady c.redis_parser → IsReady r.parser)
      → ((position : ℕ) (d : Client) → Leaves (Beside d) (next position d))
      → Leaves (Beside c) (read_round env o c next)
  unfolding read_round
  read_round-Beside none c next kept goes = tt
  read_round-Beside (some r) c next kept goes =
      read_parsed-Beside r c (next r.position) (kept r refl) (goes r.position)

  read_messages-Beside :
      (fuel : ℕ) (bytes : Bytes) (c : Client) → Leaves (Beside c) (read_messages fuel env bytes c)
  unfolding read_messages
  read_messages-Beside fuel [] c = does-Moves ⊥ starts_read c refl refl
  read_messages-Beside zero (b ∷ bytes) c = tt
  read_messages-Beside (suc fuel) (b ∷ bytes) c =
      read_round-Beside (parse c.redis_parser (b ∷ bytes)) c
        (λ position d. read_messages fuel env (drop position (b ∷ bytes)) d)
        (parse-kept (b ∷ bytes) c)
        (λ position d. read_messages-Beside fuel (drop position (b ∷ bytes)) d)

  pub async_read-Beside :
      (ec : ErrorCode) (bytes : Bytes) (c : Client) → Leaves (Beside c) (async_read env ec bytes c)
  unfolding async_read
  async_read-Beside ec bytes c = elim (Bool-cases (is_error_code ec || is_empty bytes)) [
    | inl stops ↦ elim (Bool-cases (is_aborted ec)) [
      | inl aborted ↦ rw (stops, aborted) (Moves-refl ⊥ c)
      | inr other ↦ rw (stops, other) (report-Beside (env.error_text ec) c)
    ]
    | inr goes ↦ rw goes (read_messages-Beside (length bytes) bytes c)
  ]

  on_connect-Beside :
      (h : Handler) (ec : ErrorCode) (c : Client) → Leaves (Beside c) (env.on_connect h ec c)
  on_connect-Beside h ec c = Ends-Leaves (Beside c) _ (moving.connect_moves h ec c)

  pub handle_async_connect-Beside :
      (ec : ErrorCode) (h : Handler) (c : Client)
      → Leaves (Beside c) (handle_async_connect env ec h c)
  unfolding handle_async_connect
  handle_async_connect-Beside ec h c = elim (Bool-cases (is_error_code ec)) [
    | inl fails ↦
        let d = record c { state = unconnected } in
        rw fails (
          Leaves-trans c d _ (Moves-same ⊥ c d refl refl refl refl refl) (on_connect-Beside h ec d))
    | inr goes ↦
        let d = does sets_no_delay c in
        let e = record d { state = connected } in
        rw goes (
          Leaves-trans c e _
            (Moves-trans ⊥ c d e (does-Moves ⊥ sets_no_delay c refl refl)
              (Moves-same ⊥ d e refl refl refl refl refl))
            (Leaves->>> e (env.on_connect h ec e) (λ u d. returns tt (process_message d))
              (on_connect-Beside h ec e) (λ u d. does-Moves ⊥ starts_read d refl refl)))
  ]
