-- ===== src/Client/Messages/Safety.antt =====
-- No undefined behaviour in `doProcessMessage` and `asyncRead`, as long as the user's functions leave
-- the client's parser alone, and do not empty the queue of the handlers.
use redisclient.Base.{
  ◌==◌, suc, ◌≡◌, refl, true, false, not, ◌&&◌, some, List, [], ◌∷◌, ◌++◌, leb, inl, inr,
  Bool-cases, Bytes, codes, arith,
}
use redisclient.Value.{RedisValue, Values, nil, cons, to_array, to_string, to_byte_array, size}
use redisclient.Value.Inspect.{inspect}
use redisclient.Parser.{RedisParser, is_empty}
use redisclient.Parser.Invariant.Loop.{IsReady}
use redisclient.Client.{
  Client, Run, returns, throws, Env, Handler, ErrorHandler, unset, default_handler, installed, Ends,
  Ends->>>, report, call_error_handler, is_subscribed,
}
use redisclient.Client.Messages.{
  do_process_message, dispatch_fields, dispatch, call_front, pop_front, publish, post_all,
  find_single_shot, erase_single_shot, equal_range, Fields, fields, is_message, is_subscription,
}

-- What a user's function keeps, whether it returns or throws: a property `I` of the parser, and that
-- the queue of the handlers is not empty.
pub record Keeps (I : RedisParser → Type 0) (c d : Client) : Type 0 where
  pub parser_kept : I c.redis_parser → I d.redis_parser
  pub still_handlers : is_empty c.handlers ≡ false → is_empty d.handlers ≡ false

pub Keeps-refl : (I : RedisParser → Type 0) (c : Client) → Keeps I c c
Keeps-refl I c = record { parser_kept = λ i. i; still_handlers = λ e. e }

pub record Respects (I : RedisParser → Type 0) (env : Env) : Type 0 where
  pub reply_keeps :
      (h : Handler) (v : RedisValue) (c : Client) → Ends (Keeps I c) (env.on_reply h v c)
  pub error_keeps : (h : Handler) (s : Bytes) (c : Client) → Ends (Keeps I c) (env.on_error h s c)

-- The user's functions leave the parser alone, and do not empty the queue of the handlers.
abbrev pub IsPolite : Env → Type 0
IsPolite env = (q : RedisParser) → Respects (λ p. p ≡ q) env

-- The user's functions leave a parser that calls of `parse` can leave, and do not empty the queue.
abbrev pub IsSafe : Env → Type 0
IsSafe env = Respects IsReady env

pub Ends-weaken :
    {A : Type 0} (P Q : Client → Type 0) (m : Run A)
    → ((d : Client) → P d → Q d)
    → Ends P m
    → Ends Q m
Ends-weaken P Q (returns u d) f h = f d h
Ends-weaken P Q (throws s d) f h = f d h
Ends-weaken P Q Run.faults f h = h

module _ (I : RedisParser → Type 0) (env : Env) (polite : Respects I env) where
  abbrev Holds : Client → Type 0
  Holds d = I d.redis_parser

  call_error_handler-Ends :
      (e : ErrorHandler) (s : Bytes) (c : Client) → Ends (Keeps I c) (call_error_handler env e s c)
  call_error_handler-Ends unset s c = Keeps-refl I c
  call_error_handler-Ends default_handler s c = Keeps-refl I c
  call_error_handler-Ends (installed h) s c = polite.error_keeps h s c

  pub report-Keeps : (s : Bytes) (c : Client) → Ends (Keeps I c) (report env s c)
  unfolding report
  report-Keeps s c = call_error_handler-Ends c.error_handler s c

  report-Ends : (s : Bytes) (c : Client) → I c.redis_parser → Ends Holds (report env s c)
  report-Ends s c i = Ends-weaken (Keeps I c) Holds _ (λ d k. k.parser_kept i) (report-Keeps s c)

  pop_front-Ends :
      (d : Client) (hs : List Handler)
      → I d.redis_parser
      → is_empty hs ≡ false
      → Ends Holds (pop_front hs d)
  unfolding pop_front
  pop_front-Ends d [] i h = cc
  pop_front-Ends d (x ∷ hs) i h = i

  call_front-Ends :
      (v : RedisValue) (c : Client) (hs : List Handler)
      → I c.redis_parser
      → is_empty c.handlers ≡ false
      → is_empty hs ≡ false
      → Ends Holds (call_front env v hs c)
  unfolding call_front
  call_front-Ends v c [] i h e = cc
  call_front-Ends v c (x ∷ hs) i h e =
      Ends->>> (Keeps I c) Holds (env.on_reply x v c) (λ u d. pop_front d.handlers d)
        (polite.reply_keeps x v c) (λ d k. k.parser_kept i)
        (λ u d k. pop_front-Ends d d.handlers (k.parser_kept i) (k.still_handlers h))

  post_all-parser :
      (hs : List Handler) (payload : Bytes) (c : Client)
      → I c.redis_parser
      → I (post_all hs payload c).redis_parser
  post_all-parser [] payload c i = i
  post_all-parser (h ∷ hs) payload c i = post_all-parser hs payload _ i

  publish-parser :
      (channel payload : Bytes) (c : Client) → I c.redis_parser → Holds (publish channel payload c)
  unfolding publish
  publish-parser channel payload c i =
      let hs = find_single_shot channel c.single_shot in
      let once = post_all hs payload c in
      let erased = record once { single_shot = erase_single_shot channel c.single_shot } in
      post_all-parser (equal_range channel c.msg_handlers) payload erased
        (post_all-parser hs payload c i)

  dispatch-Ends :
      (v : RedisValue) (f : Fields) (c : Client)
      → I c.redis_parser
      → Ends Holds (dispatch env v f c)
  unfolding dispatch
  dispatch-Ends v f c i =
      let cmd = to_string f.command in
      let answers = not (is_empty c.handlers) && is_subscription cmd in
      elim (Bool-cases (is_message cmd)) [
        | inl m ↦ rw m (publish-parser (to_string f.pattern) (to_byte_array f.value) c i)
        | inr m ↦ elim (Bool-cases answers) [
          | inl a ↦
              let full : is_empty c.handlers ≡ false = ground (arith, a) in
              rw (m, a) (call_front-Ends v c c.handlers i full full)
          | inr a ↦
              rw (m, a)
                (report-Ends (codes "[RedisClient] invalid command: " ++ to_string f.command) c i)
        ]
      ]

  fields-some : (xs : Values) → leb 3 (size xs) ≡ true → (f : Fields) × (fields xs ≡ some f)
  unfolding fields
  fields-some (cons x (cons y (cons z nil))) h = (_, refl)
  fields-some (cons x (cons y (cons z (cons w nil)))) h = (_, refl)
  fields-some (cons x (cons y (cons z (cons w (cons u xs))))) h =
      let three : (suc (suc (suc (suc (suc (size xs))))) == 3) ≡ false = ground arith in
      let four : (suc (suc (suc (suc (suc (size xs))))) == 4) ≡ false = ground arith in
      rw (three, four) (record { command = x; queue_name = z; value = w; pattern = z }, refl)
  fields-some _ h = absurd (ground arith)

  -- Every message is processed without undefined behaviour, and the parser keeps `I`.
  pub do_process_message-Ends :
      (v : RedisValue) (c : Client) → I c.redis_parser → Ends Holds (do_process_message env v c)
  unfolding do_process_message
  do_process_message-Ends v c i = elim (Bool-cases (is_subscribed c.state)) [
    | inl s ↦ elim (Bool-cases (leb 3 (size (to_array v)))) [
      | inl l ↦
          let (f, found) = fields-some (to_array v) l in
          rw (s, l, found, dispatch_fields) (dispatch-Ends v f c i)
      | inr l ↦ rw (s, l) (report-Ends (codes "[RedisClient] Protocol error") c i)
    ]
    | inr s ↦ elim (Bool-cases (is_empty c.handlers)) [
      | inl e ↦
          rw (s, e) (report-Ends (codes "[RedisClient] unexpected message: " ++ inspect v) c i)
      | inr e ↦ rw (s, e) (call_front-Ends v c c.handlers i e e)
    ]
  ]
