-- ===== src/Client/Moves.antt =====
-- What the client's functions do beside the queues of the bytes to send: the relation between the
-- client in front of them and behind them.
use redisclient.Base.{
  ◌≡◌, refl, sym, ap, subst, ◌∙◌, List, [], ◌∷◌, ◌++◌, append-nil, append_assoc, Bytes, arith,
}
use redisclient.Parser.Invariant.Loop.{IsReady}
use redisclient.Client.{
  Client, Run, returns, throws, ◌>>>◌, Ends, Env, ErrorCode, Handler, ErrorHandler, unset,
  default_handler, installed, Io, report, call_error_handler, does,
}
use redisclient.Client.Queue.Order.{sent, writes, sent-append, writes-append}

-- What goes on beside the queues of the bytes: nothing is sent, these queues stay, the parser stays
-- one that calls of `parse` leave, and handlers can only leave their queue, at its front; if `K`,
-- the queue of the handlers stays.
pub record Moves (K : Type 0) (c d : Client) : Type 0 where
  pub ready_kept : IsReady c.redis_parser → IsReady d.redis_parser
  pub writed_same : d.data_writed ≡ c.data_writed
  pub queued_same : d.data_queued ≡ c.data_queued
  pub sent_same : sent d.io ≡ sent c.io
  pub writes_same : writes d.io ≡ writes c.io
  pub handlers_left : (hs : List Handler) × (c.handlers ≡ hs ++ d.handlers)
  pub handlers_kept : K → d.handlers ≡ c.handlers

module _ (K : Type 0) where
  pub Moves-same :
      (c d : Client)
      → d.redis_parser ≡ c.redis_parser
      → d.data_writed ≡ c.data_writed
      → d.data_queued ≡ c.data_queued
      → d.io ≡ c.io
      → d.handlers ≡ c.handlers
      → Moves K c d
  Moves-same c d p w q i h = record {
    ready_kept = λ r. subst IsReady (sym p) r;
    writed_same = w;
    queued_same = q;
    sent_same = ap sent i;
    writes_same = ap writes i;
    handlers_left = ([], sym h);
    handlers_kept = λ k. h;
  }

  pub Moves-refl : (c : Client) → Moves K c c
  Moves-refl c = Moves-same c c refl refl refl refl refl

  pub Moves-trans : (c d e : Client) → Moves K c d → Moves K d e → Moves K c e
  Moves-trans c d e m n = record {
    ready_kept = λ r. n.ready_kept (m.ready_kept r);
    writed_same = n.writed_same ∙ m.writed_same;
    queued_same = n.queued_same ∙ m.queued_same;
    sent_same = n.sent_same ∙ m.sent_same;
    writes_same = n.writes_same ∙ m.writes_same;
    handlers_left =
        let (hs, f) = m.handlers_left in
        let (gs, u) = n.handlers_left in
        (hs ++ gs, f ∙ ap (λ l. hs ++ l) u ∙ sym (append_assoc hs gs e.handlers));
    handlers_kept = λ k. n.handlers_kept k ∙ m.handlers_kept k;
  }

  pub Ends-trans :
      {A : Type 0} (c d : Client) (m : Run A)
      → Moves K c d
      → Ends (Moves K d) m
      → Ends (Moves K c) m
  Ends-trans c d (returns a e) w h = Moves-trans c d e w h
  Ends-trans c d (throws s e) w h = Moves-trans c d e w h
  Ends-trans c d Run.faults w h = h

  pub Moves->>> :
      {A B : Type 0} (c : Client) (m : Run A) (f : A → Client → Run B)
      → Ends (Moves K c) m
      → ((a : A) (d : Client) → Ends (Moves K d) (f a d))
      → Ends (Moves K c) (m >>> f)
  Moves->>> c (returns a d) f h k = Ends-trans c d (f a d) h (k a d)
  Moves->>> c (throws s d) f h k = h
  Moves->>> c Run.faults f h k = absurd h

  -- A call of the socket that writes nothing
  pub does-Moves :
      (i : Io) (c : Client) → sent (i ∷ []) ≡ [] → writes (i ∷ []) ≡ 0 → Moves K c (does i c)
  does-Moves i c s w = record {
    ready_kept = λ r. r;
    writed_same = refl;
    queued_same = refl;
    sent_same = sent-append c.io (i ∷ []) ∙ ap (λ l. sent c.io ++ l) s ∙ append-nil (sent c.io);
    writes_same = omega (arith, writes-append c.io (i ∷ []), w);
    handlers_left = ([], refl);
    handlers_kept = λ k. refl;
  }

-- What the functions that a call can run do
pub record Moving (K : Type 0) (env : Env) : Type 0 where
  pub connect_moves :
      (h : Handler) (ec : ErrorCode) (c : Client) → Ends (Moves K c) (env.on_connect h ec c)
  pub error_moves : (h : Handler) (s : Bytes) (c : Client) → Ends (Moves K c) (env.on_error h s c)

module _ (K : Type 0) (env : Env) (moving : Moving K env) where
  call_error_handler-Moves :
      (e : ErrorHandler) (s : Bytes) (c : Client) → Ends (Moves K c) (call_error_handler env e s c)
  call_error_handler-Moves unset s c = Moves-refl K c
  call_error_handler-Moves default_handler s c = Moves-refl K c
  call_error_handler-Moves (installed h) s c = moving.error_moves h s c

  pub report-Moves : (s : Bytes) (c : Client) → Ends (Moves K c) (report env s c)
  unfolding report
  report-Moves s c = call_error_handler-Moves c.error_handler s c

-- What a call leaves fits `P`, by a return or an exception, if the call has no undefined behaviour.
abbrev pub Leaves : {A : Type 0} → (Client → Type 0) → Run A → Type 0
Leaves P (returns a c) = P c
Leaves P (throws s c) = P c
Leaves P Run.faults = Unit

pub Ends-Leaves : {A : Type 0} (P : Client → Type 0) (m : Run A) → Ends P m → Leaves P m
Ends-Leaves P (returns a c) h = h
Ends-Leaves P (throws s c) h = h
Ends-Leaves P Run.faults h = tt

-- A step beside the queues of the bytes
abbrev pub Beside : Client → Client → Type 0
Beside = Moves ⊥

pub Leaves-trans :
    {A : Type 0} (c d : Client) (m : Run A) → Beside c d → Leaves (Beside d) m → Leaves (Beside c) m
Leaves-trans c d (returns a e) w h = Moves-trans ⊥ c d e w h
Leaves-trans c d (throws s e) w h = Moves-trans ⊥ c d e w h
Leaves-trans c d Run.faults w h = tt

pub Leaves->>> :
    {A B : Type 0} (c : Client) (m : Run A) (f : A → Client → Run B)
    → Leaves (Beside c) m
    → ((a : A) (d : Client) → Leaves (Beside d) (f a d))
    → Leaves (Beside c) (m >>> f)
Leaves->>> c (returns a d) f h k = Leaves-trans c d (f a d) h (k a d)
Leaves->>> c (throws s d) f h k = h
Leaves->>> c Run.faults f h k = tt
