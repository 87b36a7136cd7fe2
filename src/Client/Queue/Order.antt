-- ===== src/Client/Queue/Order.antt =====
-- The order of commands, writes and replies: `doAsyncCommand`, `asyncWrite` and `doProcessMessage`
-- as a client in the state Connected takes them, one after the other.
pub mod Fifo
use redisclient.Base.{
  ℕ, suc, ◌+◌, ◌≡◌, refl, ap, sym, ◌∙◌, subst, Bool, true, false, List, [], ◌∷◌, ◌++◌, map,
  append_assoc, append-nil, ◌⊎◌, inl, inr, Bool-cases, Bytes, arith,
}
use redisclient.Value.{RedisValue}
use redisclient.Parser.{is_empty}
use redisclient.Client.{
  Client, Run, returns, Env, no_error, is_error_code, Handler, Io, starts_write, report,
  is_subscribed,
}
use redisclient.Client.Queue.{async_write, start_write, do_async_command}
use redisclient.Client.Messages.{do_process_message}
use redisclient.Client.Messages.Dispatch.{do_process_message-answers}

-- The commands whose writes have been started, in order.
abbrev pub sent : List Io → List Bytes
sent [] = []
sent (starts_write buffers ∷ ios) = buffers ++ sent ios
sent (_ ∷ ios) = sent ios

-- How many writes have been started.
abbrev pub writes : List Io → ℕ
writes [] = 0
writes (starts_write buffers ∷ ios) = suc (writes ios)
writes (_ ∷ ios) = writes ios

pub sent-append : (xs ys : List Io) → sent (xs ++ ys) ≡ sent xs ++ sent ys
sent-append [] ys = refl
sent-append (starts_write buffers ∷ xs) ys =
    ground (arith, sent-append xs ys, append_assoc buffers (sent xs) (sent ys))
sent-append (_ ∷ xs) ys = sent-append xs ys

pub writes-append : (xs ys : List Io) → writes (xs ++ ys) ≡ writes xs + writes ys
writes-append [] ys = omega arith
writes-append (starts_write buffers ∷ xs) ys = omega (arith, writes-append xs ys)
writes-append (_ ∷ xs) ys = writes-append xs ys

pub record Command : Type 0 where
  pub buff : Bytes
  pub handler : Handler

abbrev pub buffs : List Command → List Bytes
buffs cs = map (λ x. x.buff) cs

abbrev pub functions : List Command → List Handler
functions cs = map (λ x. x.handler) cs

-- The queues are as they were: the user's function has not disconnected, nor run the strand.
pub record SameQueues (c d : Client) : Type 0 where
  pub handlers_same : d.handlers ≡ c.handlers
  pub writed_same : d.data_writed ≡ c.data_writed
  pub queued_same : d.data_queued ≡ c.data_queued
  pub io_same : d.io ≡ c.io

-- A run from `c`: the commands given to `doAsyncCommand`, the handlers called with a reply, and the
-- number of writes that have ended without an error.
pub data Steps (env : Env) (c : Client) : List Command → List Handler → ℕ → Client → Type 0 where
  begins : Steps env c [] [] 0 c
  commands :
      {cs : List Command} {called : List Handler} {ended : ℕ} {d e : Client} (x : Command)
      → Steps env c cs called ended d
      → do_async_command env x.buff x.handler d ≡ returns tt e
      → Steps env c (cs ++ x ∷ []) called ended e
  ends_write :
      {cs : List Command} {called : List Handler} {ended : ℕ} {d e : Client}
      → Steps env c cs called ended d
      → is_empty d.data_writed ≡ false
      → async_write env no_error d ≡ returns tt e
      → Steps env c cs called (suc ended) e
  replies :
      {cs : List Command} {called hs : List Handler} {ended : ℕ} {d q e : Client}
      → (h : Handler) (v : RedisValue) → Steps env c cs called ended d
      → is_subscribed d.state ≡ false
      → d.handlers ≡ h ∷ hs
      → env.on_reply h v d ≡ returns tt q
      → SameQueues d q
      → do_process_message env v d ≡ returns tt e
      → Steps env c cs (called ++ h ∷ []) ended e

-- Whether a write is under way.
abbrev pub under_way : List Bytes → ℕ
under_way [] = 0
under_way (b ∷ bs) = 1

pub record IsFifo (c : Client) (cs : List Command) (called : List Handler) (ended : ℕ) (d : Client)
    : Type 0 where
  pub in_order : sent d.io ++ d.data_queued ≡ sent c.io ++ buffs cs
  pub answered : called ++ d.handlers ≡ functions cs
  pub at_most_one : writes d.io ≡ writes c.io + ended + under_way d.data_writed
  pub no_wait : is_empty d.data_writed ≡ true → is_empty d.data_queued ≡ true

pub returns-injective : {A : Type 0} {a : A} {c d : Client} → returns a c ≡ returns a d → c ≡ d
returns-injective h = cc

pub is_empty-nil : {A : Type 0} (xs : List A) → is_empty xs ≡ true → xs ≡ []
is_empty-nil [] h = refl
is_empty-nil (x ∷ xs) h = cc

pub buffs-append :
    (cs : List Command) (x : Command) → buffs (cs ++ x ∷ []) ≡ buffs cs ++ x.buff ∷ []
buffs-append [] x = refl
buffs-append (y ∷ cs) x = ap (◌∷◌ y.buff) (buffs-append cs x)

pub functions-append :
    (cs : List Command) (x : Command) → functions (cs ++ x ∷ []) ≡ functions cs ++ x.handler ∷ []
functions-append [] x = refl
functions-append (y ∷ cs) x = ap (◌∷◌ y.handler) (functions-append cs x)

pub append-snoc :
    {A : Type 0} (xs ys zs : List A) (x : A) → xs ++ ys ≡ zs → xs ++ (ys ++ x ∷ []) ≡ zs ++ x ∷ []
append-snoc xs ys zs x h = sym (append_assoc xs ys (x ∷ [])) ∙ ap (λ l. l ++ x ∷ []) h

-- The client with a command in its queues, no write begun.
abbrev pub enqueue : Command → Client → Client
enqueue x d = record d {
  handlers = d.handlers ++ x.handler ∷ [];
  data_queued = d.data_queued ++ x.buff ∷ [];
}

-- A write of all that waits.
pub start_write-sent : (d : Client) → sent (start_write d).io ++ [] ≡ sent d.io ++ d.data_queued
start_write-sent d =
    append-nil _
    ∙ sent-append d.io (starts_write d.data_queued ∷ [])
    ∙ ap (λ l. sent d.io ++ l) (append-nil d.data_queued)

pub start_write-writes : (d : Client) → writes (start_write d).io ≡ writes d.io + 1
start_write-writes d = writes-append d.io (starts_write d.data_queued ∷ [])

pub under_way_some : (bs : List Bytes) → is_empty bs ≡ false → under_way bs ≡ 1
under_way_some [] h = cc
under_way_some (b ∷ bs) h = refl

pub under_way-nil : (bs : List Bytes) → is_empty bs ≡ true → under_way bs ≡ 0
under_way-nil [] h = refl
under_way-nil (b ∷ bs) h = cc

pub under_way-snoc : (bs : List Bytes) (b : Bytes) → under_way (bs ++ b ∷ []) ≡ 1
under_way-snoc [] b = refl
under_way-snoc (x ∷ bs) b = refl

-- What the operations do.
pub is_empty-snoc : {A : Type 0} (xs : List A) (x : A) → is_empty (xs ++ x ∷ []) ≡ false
is_empty-snoc [] x = refl
is_empty-snoc (y ∷ xs) x = refl

pub async_write-some :
    (env : Env) (d : Client)
    → is_empty d.data_queued ≡ false
    → async_write env no_error d ≡ returns tt (start_write d)
unfolding async_write
async_write-some env d h = rw h refl

pub async_write-nil :
    (env : Env) (d : Client)
    → is_empty d.data_queued ≡ true
    → async_write env no_error d ≡ returns tt (record d { data_writed = [] })
unfolding async_write
async_write-nil env d h = rw h refl

pub do_async_command-sends :
    (env : Env) (x : Command) (d : Client)
    → is_empty d.data_writed ≡ true
    → do_async_command env x.buff x.handler d ≡ returns tt (start_write (enqueue x d))
unfolding do_async_command
do_async_command-sends env x d h =
    rw h (async_write-some env (enqueue x d) (is_empty-snoc d.data_queued x.buff))

pub do_async_command-waits :
    (env : Env) (x : Command) (d : Client)
    → is_empty d.data_writed ≡ false
    → do_async_command env x.buff x.handler d ≡ returns tt (enqueue x d)
unfolding do_async_command
do_async_command-waits env x d h = rw h refl
