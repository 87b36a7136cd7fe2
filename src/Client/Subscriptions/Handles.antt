-- ===== src/Client/Subscriptions/Handles.antt =====
-- The handles of subscriptions: `subscribe` gives a new id, and `unsubscribe` takes away that
-- subscription and no other.
use redisclient.Base.{
  ℕ, suc, ◌+◌, ◌%◌, ◌^◌, ◌≤◌, ◌<◌, ◌≡◌, refl, ap, subst, ◌∙◌, true, false, ◌&&◌, List, [], ◌∷◌,
  ◌++◌, ◌==◌, inl, inr, Bool-cases, Bytes, arith,
}
use redisclient.Value.Equality.{equal_bytes, equal_bytes_iff}
use redisclient.Client.{Client, returns, Env, Handler, MsgHandler, Task, subscribed}
use redisclient.Client.Subscriptions.{
  is_open, subscribe, unsubscribe, erase_msg_handler, subscription_command,
}

-- The ids of the entries ascend from `low`, and are below `high`.
abbrev pub Ascend : ℕ → List MsgHandler → ℕ → Type 0
Ascend low [] high = low ≤ high
Ascend low (m ∷ ms) high = (low ≤ m.id) × Ascend (suc m.id) ms high

-- No two subscriptions have one id, and the next id is free.
abbrev pub HasHandles : Client → Type 0
HasHandles c = Ascend 0 c.msg_handlers c.subscribe_seq

Ascend-bound : (low : ℕ) (ms : List MsgHandler) (high : ℕ) → Ascend low ms high → low ≤ high
Ascend-bound low [] high h = h
Ascend-bound low (m ∷ ms) high h = omega (arith, h.0, Ascend-bound (suc m.id) ms high h.1)

Ascend-lower :
    (low lower : ℕ) (ms : List MsgHandler) (high : ℕ)
    → lower ≤ low
    → Ascend low ms high
    → Ascend lower ms high
Ascend-lower low lower [] high l h = omega arith
Ascend-lower low lower (m ∷ ms) high l h = (omega arith, h.1)

Ascend-snoc :
    (low : ℕ) (ms : List MsgHandler) (m : MsgHandler)
    → Ascend low ms m.id
    → Ascend low (ms ++ m ∷ []) (suc m.id)
Ascend-snoc low [] m h = (h, omega arith)
Ascend-snoc low (x ∷ ms) m h = (h.0, Ascend-snoc (suc x.id) ms m h.1)

erase_msg_handler-Ascend :
    (channel : Bytes) (id low : ℕ) (ms : List MsgHandler) (high : ℕ)
    → Ascend low ms high
    → Ascend low (erase_msg_handler channel id ms) high
erase_msg_handler-Ascend channel id low [] high h = h
erase_msg_handler-Ascend channel id low (m ∷ ms) high h =
    let rest = erase_msg_handler-Ascend channel id (suc m.id) ms high h.1 in
    elim (Bool-cases (equal_bytes m.channel channel && m.id == id)) [
      | inl e ↦ rw e (Ascend-lower (suc m.id) low _ high (omega arith) rest)
      | inr e ↦ rw e (h.0, rest)
    ]

-- Below the first id there is nothing to erase.
erase_msg_handler-below :
    (channel : Bytes) (id low : ℕ) (ms : List MsgHandler) (high : ℕ)
    → id < low
    → Ascend low ms high
    → erase_msg_handler channel id ms ≡ ms
erase_msg_handler-below channel id low [] high l h = refl
erase_msg_handler-below channel id low (m ∷ ms) high l h =
    let rest = erase_msg_handler-below channel id (suc m.id) ms high (omega arith) h.1 in
    let other : (equal_bytes m.channel channel && m.id == id) ≡ false = ground arith in
    rw other (ap (◌∷◌ m) rest)

Ascend-inside :
    (low : ℕ) (before : List MsgHandler) (m : MsgHandler) (after : List MsgHandler) (high : ℕ)
    → Ascend low (before ++ m ∷ after) high
    → low ≤ m.id
Ascend-inside low [] m after high h = h.0
Ascend-inside low (x ∷ before) m after high h =
    omega (arith, h.0, Ascend-inside (suc x.id) before m after high h.1)

erase_msg_handler-one :
    (low : ℕ) (before : List MsgHandler) (m : MsgHandler) (after : List MsgHandler) (high : ℕ)
    → Ascend low (before ++ m ∷ after) high
    → erase_msg_handler m.channel m.id (before ++ m ∷ after) ≡ before ++ after
erase_msg_handler-one low [] m after high h =
    let found : (equal_bytes m.channel m.channel && m.id == m.id) ≡ true =
      ground (arith, equal_bytes_iff m.channel m.channel) in
    rw found (erase_msg_handler-below m.channel m.id (suc m.id) after high (omega arith) h.1)
erase_msg_handler-one low (x ∷ before) m after high h =
    let rest = erase_msg_handler-one (suc x.id) before m after high h.1 in
    let other : (equal_bytes x.channel m.channel && x.id == m.id) ≡ false =
      ground (arith, Ascend-inside (suc x.id) before m after high h.1) in
    rw other (ap (◌∷◌ x) rest)

-- The client behind `subscribe`, and behind `unsubscribe`.
abbrev pub with_subscription : Bytes → MsgHandler → Handler → Client → Client
with_subscription command entry handler c = record c {
  posted = c.posted ++ Task.command (subscription_command command entry.channel) handler ∷ [];
  msg_handlers = c.msg_handlers ++ entry ∷ [];
  state = subscribed;
  subscribe_seq = suc entry.id;
}

abbrev pub without_subscription : Bytes → MsgHandler → Handler → List MsgHandler → Client → Client
without_subscription command entry handler left c = record c {
  posted = c.posted ++ Task.command (subscription_command command entry.channel) handler ∷ [];
  msg_handlers = left;
}

-- On an open client whose handles are in order, `subscribe` returns the next id (below 2^64 - 1),
-- posts the command, adds one entry with that id and goes to Subscribed; the handles stay in order,
-- so that the id is that of no other entry.
pub subscribe-HasHandles :
    (env : Env) (command channel : Bytes) (msg_handler handler : Handler) (c : Client)
    → is_open c ≡ true
    → HasHandles c
    → suc c.subscribe_seq < 2 ^ 64
    → let entry : MsgHandler = record {
      channel = channel;
      id = c.subscribe_seq;
      handler = msg_handler;
    } in
      let d = with_subscription command entry handler c in
      (subscribe env command channel msg_handler handler c ≡ returns c.subscribe_seq d)
      × HasHandles d
unfolding subscribe
subscribe-HasHandles env command channel msg_handler handler c opened h small =
    let entry : MsgHandler = record {
      channel = channel;
      id = c.subscribe_seq;
      handler = msg_handler;
    } in
    let next : (c.subscribe_seq + 1) % 2 ^ 64 ≡ suc c.subscribe_seq = omega arith in
    (rw (opened, next) refl, Ascend-snoc 0 c.msg_handlers entry h)

-- On an open client whose handles are in order, `unsubscribe` with the id and the channel of an
-- entry takes away that entry and no other, keeps the others' order, and posts the command; the
-- handles stay in order.
pub unsubscribe-one :
    (env : Env) (command : Bytes) (handler : Handler) (c : Client) (before : List MsgHandler)
    (m : MsgHandler) (after : List MsgHandler)
    → is_open c ≡ true
    → HasHandles c
    → c.msg_handlers ≡ before ++ m ∷ after
    → let d = without_subscription command m handler (before ++ after) c in
      (unsubscribe env command m.id m.channel handler c ≡ returns tt d) × HasHandles d
unfolding unsubscribe
unsubscribe-one env command handler c before m after opened h is =
    let left =
      ap (erase_msg_handler m.channel m.id) is
      ∙ erase_msg_handler-one 0 before m after c.subscribe_seq
          (subst (λ ms. Ascend 0 ms c.subscribe_seq) is h) in
    (
      rw opened (ap (λ ms. returns tt (without_subscription command m handler ms c)) left),
      subst (λ ms. Ascend 0 ms c.subscribe_seq) left
          (erase_msg_handler-Ascend m.channel m.id 0 c.msg_handlers c.subscribe_seq h),
    )
