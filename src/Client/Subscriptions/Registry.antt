-- ===== src/Client/Subscriptions/Registry.antt =====
-- What `subscribe`, `singleShotSubscribe`, `unsubscribe`, `close` and the delivery of a message are,
-- seen without the order of the multimaps between different channels: operations on a map from
-- channels to subscribers.
use redisclient.Base.{
  ℕ, ◌+◌, ◌%◌, ◌^◌, ◌≡◌, refl, ap, ◌∙◌, true, List, [], ◌∷◌, ◌++◌, ◌==◌, if◌then◌else◌, map, Bytes,
  codes, arith, fun_ext,
}
use redisclient.Value.Equality.{equal_bytes, equal_bytes_iff}
use redisclient.Client.{
  Client, returns, Env, Handler, MsgHandler, SingleShot, Task, post, subscribed, is_subscribed,
}
use redisclient.Client.Subscriptions.{
  subscription_command, is_open, subscribe, single_shot_subscribe, unsubscribe, erase_msg_handler,
}
use redisclient.Client.Messages.{
  do_process_message, find_single_shot, erase_single_shot, equal_range,
}
use redisclient.Client.Messages.Delivery.{do_process_message-delivered, three, delivered, messages}

-- A subscription, and the map: the subscriptions of a channel, and its single shots, oldest first.
pub record Subscription : Type 0 where
  pub id : ℕ
  pub handler : Handler

pub record Registry : Type 0 where
  pub subscriptions : Bytes → List Subscription
  pub shots : Bytes → List Handler

-- A map changed at one channel
abbrev pub at {ℓ} : {A : Type ℓ} → Bytes → (A → A) → (Bytes → A) → Bytes → A
at channel f m k = if equal_bytes channel k then f (m k) else m k

abbrev pub without : ℕ → List Subscription → List Subscription
without id [] = []
without id (s ∷ ss) = let rest = without id ss in if s.id == id then rest else s ∷ rest

abbrev pub tail : List Handler → List Handler
tail [] = []
tail (h ∷ hs) = hs

abbrev pub head : List Handler → List Handler
head [] = []
head (h ∷ hs) = h ∷ []

-- The operations on the map
abbrev pub insert : Bytes → ℕ → Handler → Registry → Registry
insert channel id h r = record r {
  subscriptions = at channel (λ ss. ss ++ (record { id = id; handler = h }) ∷ []) r.subscriptions;
}

abbrev pub remove : Bytes → ℕ → Registry → Registry
remove channel id r = record r { subscriptions = at channel (without id) r.subscriptions }

abbrev pub insert_shot : Bytes → Handler → Registry → Registry
insert_shot channel h r = record r { shots = at channel (λ hs. hs ++ h ∷ []) r.shots }

abbrev pub spend_shot : Bytes → Registry → Registry
spend_shot channel r = record r { shots = at channel tail r.shots }

abbrev pub receivers_of : Bytes → Registry → List Handler
receivers_of channel r = head (r.shots channel) ++ map (λ s. s.handler) (r.subscriptions channel)

-- The map that a client has
abbrev entries : List MsgHandler → Bytes → List Subscription
entries [] k = []
entries (m ∷ ms) k =
    let rest = entries ms k in
    if equal_bytes m.channel k then (record { id = m.id; handler = m.handler }) ∷ rest else rest

abbrev shots_of : List SingleShot → Bytes → List Handler
shots_of [] k = []
shots_of (s ∷ ss) k =
    let rest = shots_of ss k in if equal_bytes s.channel k then s.handler ∷ rest else rest

abbrev pub registry : Client → Registry
registry c = record { subscriptions = entries c.msg_handlers; shots = shots_of c.single_shot }

entries-snoc :
    (ms : List MsgHandler) (m : MsgHandler) (k : Bytes)
    → entries (ms ++ m ∷ []) k
      ≡ at m.channel (λ ss. ss ++ (record { id = m.id; handler = m.handler }) ∷ []) (entries ms) k
entries-snoc [] m k = ground arith
entries-snoc (x ∷ ms) m k = ground (arith, entries-snoc ms m k)

shots_of-snoc :
    (ss : List SingleShot) (s : SingleShot) (k : Bytes)
    → shots_of (ss ++ s ∷ []) k ≡ at s.channel (λ hs. hs ++ s.handler ∷ []) (shots_of ss) k
shots_of-snoc [] s k = ground arith
shots_of-snoc (x ∷ ss) s k = ground (arith, shots_of-snoc ss s k)

entries-erase :
    (channel : Bytes) (id : ℕ) (ms : List MsgHandler) (k : Bytes)
    → entries (erase_msg_handler channel id ms) k ≡ at channel (without id) (entries ms) k
entries-erase channel id [] k = ground arith
entries-erase channel id (m ∷ ms) k = ground (
  arith,
  entries-erase channel id ms k,
  equal_bytes_iff m.channel channel,
  equal_bytes_iff m.channel k,
  equal_bytes_iff channel k,
)

shots_of-erase :
    (channel : Bytes) (ss : List SingleShot) (k : Bytes)
    → shots_of (erase_single_shot channel ss) k ≡ at channel tail (shots_of ss) k
shots_of-erase channel [] k = ground arith
shots_of-erase channel (s ∷ ss) k = ground (
  arith,
  shots_of-erase channel ss k,
  equal_bytes_iff s.channel channel,
  equal_bytes_iff s.channel k,
  equal_bytes_iff channel k,
)

find_single_shot-head :
    (channel : Bytes) (ss : List SingleShot)
    → find_single_shot channel ss ≡ head (shots_of ss channel)
find_single_shot-head channel [] = refl
find_single_shot-head channel (s ∷ ss) = ground (arith, find_single_shot-head channel ss)

equal_range-map :
    (channel : Bytes) (ms : List MsgHandler)
    → equal_range channel ms ≡ map (λ s. s.handler) (entries ms channel)
equal_range-map channel [] = refl
equal_range-map channel (m ∷ ms) = ground (arith, equal_range-map channel ms)

receivers-registry :
    (channel payload : Bytes) (c : Client)
    → (delivered channel payload c).posted
      ≡ c.posted ++ messages (receivers_of channel (registry c)) payload
receivers-registry channel payload c =
    ap (λ hs. c.posted ++ messages hs payload)
      (ap (λ hs. hs ++ equal_range channel c.msg_handlers)
          (find_single_shot-head channel c.single_shot)
        ∙ ap (λ hs. head (shots_of c.single_shot channel) ++ hs)
            (equal_range-map channel c.msg_handlers))

-- The clients behind the operations, on one that is open
abbrev subscribed_to : Bytes → Bytes → Handler → Handler → Client → Client
subscribed_to command channel m h c =
    record (post (Task.command (subscription_command command channel) h) c) {
      msg_handlers =
          c.msg_handlers ++ (record { channel = channel; id = c.subscribe_seq; handler = m }) ∷ [];
      state = subscribed;
      subscribe_seq = (c.subscribe_seq + 1) % 2 ^ 64;
    }

abbrev shot_at : Bytes → Bytes → Handler → Handler → Client → Client
shot_at command channel m h c =
    record (post (Task.command (subscription_command command channel) h) c) {
      single_shot = c.single_shot ++ (record { channel = channel; handler = m }) ∷ [];
      state = subscribed;
    }

abbrev unsubscribed_from : Bytes → Bytes → ℕ → Handler → Client → Client
unsubscribed_from command channel id h c =
    post (Task.command (subscription_command command channel) h)
      (record c { msg_handlers = erase_msg_handler channel id c.msg_handlers })

-- On an open client, for the map from channels to subscriptions and single shots that its
-- multimaps stand for: `subscribe` returns the next id and is the insertion of a subscription with
-- it behind the channel's others, `singleShotSubscribe` is the insertion of a single shot behind
-- the channel's others, and `unsubscribe` is the removal of the channel's subscriptions with the
-- id; no other channel changes.
pub subscriptions-registry :
    (env : Env) (command channel : Bytes) (m h : Handler) (id : ℕ) (c : Client)
    → is_open c ≡ true
    → ((d : Client) × (subscribe env command channel m h c ≡ returns c.subscribe_seq d)
        × (registry d ≡ insert channel c.subscribe_seq m (registry c)))
      × ((d : Client) × (single_shot_subscribe env command channel m h c ≡ returns tt d)
          × (registry d ≡ insert_shot channel m (registry c)))
      × ((d : Client) × (unsubscribe env command id channel h c ≡ returns tt d)
          × (registry d ≡ remove channel id (registry c)))
unfolding subscribe single_shot_subscribe unsubscribe
subscriptions-registry env command channel m h id c opened =
    let r = registry c in
    let entry : MsgHandler = record { channel = channel; id = c.subscribe_seq; handler = m } in
    let shot : SingleShot = record { channel = channel; handler = m } in
    (
      (
        subscribed_to command channel m h c,
        rw opened refl,
        ap (λ f. record r { subscriptions = f })
            (fun_ext (λ k. entries-snoc c.msg_handlers entry k)),
      ),
      (
        shot_at command channel m h c,
        rw opened refl,
        ap (λ f. record r { shots = f }) (fun_ext (λ k. shots_of-snoc c.single_shot shot k)),
      ),
      (
        unsubscribed_from command channel id h c,
        rw opened refl,
        ap (λ f. record r { subscriptions = f })
            (fun_ext (λ k. entries-erase channel id c.msg_handlers k)),
      ),
    )

-- While subscribed, a message of a channel is posted to the receivers that the map gives for it,
-- the oldest single shot of the channel and then its subscriptions, oldest first; the map loses
-- this single shot and nothing else.
pub delivery-registry :
    (env : Env) (channel payload : Bytes) (c : Client)
    → is_subscribed c.state ≡ true
    → (d : Client) × (do_process_message env (three (codes "message") channel payload) c
        ≡ returns tt d)
      × (d.posted ≡ c.posted ++ messages (receivers_of channel (registry c)) payload)
      × (registry d ≡ spend_shot channel (registry c))
delivery-registry env channel payload c subscribed_now =
    let r = registry c in
    (
      delivered channel payload c,
      (do_process_message-delivered env channel channel payload c subscribed_now).0,
      receivers-registry channel payload c,
      ap (λ f. record r { shots = f }) (fun_ext (λ k. shots_of-erase channel c.single_shot k)),
    )
