-- ===== src/Client/Messages/Delivery.antt =====
-- Who gets a message: `subscribe` and `singleShotSubscribe`, and `doProcessMessage` of a message.
use redisclient.Base.{
  ◌≡◌, refl, ap, sym, ◌∙◌, true, List, [], ◌∷◌, ◌++◌, map, append_assoc, append-nil, Bytes, codes,
}
use redisclient.Value.{
  nil, cons, RedisValue, bytes_value, array_value, to_array, to_string, to_byte_array,
}
use redisclient.Client.{Client, returns, Env, Handler, Task, is_subscribed}
use redisclient.Client.Messages.{
  do_process_message, fields, publish, post_all, find_single_shot, erase_single_shot, equal_range,
}

-- The tasks that hand the payload to each of the handlers.
abbrev pub messages : List Handler → Bytes → List Task
messages hs payload = map (λ h. Task.message h payload) hs

-- The handlers of a channel (or a pattern): of the single shots the first, then all the others.
abbrev pub receivers : Bytes → Client → List Handler
receivers channel c = find_single_shot channel c.single_shot ++ equal_range channel c.msg_handlers

messages-append :
    (xs ys : List Handler) (payload : Bytes)
    → messages (xs ++ ys) payload ≡ messages xs payload ++ messages ys payload
messages-append [] ys payload = refl
messages-append (x ∷ xs) ys payload =
    ap (◌∷◌ (Task.message x payload)) (messages-append xs ys payload)

post_all-messages :
    (hs : List Handler) (payload : Bytes) (c : Client)
    → post_all hs payload c ≡ record c { posted = c.posted ++ messages hs payload }
post_all-messages [] payload c = ap (λ l. record c { posted = l }) (sym (append-nil c.posted))
post_all-messages (h ∷ hs) payload c =
    post_all-messages hs payload _
    ∙ ap (λ l. record c { posted = l })
        (append_assoc c.posted (Task.message h payload ∷ []) (messages hs payload))

-- The client behind the delivery of a message.
abbrev pub delivered : Bytes → Bytes → Client → Client
delivered channel payload c = record c {
  posted = c.posted ++ messages (receivers channel c) payload;
  single_shot = erase_single_shot channel c.single_shot;
}

publish-delivered :
    (channel payload : Bytes) (c : Client) → publish channel payload c ≡ delivered channel payload c
unfolding publish
publish-delivered channel payload c =
    let once = find_single_shot channel c.single_shot in
    let others = equal_range channel c.msg_handlers in
    let left = erase_single_shot channel c.single_shot in
    ap (λ d. post_all others payload (record d { single_shot = left }))
      (post_all-messages once payload c)
    ∙ post_all-messages others payload _
    ∙ ap (λ l. record c { posted = l; single_shot = left })
        (append_assoc c.posted (messages once payload) (messages others payload)
          ∙ ap (λ l. c.posted ++ l) (sym (messages-append once others payload)))

abbrev pub three : Bytes → Bytes → Bytes → RedisValue
three a b p = array_value (cons (bytes_value a) (cons (bytes_value b) (cons (bytes_value p) nil)))

abbrev pub four : Bytes → Bytes → Bytes → Bytes → RedisValue
four a b d p =
    array_value (
      cons (bytes_value a) (cons (bytes_value b) (cons (bytes_value d) (cons (bytes_value p) nil))))

pub do_process_message-delivered :
    (env : Env) (channel pattern payload : Bytes) (c : Client)
    → is_subscribed c.state ≡ true
    → (do_process_message env (three (codes "message") channel payload) c
        ≡ returns tt (delivered channel payload c))
      × (do_process_message env (four (codes "pmessage") pattern channel payload) c
          ≡ returns tt (delivered pattern payload c))
unfolding do_process_message to_array to_string to_byte_array fields
do_process_message-delivered env channel pattern payload c h = (
  rw h (ap (returns tt) (publish-delivered channel payload c)),
  rw h (ap (returns tt) (publish-delivered pattern payload c)),
)
