-- ===== src/Client/Messages/Dispatch.antt =====
-- What `doProcessMessage` does with a reply and with a message of a subscription.
use redisclient.Base.{◌≡◌, false, List, [], ◌∷◌, arith}
use redisclient.Value.{RedisValue}
use redisclient.Client.{Client, Run, returns, Env, Handler, is_subscribed}
use redisclient.Client.Messages.{do_process_message, call_front, pop_front}

-- Outside subscriptions a reply is the front handler's, which is popped.
pub do_process_message-answers :
    (env : Env) (h g : Handler) (hs gs : List Handler) (v : RedisValue) (d q : Client)
    → is_subscribed d.state ≡ false
    → d.handlers ≡ h ∷ hs
    → env.on_reply h v d ≡ returns tt q
    → q.handlers ≡ g ∷ gs
    → do_process_message env v d ≡ returns tt (record q { handlers = gs })
unfolding do_process_message call_front pop_front
do_process_message-answers env h g hs gs v d q plain front ran back = ground arith

-- The same, with the queue that the user's function leaves emptied.
pub do_process_message-pops :
    (env : Env) (h : Handler) (hs : List Handler) (v : RedisValue) (d q : Client)
    → is_subscribed d.state ≡ false
    → d.handlers ≡ h ∷ hs
    → env.on_reply h v d ≡ returns tt q
    → q.handlers ≡ []
    → do_process_message env v d ≡ Run.faults
unfolding do_process_message call_front pop_front
do_process_message-pops env h hs v d q plain front ran empty = ground arith
