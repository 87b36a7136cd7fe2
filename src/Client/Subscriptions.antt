-- ===== src/Client/Subscriptions.antt =====
-- src/redisclient/impl/redisclientimpl.cpp: `subscribe`, `singleShotSubscribe` and `unsubscribe`.
pub mod Handles
pub mod Registry
pub mod Tests
use redisclient.Base.{
  ℕ, ◌+◌, ◌%◌, ◌^◌, Bool, true, false, ◌&&◌, ◌||◌, List, [], ◌∷◌, ◌++◌, ◌==◌, if◌then◌else◌, Bytes,
  codes,
}
use redisclient.Value.Equality.{equal_bytes}
use redisclient.Buffer.{from_string, make_command}
use redisclient.Client.{
  Client, Run, returns, ◌>>>◌, Env, Handler, MsgHandler, SingleShot, Task, post, report, subscribed,
  is_connected, is_subscribed, state_name,
}

-- `makeCommand(std::deque<RedisBuffer>{ command, channel })`
abbrev pub subscription_command : Bytes → Bytes → Bytes
subscription_command command channel = make_command (from_string command ∷ from_string channel ∷ [])

-- `state == State::Connected || state == State::Subscribed`
abbrev pub is_open : Client → Bool
is_open c = is_connected c.state || is_subscribed c.state

-- The error of a call in another state.
unfoldable pub invalid_state : Env → Bytes → Client → Run Unit
invalid_state env function c =
    report env
      (codes "RedisClientImpl::"
        ++ (function ++ (codes " called with invalid state " ++ state_name c.state)))
      c

-- `RedisClientImpl::subscribe`; `subscribeSeq` is a `size_t`.
unfoldable pub subscribe : Env → Bytes → Bytes → Handler → Handler → Client → Run ℕ
unfolding invalid_state
subscribe env command channel msg_handler handler c =
    if is_open c
    then (let posted = post (Task.command (subscription_command command channel) handler) c in
        let entry : MsgHandler = record {
          channel = channel;
          id = c.subscribe_seq;
          handler = msg_handler;
        } in
        returns c.subscribe_seq (record posted {
          msg_handlers = c.msg_handlers ++ entry ∷ [];
          state = subscribed;
          subscribe_seq = (c.subscribe_seq + 1) % 2 ^ 64;
        }))
    else invalid_state env (codes "subscribe") c >>> λ u d. returns 0 d

-- `RedisClientImpl::singleShotSubscribe`
unfoldable pub single_shot_subscribe : Env → Bytes → Bytes → Handler → Handler → Client → Run Unit
unfolding invalid_state
single_shot_subscribe env command channel msg_handler handler c =
    if is_open c
    then (let posted = post (Task.command (subscription_command command channel) handler) c in
        let entry : SingleShot = record { channel = channel; handler = msg_handler } in
        returns tt
          (record posted { single_shot = c.single_shot ++ entry ∷ []; state = subscribed }))
    else invalid_state env (codes "singleShotSubscribe") c

-- The loop over `equal_range(channel)`, which erases the entries with the id.
abbrev pub erase_msg_handler : Bytes → ℕ → List MsgHandler → List MsgHandler
erase_msg_handler channel id [] = []
erase_msg_handler channel id (m ∷ ms) =
    let rest = erase_msg_handler channel id ms in
    if equal_bytes m.channel channel && m.id == id then rest else m ∷ rest

-- `RedisClientImpl::unsubscribe`
unfoldable pub unsubscribe : Env → Bytes → ℕ → Bytes → Handler → Client → Run Unit
unfolding invalid_state
unsubscribe env command handle_id channel handler c =
    if is_open c
    then returns tt (
        post (Task.command (subscription_command command channel) handler)
          (record c { msg_handlers = erase_msg_handler channel handle_id c.msg_handlers }))
    else invalid_state env (codes "unsubscribe") c
