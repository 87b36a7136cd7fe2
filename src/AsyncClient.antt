-- ===== src/AsyncClient.antt =====
-- src/redisclient/redisasyncclient.h and src/redisclient/impl/redisasyncclient.cpp: the class
-- `RedisAsyncClient`, the user's side of the asynchronous client. Its one member `pimpl` is the
-- client that the functions are given; an endpoint is a number.
pub mod Reconnect
pub mod Requests
pub mod Scripts
pub mod Trace
pub mod Tests
use redisclient.Base.{ℕ, Bool, true, false, ◌||◌, List, [], ◌∷◌, ◌++◌, if◌then◌else◌, Bytes, codes}
use redisclient.Value.{RedisValue}
use redisclient.Parser.{new_parser}
use redisclient.Buffer.{RedisBuffer, from_string, make_command}
use redisclient.Client.{
  State, unconnected, connecting, connected, subscribed, closed, Client, new_impl, Run, returns,
  ◌>>>◌, Env, ErrorCode, no_error, Handler, ErrorHandler, default_handler, installed, Task,
  connects, does, post, report, state_name, close, get_state, is_connected, is_subscribed,
}
use redisclient.Client.Subscriptions.{subscribe, single_shot_subscribe, unsubscribe}

-- `RedisAsyncClient::Handle`
pub record Handle : Type 0 where
  pub id : ℕ
  pub channel : Bytes

-- `dummyHandler`
abbrev pub dummy_handler : Handler
dummy_handler = 0

-- The constructor, and the destructor.
abbrev pub new_client : Client
new_client = record new_impl { error_handler = default_handler }

abbrev pub destroy : Client → Client
destroy c = close c

abbrev is_closed : State → Bool
is_closed closed = true
is_closed _ = false

abbrev is_unconnected : State → Bool
is_unconnected unconnected = true
is_unconnected _ = false

-- The second `if` of both overloads of `connect`
start_connect : Env → ℕ → Handler → Client → Run Unit
start_connect env endpoint handler c =
    if is_unconnected c.state || is_closed c.state
    then returns tt (does (connects endpoint) (record c { state = connecting }))
    else env.on_connect handler no_error c

-- `connect` to a TCP endpoint
unfoldable pub connect : Env → ℕ → Handler → Client → Run Unit
unfolding start_connect
connect env endpoint handler c =
    let fresh = if is_closed c.state then record c { redis_parser = new_parser } else c in
    start_connect env endpoint handler fresh

-- `connect` to a local socket
unfoldable pub connect_local : Env → ℕ → Handler → Client → Run Unit
unfolding start_connect
connect_local env endpoint handler c = start_connect env endpoint handler c

-- `isConnected`
unfoldable pub is_connected_now : Client → Bool
is_connected_now c = is_connected (get_state c) || is_subscribed (get_state c)

-- `disconnect`
abbrev pub disconnect : Client → Client
disconnect c = close c

-- `installErrorHandler`
abbrev pub install_error_handler : Handler → Client → Client
install_error_handler handler c = record c { error_handler = installed handler }

-- The error of `stateValid` and of `publish`.
unfoldable pub invalid_state : Env → Client → Run Unit
invalid_state env c =
    report env (codes "RedisAsyncClient::command called with invalid state " ++ state_name c.state)
      c

-- `stateValid`
unfoldable pub state_valid : Env → Client → Run Bool
unfolding invalid_state
state_valid env c =
    if is_connected c.state then returns true c else invalid_state env c >>> λ u d. returns false d

-- `command`
unfoldable pub command : Env → Bytes → List RedisBuffer → Handler → Client → Run Unit
unfolding state_valid
command env cmd args handler c = state_valid env c >>> λ valid d.
    if valid
    then returns tt (post (Task.command (make_command (from_string cmd ∷ args)) handler) d)
    else returns tt d

unfoldable pub subscribe_channel : Env → Bytes → Handler → Handler → Client → Run Handle
subscribe_channel env channel msg_handler handler c =
    subscribe env (codes "subscribe") channel msg_handler handler c >>> λ id d.
    returns (record { id = id; channel = channel }) d

-- `psubscribe`
unfoldable pub psubscribe : Env → Bytes → Handler → Handler → Client → Run Handle
psubscribe env pattern msg_handler handler c =
    subscribe env (codes "psubscribe") pattern msg_handler handler c >>> λ id d.
    returns (record { id = id; channel = pattern }) d

unfoldable pub unsubscribe_handle : Env → Handle → Client → Run Unit
unsubscribe_handle env handle c =
    unsubscribe env (codes "unsubscribe") handle.id handle.channel dummy_handler c

-- `punsubscribe`
unfoldable pub punsubscribe : Env → Handle → Client → Run Unit
punsubscribe env handle c =
    unsubscribe env (codes "punsubscribe") handle.id handle.channel dummy_handler c

unfoldable pub single_shot_channel : Env → Bytes → Handler → Handler → Client → Run Unit
single_shot_channel env channel msg_handler handler c =
    single_shot_subscribe env (codes "subscribe") channel msg_handler handler c

-- `singleShotPSubscribe`
unfoldable pub single_shot_psubscribe : Env → Bytes → Handler → Handler → Client → Run Unit
single_shot_psubscribe env pattern msg_handler handler c =
    single_shot_subscribe env (codes "psubscribe") pattern msg_handler handler c

-- `publish`
unfoldable pub publish_message : Env → Bytes → RedisBuffer → Handler → Client → Run Unit
unfolding invalid_state
publish_message env channel msg handler c =
    let items = from_string (codes "PUBLISH") ∷ from_string channel ∷ msg ∷ [] in
    if is_connected c.state
    then returns tt (post (Task.command (make_command items) handler) c)
    else invalid_state env c

-- `state`
abbrev pub state_of : Client → State
state_of c = get_state c
