-- ===== src/SyncClient.antt =====
-- src/redisclient/redissyncclient.h, src/redisclient/impl/redissyncclient.cpp,
-- src/redisclient/pipeline.h and src/redisclient/impl/pipeline.cpp: the classes `RedisSyncClient` and
-- `Pipeline`, the user's side of the synchronous client; and src/redisclient/impl/throwerror.h.
--
-- The system's calls in `connect` are a parameter, as in Socket: what each of them answers. What
-- `setsockopt` and the like do to the socket itself is not modelled.
pub mod Connecting
pub mod Refusal
pub mod Late
pub mod Replies
pub mod Safety
pub mod Tests
use redisclient.Base.{
  ℕ, ◌*◌, Bool, true, false, not, ◌&&◌, ◌||◌, Option, none, some, List, [], ◌∷◌, ◌++◌, ◌==◌,
  if◌then◌else◌, Bytes, codes,
}
use redisclient.Value.{RedisValue, null_value}
use redisclient.Buffer.{RedisBuffer, from_string}
use redisclient.Client.{
  State, connected, Client, new_impl, Run, Env, ErrorCode, no_error, system, is_error_code, Handler,
  default_handler, installed, report, state_name, close, is_connected, is_subscribed, get_state,
}
use redisclient.Client.Sync.{
  Session, SyncRun, returns, throws, blocks, faults, with_client, behind_report, do_sync_command,
  do_sync_commands,
}
use redisclient.Socket.{Call, succeeds, fails, eintr}

-- The members of the class; durations are milliseconds.
pub record SyncClient : Type 0 where
  pub session : Session
  pub connect_timeout : ℕ
  pub command_timeout : ℕ
  pub tcp_no_delay : Bool
  pub tcp_keep_alive : Bool

-- `hours(365 * 24)`
abbrev year : ℕ
year = 365 * 24 * 60 * 60 * 1000

-- The constructor; what the system answers is given with it.
abbrev pub new_sync_client : Session → SyncClient
new_sync_client s = record {
  session = with_client s (record new_impl { error_handler = default_handler });
  connect_timeout = year;
  command_timeout = year;
  tcp_no_delay = true;
  tcp_keep_alive = false;
}

-- `setConnectTimeout`, `setCommandTimeout`, `setTcpNoDelay` and `setTcpKeepAlive`
abbrev pub set_connect_timeout : ℕ → SyncClient → SyncClient
set_connect_timeout timeout c = record c { connect_timeout = timeout }

abbrev pub set_command_timeout : ℕ → SyncClient → SyncClient
set_command_timeout timeout c = record c { command_timeout = timeout }

abbrev pub set_tcp_no_delay : Bool → SyncClient → SyncClient
set_tcp_no_delay enable c = record c { tcp_no_delay = enable }

abbrev pub set_tcp_keep_alive : Bool → SyncClient → SyncClient
set_tcp_keep_alive enable c = record c { tcp_keep_alive = enable }

-- `state`, `isConnected`, `disconnect` and `installErrorHandler`
abbrev pub state : Session → State
state s = get_state s.client

unfoldable pub is_connected_now : Session → Bool
is_connected_now s = is_connected (get_state s.client) || is_subscribed (get_state s.client)

abbrev pub disconnect : Session → Session
disconnect s = with_client s (close s.client)

abbrev pub install_error_handler : Handler → Session → Session
install_error_handler handler s =
    with_client s (record s.client { error_handler = installed handler })

-- The error branch of `stateValid`, and behind it `return RedisValue();`
invalid_state : Env → ErrorCode → Session → SyncRun RedisValue
invalid_state env ec s =
    behind_report
      (report env
        (codes "RedisClient::command called with invalid state " ++ state_name s.client.state)
        s.client)
      ec s

-- `if(stateValid()) { … } else { return RedisValue(); }`
unfoldable pub if_valid : Env → ErrorCode → Session → SyncRun RedisValue → SyncRun RedisValue
unfolding invalid_state
if_valid env ec s run = if is_connected s.client.state then run else invalid_state env ec s

-- `command` with an error code
unfoldable pub command_ec :
    Env → Bytes → List RedisBuffer → ErrorCode → Session → SyncRun RedisValue
unfolding if_valid
command_ec env cmd args ec s = if_valid env ec s (do_sync_command env (from_string cmd ∷ args) ec s)

-- `pipelined` with an error code
unfoldable pub pipelined_ec :
    Env → List (List RedisBuffer) → ErrorCode → Session → SyncRun RedisValue
unfolding if_valid
pipelined_ec env commands ec s = if_valid env ec s (do_sync_commands env commands ec s)

-- `detail::throwIfError` behind a call, with `detail::throwError`: the exception has the code's text.
unfoldable pub throw_if_error : Env → SyncRun RedisValue → SyncRun RedisValue
throw_if_error env (returns v ec s) =
    if is_error_code ec then throws (env.error_text ec) s else returns v ec s
throw_if_error env (throws text s) = throws text s
throw_if_error env blocks = blocks
throw_if_error env faults = faults

-- `command` and `pipelined` without an error code
unfoldable pub command : Env → Bytes → List RedisBuffer → Session → SyncRun RedisValue
command env cmd args s = throw_if_error env (command_ec env cmd args no_error s)

unfoldable pub pipelined : Env → List (List RedisBuffer) → Session → SyncRun RedisValue
pipelined env commands s = throw_if_error env (pipelined_ec env commands no_error s)

-- `Pipeline`: its commands, and `Pipeline::command`
abbrev pub Pipeline : Type 0
Pipeline = List (List RedisBuffer)

abbrev pub new_pipeline : Pipeline
new_pipeline = []

abbrev pub add_command : Bytes → List RedisBuffer → Pipeline → Pipeline
add_command cmd args commands = commands ++ (from_string cmd ∷ args) ∷ []

-- `Pipeline::finish`, without and with an error code
unfoldable pub finish : Env → Pipeline → Session → SyncRun RedisValue
finish env commands s = pipelined env commands s

unfoldable pub finish_ec : Env → Pipeline → ErrorCode → Session → SyncRun RedisValue
finish_ec env commands ec s = pipelined_ec env commands ec s
