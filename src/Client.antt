-- ===== src/Client.antt =====
-- src/redisclient/impl/redisclientimpl.h and src/redisclient/impl/redisclientimpl.cpp: the class
-- `RedisClientImpl`, its state and the calls that leave it. Its operations are in the children:
-- Client.Queue (what is sent), Client.Messages (what is received), Client.Subscriptions.
--
-- A call of the client is run on its state. A `std::function` is a name (`Handler`), and what the
-- user's functions do, to the client too, is the record `Env`, a parameter of the operations. What
-- a call starts outside the client is recorded: the tasks posted to the strand (`posted`) and the
-- calls of the socket (`io`), both with the oldest first. Time and threads are those of the caller:
-- the strand runs one task after the other. Assertions are not run (NDEBUG).
pub mod Queue
pub mod Messages
pub mod Moves
pub mod Subscriptions
pub mod Sync
pub mod Tests
use redisclient.Base.{
  ℕ, zero, Bool, true, false, Option, none, some, List, [], ◌∷◌, ◌++◌, Bytes, codes,
}
use redisclient.Value.{RedisValue, to_string}
use redisclient.Parser.{RedisParser, new_parser}

-- `RedisClientImpl::State`
pub data State : Type 0 where
  unconnected connecting connected subscribed closed : State

-- `to_string(RedisClientImpl::State)`
unfoldable pub state_name : State → Bytes
state_name unconnected = codes "Unconnected"
state_name connecting = codes "Connecting"
state_name connected = codes "Connected"
state_name subscribed = codes "Subscribed"
state_name closed = codes "Closed"

-- boost::system::error_code
pub data ErrorCode : Type 0 where
  no_error operation_aborted eof : ErrorCode
  system : ℕ → ErrorCode

abbrev pub is_error_code : ErrorCode → Bool
is_error_code no_error = false
is_error_code _ = true

abbrev pub Handler : Type 0
Handler = ℕ

-- `errorHandler`: an empty function, `defaulErrorHandler`, or the user's.
pub data ErrorHandler : Type 0 where
  unset default_handler : ErrorHandler
  installed : Handler → ErrorHandler

-- An entry of `msgHandlers`, and one of `singleShotMsgHandlers`. A multimap is the list of its
-- entries in the order of their insertion, in which `equal_range` gives those of one key.
pub record MsgHandler : Type 0 where
  pub channel : Bytes
  pub id : ℕ
  pub handler : Handler

pub record SingleShot : Type 0 where
  pub channel : Bytes
  pub handler : Handler

-- What the strand is to run: a message's handler, or `doAsyncCommand`.
pub data Task : Type 0 where
  message : Handler → Bytes → Task
  command : Bytes → Handler → Task

-- The calls of the socket.
pub data Io : Type 0 where
  connects : ℕ → Io
  sets_no_delay starts_read cancels shuts_down closes : Io
  starts_write : List Bytes → Io

pub record Client : Type 0 where
  pub redis_parser : RedisParser
  pub buf : Bytes
  pub subscribe_seq : ℕ
  pub handlers : List Handler
  pub data_writed : List Bytes
  pub data_queued : List Bytes
  pub msg_handlers : List MsgHandler
  pub single_shot : List SingleShot
  pub error_handler : ErrorHandler
  pub state : State
  pub posted : List Task
  pub io : List Io

-- The constructor. `buf` holds the `bufSize` bytes that a synchronous read has left.
abbrev pub new_impl : Client
new_impl = record {
  redis_parser = new_parser;
  buf = [];
  subscribe_seq = 0;
  handlers = [];
  data_writed = [];
  data_queued = [];
  msg_handlers = [];
  single_shot = [];
  error_handler = unset;
  state = unconnected;
  posted = [];
  io = [];
}

-- How a call ends: by a return, by an exception with its text, or in undefined behaviour.
pub data Run (A : Type 0) : Type 0 where
  returns : A → Client → Run A
  throws : Bytes → Client → Run A
  faults : Run A

infixl 4 ◌>>>◌
abbrev pub ◌>>>◌ : {A B : Type 0} → Run A → (A → Client → Run B) → Run B
returns a c >>> f = f a c
throws s c >>> f = throws s c
faults >>> f = faults

-- A call has no undefined behaviour, and what it leaves fits `P`, by a return or an exception.
abbrev pub Ends : {A : Type 0} → (Client → Type 0) → Run A → Type 0
Ends P (returns a c) = P c
Ends P (throws s c) = P c
Ends P faults = ⊥

-- What the user's functions do, each run to its end, and the texts of the error codes.
pub record Env : Type 0 where
  pub on_reply : Handler → RedisValue → Client → Run Unit
  pub on_message : Handler → Bytes → Client → Run Unit
  pub on_connect : Handler → ErrorCode → Client → Run Unit
  pub on_error : Handler → Bytes → Client → Run Unit
  pub error_text : ErrorCode → Bytes

-- `RedisClientImpl::defaulErrorHandler`
abbrev pub default_error_handler : Bytes → Client → Run Unit
default_error_handler s c = throws s c

-- A call of `errorHandler`; that of an empty function throws.
abbrev pub call_error_handler : Env → ErrorHandler → Bytes → Client → Run Unit
call_error_handler env unset s c = throws (codes "bad_function_call") c
call_error_handler env default_handler s c = default_error_handler s c
call_error_handler env (installed h) s c = env.on_error h s c

unfoldable pub report : Env → Bytes → Client → Run Unit
report env s c = call_error_handler env c.error_handler s c

-- `RedisClientImpl::onRedisError`
unfoldable pub on_redis_error : Env → RedisValue → Client → Run Unit
on_redis_error env v c = report env (to_string v) c

pub Ends->>> :
    {A B : Type 0} (P Q : Client → Type 0) (m : Run A) (f : A → Client → Run B)
    → Ends P m
    → ((d : Client) → P d → Q d)
    → ((a : A) (d : Client) → P d → Ends Q (f a d))
    → Ends Q (m >>> f)
Ends->>> P Q (returns a d) f h w k = k a d h
Ends->>> P Q (throws s d) f h w k = w d h
Ends->>> P Q faults f h w k = absurd h

-- A call of the socket.
abbrev pub does : Io → Client → Client
does i c = record c { io = c.io ++ i ∷ [] }

-- `RedisClientImpl::post`
abbrev pub post : Task → Client → Client
post t c = record c { posted = c.posted ++ t ∷ [] }

-- `RedisClientImpl::processMessage`
abbrev pub process_message : Client → Client
process_message c = does starts_read c

-- `RedisClientImpl::getState`
abbrev pub get_state : Client → State
get_state c = c.state

-- `RedisClientImpl::close`
unfoldable pub close : Client → Client
close c =
    let cleared = record c { msg_handlers = []; handlers = [] } in
    record (does closes (does shuts_down (does cancels cleared))) { state = closed }

abbrev pub is_subscribed : State → Bool
is_subscribed subscribed = true
is_subscribed _ = false

abbrev pub is_connected : State → Bool
is_connected connected = true
is_connected _ = false
