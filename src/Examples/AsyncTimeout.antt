-- ===== src/Examples/AsyncTimeout.antt =====
-- examples/async_timeout.cpp: GET of one key, again and again, with a timer of three seconds for each
-- reply and for each connection. What is printed is left out, and so is the second of sleep. The
-- timer is a parameter: what its end does is a script, which comes among the events.
pub mod Run
pub mod Rounds
pub mod Tests
use redisclient.Base.{if◌then◌else◌, List, [], ◌∷◌, Bytes, codes}
use redisclient.Buffer.{RedisBuffer, from_string}
use redisclient.Client.{ErrorCode, is_error_code, Handler}
use redisclient.AsyncClient.Scripts.{Script, stops, calls, connects, disconnects, commands, Program}

-- `redisKey`, as the argument of the command
abbrev pub timed_args : List RedisBuffer
timed_args = from_string (codes "unique-redis-key-example") ∷ []

-- The names of the functions `onConnect` and `onGet`
abbrev pub on_connected : Handler
on_connected = 1

abbrev pub on_got : Handler
on_got = 2

-- `Worker::get`
abbrev pub get_script : Script
get_script = calls (commands (codes "GET") timed_args on_got) stops

-- `Worker::onConnect`
abbrev connected_script : ErrorCode → Script
connected_script ec = if is_error_code ec then stops else get_script

-- `Worker::run`; the endpoint is a port.
abbrev pub run_worker : Script
run_worker = calls (connects 6379 on_connected) stops

-- `Worker::onTimeout`; a timer that is cancelled ends with an error.
abbrev pub on_timeout_script : ErrorCode → Script
on_timeout_script ec = if is_error_code ec then stops else calls disconnects run_worker

-- The class `Worker`, with the texts of the error codes; `onGet` is `get`.
abbrev pub timed_worker : (ErrorCode → Bytes) → Program
timed_worker texts = record {
  reply_script = λ h v. get_script;
  message_script = λ h payload. stops;
  connect_script = λ h ec. connected_script ec;
  error_script = λ h s. stops;
  text_of = texts;
}
