-- ===== src/Examples/AsyncSetGet.antt =====
-- examples/async_set_get.cpp and examples/async_set_get2.cpp: SET, GET and DEL of one key, each
-- given by the handler of the reply before it. What they print is left out, and `ioService.stop()`
-- in the last handler is the end of the events.
pub mod Run
pub mod Tests
use redisclient.Base.{ℕ, ◌==◌, if◌then◌else◌, List, [], ◌∷◌, Bytes, codes}
use redisclient.Value.{RedisValue, to_string}
use redisclient.Value.Equality.{equal_bytes}
use redisclient.Buffer.{RedisBuffer, from_string}
use redisclient.Client.{ErrorCode, is_error_code, Handler}
use redisclient.AsyncClient.Scripts.{Script, stops, calls, connects, commands, Program}

-- `redisKey` and `redisValue`
abbrev pub redis_key : Bytes
redis_key = codes "unique-redis-key-example"

abbrev pub redis_value : Bytes
redis_value = codes "unique-redis-value"

-- The names of the functions: `onConnect`, `onSet`, `onGet`, and that of the last reply.
abbrev pub on_connect : Handler
on_connect = 1

abbrev pub on_set : Handler
on_set = 2

abbrev pub on_get : Handler
on_get = 3

abbrev pub on_del : Handler
on_del = 4

abbrev pub key_arg : List RedisBuffer
key_arg = from_string redis_key ∷ []

abbrev pub set_args : List RedisBuffer
set_args = from_string redis_key ∷ from_string redis_value ∷ []

-- `Worker::onConnect`
abbrev on_connect_script : ErrorCode → Script
on_connect_script ec =
    if is_error_code ec then stops else calls (commands (codes "SET") set_args on_set) stops

-- `Worker::onSet`
abbrev on_set_script : RedisValue → Script
on_set_script v =
    if equal_bytes (to_string v) (codes "OK")
    then calls (commands (codes "GET") key_arg on_get) stops
    else stops

-- `Worker::onGet`
abbrev on_get_script : RedisValue → Script
on_get_script v = calls (commands (codes "DEL") key_arg on_del) stops

abbrev worker_reply : Handler → RedisValue → Script
worker_reply h v =
    if h == on_set then on_set_script v else if h == on_get then on_get_script v else stops

-- The class `Worker` of async_set_get.cpp, with the texts of the error codes
abbrev pub worker : (ErrorCode → Bytes) → Program
worker texts = record {
  reply_script = worker_reply;
  message_script = λ h payload. stops;
  connect_script = λ h ec. on_connect_script ec;
  error_script = λ h s. stops;
  text_of = texts;
}

-- `main`, until the events come; the endpoint is a port.
abbrev pub main_script : Script
main_script = calls (connects 6379 on_connect) stops

-- async_set_get2.cpp: the functions are lambdas in `handleConnected`, and the value is not looked at.
abbrev nested_reply : Handler → RedisValue → Script
nested_reply h v =
    if h == on_set
    then calls (commands (codes "GET") key_arg on_get) stops
    else if h == on_get
    then calls (commands (codes "DEL") key_arg on_del) stops
    else stops

abbrev pub nested : (ErrorCode → Bytes) → Program
nested texts = record {
  reply_script = nested_reply;
  message_script = λ h payload. stops;
  connect_script = λ h ec. on_connect_script ec;
  error_script = λ h s. stops;
  text_of = texts;
}
