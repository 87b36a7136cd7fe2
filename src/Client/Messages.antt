-- ===== src/Client/Messages.antt =====
-- src/redisclient/impl/redisclientimpl.cpp: `doProcessMessage`, `asyncRead` and
-- `handleAsyncConnect`, what the client does with the bytes that come in.
pub mod Dispatch
pub mod Delivery
pub mod Wire
pub mod Safety
pub mod Effects
pub mod Chunks
use redisclient.Base.{
  ℕ, zero, suc, ◌+◌, Bool, true, false, not, ◌&&◌, ◌||◌, Option, none, some, List, [], ◌∷◌, ◌++◌,
  ◌==◌, leb, if◌then◌else◌, ◌>>=◌, length, drop, Bytes, codes,
}
use redisclient.Value.{RedisValue, Values, to_array, to_string, to_byte_array, size, get_elem?}
use redisclient.Value.Inspect.{inspect}
use redisclient.Value.Equality.{equal_bytes}
use redisclient.Parser.{ParseResult, completed, incompleted, error, is_empty}
use redisclient.Parser.Loop.{Parsed, parse, result_of}
use redisclient.Client.{
  Client, Run, returns, throws, ◌>>>◌, Env, ErrorCode, no_error, operation_aborted, is_error_code,
  Handler, MsgHandler, SingleShot, Task, report, does, post, process_message, sets_no_delay,
  connected, unconnected, is_subscribed,
}

-- `handlers.pop()`, of an empty queue undefined
pop_front : List Handler → Client → Run Unit
pop_front [] c = Run.faults
pop_front (h ∷ hs) c = returns tt (record c { handlers = hs })

-- `handlers.front()(std::move(v)); handlers.pop();`
call_front : Env → RedisValue → List Handler → Client → Run Unit
call_front env v [] c = Run.faults
call_front env v (h ∷ hs) c = env.on_reply h v c >>> λ u d. pop_front d.handlers d

-- `singleShotMsgHandlers.find(channel)`: the handlers of the entry found
abbrev pub find_single_shot : Bytes → List SingleShot → List Handler
find_single_shot channel [] = []
find_single_shot channel (s ∷ ss) =
    let found = find_single_shot channel ss in
    if equal_bytes s.channel channel then s.handler ∷ [] else found

-- `singleShotMsgHandlers.erase(it)`, for the entry found
abbrev pub erase_single_shot : Bytes → List SingleShot → List SingleShot
erase_single_shot channel [] = []
erase_single_shot channel (s ∷ ss) =
    let erased = erase_single_shot channel ss in
    if equal_bytes s.channel channel then ss else s ∷ erased

-- `msgHandlers.equal_range(channel)`
abbrev pub equal_range : Bytes → List MsgHandler → List Handler
equal_range channel [] = []
equal_range channel (m ∷ ms) =
    let found = equal_range channel ms in
    if equal_bytes m.channel channel then m.handler ∷ found else found

-- `strand.post(std::bind(handler, payload))` for each handler
abbrev pub post_all : List Handler → Bytes → Client → Client
post_all [] payload c = c
post_all (h ∷ hs) payload c = post_all hs payload (post (Task.message h payload) c)

-- The branch of "message" and "pmessage".
unfoldable pub publish : Bytes → Bytes → Client → Client
publish channel payload c =
    let once = post_all (find_single_shot channel c.single_shot) payload c in
    let erased = record once { single_shot = erase_single_shot channel c.single_shot } in
    post_all (equal_range channel c.msg_handlers) payload erased

-- The four references into `result`, for its size of 3, of 4, or above.
pub record Fields : Type 0 where
  pub command : RedisValue
  pub queue_name : RedisValue
  pub value : RedisValue
  pub pattern : RedisValue

unfoldable pub fields : Values → Option Fields
fields result = get_elem? result 0 >>= λ command.
    get_elem? result (if size result == 3 then 1 else 2) >>= λ queue_name.
    get_elem? result (if size result == 3 then 2 else 3) >>= λ value.
    (if size result == 4 then get_elem? result 1 else some queue_name) >>= λ pattern.
    some (record { command = command; queue_name = queue_name; value = value; pattern = pattern })

abbrev pub is_message : Bytes → Bool
is_message cmd = equal_bytes cmd (codes "message") || equal_bytes cmd (codes "pmessage")

abbrev pub is_subscription : Bytes → Bool
is_subscription cmd =
    equal_bytes cmd (codes "subscribe")
    || equal_bytes cmd (codes "unsubscribe")
    || equal_bytes cmd (codes "psubscribe")
    || equal_bytes cmd (codes "punsubscribe")

-- The chain of `if` on `cmd`.
dispatch : Env → RedisValue → Fields → Client → Run Unit
unfolding call_front publish
dispatch env v f c =
    let cmd = to_string f.command in
    if is_message cmd
    then returns tt (publish (to_string f.pattern) (to_byte_array f.value) c)
    else if not (is_empty c.handlers) && is_subscription cmd
    then call_front env v c.handlers c
    else report env (codes "[RedisClient] invalid command: " ++ to_string f.command) c

-- `none` is a read out of the bounds of `result`.
dispatch_fields : Env → RedisValue → Option Fields → Client → Run Unit
dispatch_fields env v none c = Run.faults
dispatch_fields env v (some f) c = dispatch env v f c

-- `RedisClientImpl::doProcessMessage`
unfoldable pub do_process_message : Env → RedisValue → Client → Run Unit
unfolding dispatch_fields dispatch call_front pop_front
do_process_message env v c =
    if is_subscribed c.state
    then (if leb 3 (size (to_array v))
        then dispatch_fields env v (fields (to_array v)) c
        else report env (codes "[RedisClient] Protocol error") c)
    else if not (is_empty c.handlers)
    then call_front env v c.handlers c
    else report env (codes "[RedisClient] unexpected message: " ++ inspect v) c

-- The rest of a round of the loop in `asyncRead`; `next` is the loop from the new position on.
unfoldable pub read_parsed : Env → Parsed → Client → (Client → Run Unit) → Run Unit
read_parsed env r c next =
    let parsed = record c { redis_parser = r.parser } in
    elim r.result [
      | completed ↦ do_process_message env (result_of r.parser) parsed >>> λ u d. next d
      | incompleted ↦ returns tt (process_message parsed)
      | error ↦ report env (codes "[RedisClient] Parser error") parsed
    ]

-- A round of the loop; undefined behaviour of `parse` is the client's.
unfoldable pub read_round : Env → Option Parsed → Client → (ℕ → Client → Run Unit) → Run Unit
read_round env none c next = Run.faults
read_round env (some r) c next = read_parsed env r c (next r.position)

-- `for(size_t pos = 0; pos < size;)`, over the bytes from `pos` on, and the `processMessage` behind
-- it. A round reads a byte, so the number of bytes is enough fuel.
unfoldable pub read_messages : ℕ → Env → Bytes → Client → Run Unit
read_messages fuel env [] c = returns tt (process_message c)
read_messages zero env (b ∷ bytes) c = Run.faults
read_messages (suc fuel) env (b ∷ bytes) c =
    read_round env (parse c.redis_parser (b ∷ bytes)) c
      (λ position d. read_messages fuel env (drop position (b ∷ bytes)) d)

abbrev is_aborted : ErrorCode → Bool
is_aborted operation_aborted = true
is_aborted _ = false

-- `RedisClientImpl::asyncRead`, with the bytes that have been read into `buf`
unfoldable pub async_read : Env → ErrorCode → Bytes → Client → Run Unit
unfolding read_messages
async_read env ec bytes c =
    if is_error_code ec || is_empty bytes
    then (if not (is_aborted ec) then report env (env.error_text ec) c else returns tt c)
    else read_messages (length bytes) env bytes c

-- `RedisClientImpl::handleAsyncConnect`
unfoldable pub handle_async_connect : Env → ErrorCode → Handler → Client → Run Unit
handle_async_connect env ec handler c =
    if not (is_error_code ec)
    then (env.on_connect handler ec (record (does sets_no_delay c) { state = connected }) >>> λ u d.
        returns tt (process_message d))
    else env.on_connect handler ec (record c { state = unconnected })
