-- ===== src/Client/Sync.antt =====
-- src/redisclient/impl/redisclientimpl.cpp: `syncReadResponse` and both overloads of
-- `doSyncCommand`, the synchronous use of the client.
--
-- A session is the client with what the system still answers and what has been sent. Timeouts are
-- the system's answers (see Socket).
pub mod Cut
pub mod Rounds
pub mod Response
pub mod Reply
pub mod Safety
pub mod Late
use redisclient.Base.{
  ℕ, zero, suc, ◌+◌, ◌-◌, Bool, true, false, Option, none, some, List, [], ◌∷◌, ◌++◌, leb,
  if◌then◌else◌, length, drop, map, Bytes, codes,
}
use redisclient.Value.{RedisValue, Values, null_value, array_value, nil, push_back}
use redisclient.Parser.{is_empty, ParseResult, completed, incompleted, error}
use redisclient.Parser.Loop.{Parsed, parse, result_of}
use redisclient.Buffer.{RedisBuffer, make_command}
use redisclient.Client.{Client, Run, Env, ErrorCode, no_error, is_error_code, report}
use redisclient.Socket.{
  ReadRound, WriteRound, ReadSome, socket_read_some, Written, write_buffers, socket_write,
}

pub record Session : Type 0 where
  pub client : Client
  pub reads : List ReadRound
  pub writes : List WriteRound
  pub wire : Bytes

-- How a synchronous call ends: by a return, with the error code that it leaves, by an exception,
-- never (the system does not answer), or in undefined behaviour.
pub data SyncRun (A : Type 0) : Type 0 where
  returns : A → ErrorCode → Session → SyncRun A
  throws : Bytes → Session → SyncRun A
  blocks faults : SyncRun A

abbrev pub with_client : Session → Client → Session
with_client s c = record s { client = c }

-- Behind a call of `errorHandler`: `return RedisValue();`
abbrev pub behind_report : Run Unit → ErrorCode → Session → SyncRun RedisValue
behind_report (Run.returns u c) ec s = returns null_value ec (with_client s c)
behind_report (Run.throws text c) ec s = throws text (with_client s c)
behind_report Run.faults ec s = faults

-- The size of `buf`
abbrev pub buf_size : ℕ
buf_size = 4096

-- `if (bufSize == 0)` and its block; `next` is the loop over the buffer.
abbrev filled :
    Option ReadSome → Session → (ErrorCode → Session → SyncRun RedisValue) → SyncRun RedisValue
filled none s next = blocks
filled (some r) s next =
    let t = record s { client = record s.client { buf = r.bytes }; reads = r.rounds } in
    if is_error_code r.ec then returns null_value r.ec t else next r.ec t

abbrev fill : ErrorCode → Session → (ErrorCode → Session → SyncRun RedisValue) → SyncRun RedisValue
fill ec s next =
    if is_empty s.client.buf
    then filled (socket_read_some s.reads buf_size ec) s next
    else next ec s

-- A round of the loop over the buffer: `buf` holds `bufSize` bytes, and `pos` has been added to;
-- `again` is the loop from there on.
unfoldable pub parsed_round :
    Env → Parsed → ℕ → ErrorCode → Session → (ℕ → Session → SyncRun RedisValue) → SyncRun RedisValue
parsed_round env r pos ec s again =
    let moved = record s.client {
      redis_parser = r.parser;
      buf = drop (pos + r.position) s.client.buf;
    } in
    elim r.result [
      | completed ↦ returns (result_of r.parser) ec (with_client s moved)
      | incompleted ↦ again (pos + r.position) (with_client s moved)
      | error ↦ behind_report (report env (codes "[RedisClient] Parser error") moved) ec s
    ]

unfoldable pub parse_round :
    Env
    → Option Parsed
    → ℕ
    → ErrorCode
    → Session
    → (ℕ → Session → SyncRun RedisValue)
    → SyncRun RedisValue
unfolding parsed_round
parse_round env none pos ec s again = faults
parse_round env (some r) pos ec s again = parsed_round env r pos ec s again

-- `for(size_t pos = 0; pos < bufSize;)`; behind it the outer loop goes on (`next`).
unfoldable pub parse_buffer :
    ℕ
    → Env
    → ℕ
    → ErrorCode
    → Session
    → (ErrorCode → Session → SyncRun RedisValue)
    → SyncRun RedisValue
parse_buffer zero env pos ec s next = faults
parse_buffer (suc fuel) env pos ec s next =
    let rest = drop pos s.client.buf in
    let over = next ec s in
    let round =
      parse_round env (parse s.client.redis_parser rest) pos ec s
        (λ at t. parse_buffer fuel env at ec t next) in
    if leb (length s.client.buf) pos then over else round

-- `for(;;)`: each round but the first reads from the socket, so one more than the answers of the
-- system is enough fuel; a round of the inner loop takes from `buf`, so one more than its length is.
unfoldable pub read_response : ℕ → Env → ErrorCode → Session → SyncRun RedisValue
read_response zero env ec s = faults
read_response (suc fuel) env ec s = fill ec s (λ ec t.
    parse_buffer (suc (length t.client.buf)) env 0 ec t (λ ec u. read_response fuel env ec u))

-- `RedisClientImpl::syncReadResponse`
unfoldable pub sync_read_response : Env → ErrorCode → Session → SyncRun RedisValue
unfolding read_response
sync_read_response env ec s = read_response (suc (suc (length s.reads))) env ec s

-- Behind `socketWrite`; `next` is the rest of the call.
abbrev pub after_write :
    Option Written → Session → (ErrorCode → Session → SyncRun RedisValue) → SyncRun RedisValue
after_write none s next = blocks
after_write (some w) s next =
    let t = record s { writes = w.rounds; wire = s.wire ++ w.sent } in
    if is_error_code w.ec then returns null_value w.ec t else next w.ec t

-- `RedisClientImpl::doSyncCommand` of one command
unfoldable pub do_sync_command : Env → List RedisBuffer → ErrorCode → Session → SyncRun RedisValue
do_sync_command env command ec s =
    after_write (socket_write s.writes (make_command command) ec) s (sync_read_response env)

-- Behind a response; `next` is the loop with this response in `responses`.
abbrev pub after_response :
    SyncRun RedisValue
    → (RedisValue → ErrorCode → Session → SyncRun RedisValue)
    → SyncRun RedisValue
after_response (returns v ec s) next =
    if is_error_code ec then returns null_value ec s else next v ec s
after_response (throws text s) next = throws text s
after_response blocks next = blocks
after_response faults next = faults

-- The loop over the responses, one for each command
unfoldable pub read_responses : Env → ℕ → Values → ErrorCode → Session → SyncRun RedisValue
read_responses env zero responses ec s = returns (array_value responses) ec s
read_responses env (suc n) responses ec s =
    after_response (sync_read_response env ec s)
      (λ v ec t. read_responses env n (push_back responses v) ec t)

-- `RedisClientImpl::doSyncCommand` of several commands
unfoldable pub do_sync_commands :
    Env → List (List RedisBuffer) → ErrorCode → Session → SyncRun RedisValue
unfolding read_responses
do_sync_commands env commands ec s =
    after_write (write_buffers s.writes [] (map make_command commands) ec) s
      (λ ec t. read_responses env (length commands) nil ec t)
