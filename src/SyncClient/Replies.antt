-- ===== src/SyncClient/Replies.antt =====
-- What `RedisSyncClient::command` and `Pipeline::finish` return.
use redisclient.Base.{◌≤◌, ◌≡◌, refl, true, false, some, List, [], ◌∷◌, map, length, All, Bytes}
use redisclient.Value.{null_value, array_value}
use redisclient.Parser.Invariant.{IsIdle}
use redisclient.Resp.{
  Reply, Replies, count, print, print_all, value_of, values_of, IsPrintable, ArePrintable,
}
use redisclient.Buffer.{RedisBuffer, from_string, make_command}
use redisclient.Client.{Env, ErrorCode, no_error, is_error_code, is_connected}
use redisclient.Socket.{ReadRound, WriteRound, Written, write_buffers, socket_write}
use redisclient.Socket.Writing.{joined, Accepts, socket_write_total}
use redisclient.Client.Sync.{Session, returns, do_sync_command}
use redisclient.Client.Sync.Reply.{
  Incoming, HasRead, after_sending, sync_read_response-print, do_sync_commands-print,
}
use redisclient.SyncClient.{
  command, command_ec, pipelined, pipelined_ec, finish, if_valid, throw_if_error, Pipeline,
}

-- A session that is given the bytes has the same to come in.
Incoming-sending :
    (after : List ReadRound) (text bytes : Bytes) (rounds : List WriteRound) (s : Session)
    → Incoming after text s
    → Incoming after text (after_sending s bytes rounds)
Incoming-sending after text bytes rounds s incoming = record {
  chunks = incoming.chunks;
  are_chunks = incoming.are_chunks;
  reads_are = incoming.reads_are;
  text_is = incoming.text_is;
}

-- The overload of `command` with an error code, behind a write that has sent all its bytes
pub command_ec-reads :
    (env : Env) (after : List ReadRound) (cmd : Bytes) (args : List RedisBuffer) (r : Reply)
    (rest : Bytes) (s : Session) (left : List WriteRound)
    → is_connected s.client.state ≡ true
    → IsPrintable r
    → IsIdle s.client.redis_parser
    → Incoming after (print r rest) s
    → let bytes = make_command (from_string cmd ∷ args) in
      socket_write s.writes bytes no_error
        ≡ some (record { sent = bytes; ec = no_error; rounds = left })
      → (t : Session) × (command_ec env cmd args no_error s ≡ returns (value_of r) no_error t)
        × HasRead after rest (after_sending s bytes left) t
unfolding command_ec if_valid do_sync_command
command_ec-reads env after cmd args r rest s left ready h idle incoming wrote =
    let bytes = make_command (from_string cmd ∷ args) in
    let sent = after_sending s bytes left in
    let (t, run, read) =
      sync_read_response-print env after r rest sent h idle
        (Incoming-sending after (print r rest) bytes left s incoming) in
    (t, rw (ready, wrote, run) refl, read)

-- And the overload without one
pub command-reads :
    (env : Env) (after : List ReadRound) (cmd : Bytes) (args : List RedisBuffer) (r : Reply)
    (rest : Bytes) (s : Session) (left : List WriteRound)
    → is_connected s.client.state ≡ true
    → IsPrintable r
    → IsIdle s.client.redis_parser
    → Incoming after (print r rest) s
    → let bytes = make_command (from_string cmd ∷ args) in
      socket_write s.writes bytes no_error
        ≡ some (record { sent = bytes; ec = no_error; rounds = left })
      → (t : Session) × (command env cmd args s ≡ returns (value_of r) no_error t)
        × HasRead after rest (after_sending s bytes left) t
unfolding command throw_if_error
command-reads env after cmd args r rest s left ready h idle incoming wrote =
    let (t, run, read) =
      command_ec-reads env after cmd args r rest s left ready h idle incoming wrote in
    (t, rw run refl, read)

-- In the state Connected, with an idle parser, when the system takes something in every round, one
-- round for each byte of the command, and a printable reply comes in, cut up in reads of 1 to 4096
-- bytes: `command` returns the reply's value and throws nothing; the command is on the wire, and
-- what follows the reply is left for the next call.
pub command-print :
    (env : Env) (after : List ReadRound) (cmd : Bytes) (args : List RedisBuffer) (r : Reply)
    (rest : Bytes) (s : Session)
    → is_connected s.client.state ≡ true
    → IsPrintable r
    → IsIdle s.client.redis_parser
    → Incoming after (print r rest) s
    → All Accepts s.writes
    → length (make_command (from_string cmd ∷ args)) ≤ length s.writes
    → (t : Session) × (left : List WriteRound) × (command env cmd args s
        ≡ returns (value_of r) no_error t)
      × HasRead after rest (after_sending s (make_command (from_string cmd ∷ args)) left) t
command-print env after cmd args r rest s ready h idle incoming accepts enough =
    let bytes = make_command (from_string cmd ∷ args) in
    let (left, wrote) = socket_write_total no_error s.writes bytes accepts enough in
    let (t, run, read) =
      command-reads env after cmd args r rest s left ready h idle incoming wrote in
    (t, left, run, read)

-- In the state Connected, with an idle parser, when the write of a pipeline's commands ends
-- without an error and printable replies come in, one for each command and cut up in reads of 1 to
-- 4096 bytes: `finish` returns the array of the replies' values in order and throws nothing; the
-- commands are on the wire in order, and what follows the replies is left for the next call.
pub finish-print :
    (env : Env) (after : List ReadRound) (commands : Pipeline) (rs : Replies) (rest : Bytes)
    (s : Session) (w : Written)
    → is_connected s.client.state ≡ true
    → ArePrintable rs
    → count rs ≡ length commands
    → IsIdle s.client.redis_parser
    → Incoming after (print_all rs rest) s
    → write_buffers s.writes [] (map make_command commands) no_error ≡ some w
    → is_error_code w.ec ≡ false
    → (t : Session) × (finish env commands s ≡ returns (array_value (values_of rs)) no_error t)
      × HasRead after rest (after_sending s (joined (map make_command commands)) w.rounds) t
unfolding finish pipelined pipelined_ec if_valid throw_if_error
finish-print env after commands rs rest s w ready h same idle incoming wrote fine =
    let (t, run, read) =
      do_sync_commands-print env after commands rs rest s w h same idle incoming wrote fine in
    (t, rw (ready, run) refl, read)

-- In the state Connected, with an error code that is set already, as an earlier call has left it,
-- when the system takes something in every round, one round for each byte: `command` sends its
-- command, and returns the null value and the code without a read or a parse.
pub command_ec_stale :
    (env : Env) (cmd : Bytes) (args : List RedisBuffer) (ec : ErrorCode) (s : Session)
    → is_connected s.client.state ≡ true
    → is_error_code ec ≡ true
    → All Accepts s.writes
    → length (make_command (from_string cmd ∷ args)) ≤ length s.writes
    → (left : List WriteRound) × (command_ec env cmd args ec s
        ≡ returns null_value ec (after_sending s (make_command (from_string cmd ∷ args)) left))
unfolding command_ec if_valid do_sync_command
command_ec_stale env cmd args ec s ready set accepts enough =
    let bytes = make_command (from_string cmd ∷ args) in
    let (left, wrote) = socket_write_total ec s.writes bytes accepts enough in
    (left, rw (ready, wrote, set) refl)
