-- ===== src/SyncClient/Tests.antt =====
-- The theorems on the synchronous client at concrete sessions and replies.
pub mod Faults
pub mod Refusal
pub mod Late
use redisclient.Base.{
  ℕ, ◌≤◌, zero, suc, ◌≡◌, refl, List, [], ◌∷◌, map, some, length, codes, Bytes, arith, All,
}
use redisclient.Base.Int.{pos}
use redisclient.Decimal.{decimal, decimal_ℤ, digits}
use redisclient.Value.{null_value, array_value}
use redisclient.Parser.Invariant.{new_parser-IsIdle}
use redisclient.Resp.{
  Reply, Replies, none_left, more, integer, bulk, print, print_all, value_of, values_of,
}
use redisclient.Buffer.{RedisBuffer, from_string, make_command, size}
use redisclient.Client.{new_impl, connected, Env, no_error, eof, Run}
use redisclient.Socket.{
  write_loop, socket_write_impl, WriteRound, Written, write_buffers, socket_write, succeeds, fails,
  ready, accepted, send_fails, eintr,
}
use redisclient.Socket.Writing.{joined, Sends, Accepts, write_buffers-Sends, socket_write_total}
use redisclient.Client.Sync.{Session, returns, sync_read_response}
use redisclient.Client.Sync.Rounds.{delivers}
use redisclient.Client.Sync.Reply.{Incoming, HasRead, after_sending, sync_read_response-print}
use redisclient.SyncClient.{
  SyncClient, new_sync_client, command, command_ec, finish, Pipeline, add_command, new_pipeline,
}
use redisclient.SyncClient.Replies.{command-print, finish-print, command_ec_stale}
use redisclient.SyncClient.Connecting.{Answers, Connected, connect_ec, polls_ready, in_progress}
use redisclient.SyncClient.Connecting.Outcomes.{interrupted, connect_ec-interrupted}

abbrev quiet : Env
quiet = record {
  on_reply = λ h v c. Run.returns tt c;
  on_message = λ h payload c. Run.returns tt c;
  on_connect = λ h ec c. Run.returns tt c;
  on_error = λ h s c. Run.returns tt c;
  error_text = λ ec. codes "error";
}

-- The system takes one byte in each round.
abbrev one_byte : ℕ → List WriteRound
one_byte zero = []
one_byte (suc n) = record { set_option = succeeds; poll = ready; send = accepted 1 } ∷ one_byte n

one_byte-Accepts : (n : ℕ) → All Accepts (one_byte n)
one_byte-Accepts zero = tt
one_byte-Accepts (suc n) = ((0, refl), one_byte-Accepts n)

-- ":5\r\n$1\r\nx\r\n", of which the buffer holds ":" and the reads bring the rest
abbrev session : Session
session = record {
  client = record new_impl { state = connected; buf = codes ":" };
  reads = delivers (codes "5\r") ∷ delivers (codes "\n$1\r\nx") ∷ delivers (codes "\r\n") ∷ [];
  writes = one_byte 40;
  wire = [];
}

abbrev first : Reply
first = integer (pos 5)

abbrev second : Reply
second = bulk (codes "x")

session-Incoming : Incoming [] (print first (print second [])) session
unfolding print decimal decimal_ℤ digits
session-Incoming = record {
  chunks = codes "5\r" ∷ codes "\n$1\r\nx" ∷ codes "\r\n" ∷ [];
  are_chunks = omega arith;
  reads_are = refl;
  text_is = refl;
}

sync_read_response-print_example :
    (t : Session) × (sync_read_response quiet no_error session
      ≡ returns (value_of first) no_error t)
    × HasRead [] (print second []) session t
sync_read_response-print_example =
    sync_read_response-print quiet [] first (print second []) session (omega arith)
      new_parser-IsIdle session-Incoming

abbrev args : List RedisBuffer
args = from_string (codes "k") ∷ []

abbrev get_k : Bytes
get_k = make_command (from_string (codes "GET") ∷ args)

get_k-length : length get_k ≤ length session.writes
unfolding make_command size decimal digits
get_k-length = omega arith

command-print_example :
    (t : Session) × (left : List WriteRound) × (command quiet (codes "GET") args session
      ≡ returns (value_of first) no_error t)
    × HasRead [] (print second []) (after_sending session get_k left) t
command-print_example =
    command-print quiet [] (codes "GET") args first (print second []) session refl (omega arith)
      new_parser-IsIdle session-Incoming (one_byte-Accepts 40) get_k-length

command_ec_stale_example :
    (left : List WriteRound) × (command_ec quiet (codes "GET") args eof session
      ≡ returns null_value eof (after_sending session get_k left))
command_ec_stale_example =
    command_ec_stale quiet (codes "GET") args eof session refl refl (one_byte-Accepts 40)
      get_k-length

abbrev pipeline : Pipeline
pipeline = add_command (codes "GET") args (add_command (codes "GET") args new_pipeline)

abbrev both : Replies
both = more first (more second none_left)

both-Incoming : Incoming [] (print_all both []) session
unfolding print
both-Incoming = session-Incoming

-- The write is accepted whole.
abbrev pipe_session : Session
pipe_session = record session {
  writes =
      record { set_option = succeeds; poll = ready; send = send_fails eintr }
      ∷ record { set_option = succeeds; poll = ready; send = accepted 100 }
      ∷ record { set_option = succeeds; poll = ready; send = accepted 100 }
      ∷ [];
}

abbrev piped : Written
piped = record { sent = joined (map make_command pipeline); ec = no_error; rounds = [] }

piped_written :
    write_buffers pipe_session.writes [] (map make_command pipeline) no_error ≡ some piped
unfolding write_buffers write_loop socket_write_impl make_command size decimal digits
piped_written = refl

finish-print_example :
    (t : Session) × (finish quiet pipeline pipe_session
      ≡ returns (array_value (values_of both)) no_error t)
    × HasRead [] [] (after_sending pipe_session (joined (map make_command pipeline)) piped.rounds) t
finish-print_example =
    finish-print quiet [] pipeline both [] pipe_session piped refl (omega arith) refl
      new_parser-IsIdle
      (record {
        chunks = both-Incoming.chunks;
        are_chunks = both-Incoming.are_chunks;
        reads_are = both-Incoming.reads_are;
        text_is = both-Incoming.text_is;
      })
      piped_written refl

write_buffers-Sends_example :
    Sends (codes "abcd") (write_buffers (one_byte 3) [] (codes "ab" ∷ codes "cd" ∷ []) no_error)
write_buffers-Sends_example = write_buffers-Sends (codes "ab" ∷ codes "cd" ∷ []) (one_byte 3) []

socket_write_total_example :
    (left : List WriteRound) × (socket_write (one_byte 3) (codes "abc") no_error
      ≡ some (record { sent = codes "abc"; ec = no_error; rounds = left }))
socket_write_total_example =
    socket_write_total no_error (one_byte 3) (codes "abc") (one_byte-Accepts 3) (omega arith)

abbrev answers : Answers
answers = record {
  open_socket = no_error;
  no_delay = no_error;
  get_flags = succeeds;
  set_flags = succeeds;
  connects = fails in_progress;
  polls = interrupted 2 (polls_ready succeeds 0 ∷ []);
  get_flags_again = succeeds;
  set_flags_again = succeeds;
}

abbrev client : SyncClient
client = new_sync_client session

abbrev refused : Answers
refused = record answers { polls = polls_ready succeeds 111 ∷ [] }

connect_ec-interrupted_example :
    (r : Connected) × (connect_ec answers client ≡ some r)
    × (r.ec ≡ no_error)
    × (r.client.session.client.state ≡ connected)
connect_ec-interrupted_example =
    connect_ec-interrupted 2 [] answers client refl refl refl refl refl refl refl refl
