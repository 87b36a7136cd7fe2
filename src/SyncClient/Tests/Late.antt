-- ===== src/SyncClient/Tests/Late.antt =====
-- A GET that is given up within its reply, and a PING that is given the rest of it.
use redisclient.Base.{◌≡◌, ◌++◌, refl, List, [], ◌∷◌, codes, arith}
use redisclient.Decimal.{decimal, digits}
use redisclient.Value.{null_value}
use redisclient.Parser.Invariant.{new_parser-IsIdle}
use redisclient.Resp.{bulk, status, print, value_of}
use redisclient.Buffer.{RedisBuffer, from_string, make_command, size}
use redisclient.Client.{new_impl, connected, Env, no_error, eof, Run}
use redisclient.Socket.{
  ReadRound, WriteRound, succeeds, ready, timeout, accepted, received, recv_fails, eintr,
  socket_write, write_loop, socket_write_impl, socket_read_some, socket_read_some_impl,
}
use redisclient.Client.Sync.{Session, returns}
use redisclient.Client.Sync.Rounds.{delivers}
use redisclient.Client.Sync.Reply.{HasRead, after_sending}
use redisclient.Client.Sync.Late.{Fails}
use redisclient.SyncClient.{command_ec}
use redisclient.SyncClient.Late.{TakesCommand, LateReply, command_ec_late}

abbrev quiet : Env
quiet = record {
  on_reply = λ h v c. Run.returns tt c;
  on_message = λ h payload c. Run.returns tt c;
  on_connect = λ h ec c. Run.returns tt c;
  on_error = λ h s c. Run.returns tt c;
  error_text = λ ec. codes "error";
}

-- Behind the begin of the reply there is an interrupt, and then nothing for a while.
abbrev silence : List ReadRound
silence =
    record { set_option = succeeds; poll = ready; recv = recv_fails eintr }
    ∷ record { set_option = succeeds; poll = timeout; recv = received [] }
    ∷ delivers (codes "\nx\r\n+PO")
    ∷ delivers (codes "NG\r\n")
    ∷ []

abbrev session : Session
session = record {
  client = record new_impl { state = connected };
  reads = delivers (codes "$1") ∷ delivers (codes "\r") ∷ silence;
  writes =
      record { set_option = succeeds; poll = ready; send = accepted 100 }
      ∷ record { set_option = succeeds; poll = ready; send = accepted 100 }
      ∷ [];
  wire = [];
}

abbrev last_write : List WriteRound
last_write = record { set_option = succeeds; poll = ready; send = accepted 100 } ∷ []

abbrev args : List RedisBuffer
args = from_string (codes "k") ∷ []

silence-Fails : Fails silence eof (delivers (codes "\nx\r\n+PO") ∷ delivers (codes "NG\r\n") ∷ [])
unfolding socket_read_some socket_read_some_impl
silence-Fails = refl

session-LateReply :
    LateReply (bulk (codes "x")) (print (status (codes "PONG")) []) eof [] session.reads
unfolding print decimal digits
session-LateReply = record {
  before = codes "$1" ∷ codes "\r" ∷ [];
  behind = codes "\nx\r\n+PO" ∷ codes "NG\r\n" ∷ [];
  bad = silence;
  before-Chunk = omega arith;
  behind-Chunk = omega arith;
  text_is = refl;
  not_whole = omega arith;
  reads_are = refl;
  read_fails = silence-Fails;
  is_set = refl;
}

get_taken : TakesCommand session.writes (codes "GET") args last_write
unfolding socket_write write_loop socket_write_impl make_command size decimal digits
get_taken = refl

ping_taken : TakesCommand last_write (codes "PING") [] []
unfolding socket_write write_loop socket_write_impl make_command size decimal digits
ping_taken = refl

command_ec_late_example :
    (t : Session) × (command_ec quiet (codes "GET") args no_error session
      ≡ returns null_value eof t)
    × (t.wire ≡ session.wire ++ make_command (from_string (codes "GET") ∷ args))
    × ((u : Session) × (command_ec quiet (codes "PING") [] no_error t
          ≡ returns (value_of (bulk (codes "x"))) no_error u)
        × HasRead []
            (print (status (codes "PONG")) [])
            (after_sending t (make_command (from_string (codes "PING") ∷ [])) [])
            u)
command_ec_late_example =
    command_ec_late quiet [] (bulk (codes "x")) (print (status (codes "PONG")) []) eof (codes "GET")
      (codes "PING") args [] session last_write [] refl (omega arith) new_parser-IsIdle refl
      session-LateReply get_taken ping_taken
