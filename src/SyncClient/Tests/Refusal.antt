-- ===== src/SyncClient/Tests/Refusal.antt =====
-- A call of a synchronous client that is answered with a reply that the parser refuses.
use redisclient.Base.{◌≡◌, refl, List, [], ◌∷◌, some, codes, arith}
use redisclient.Base.Int.{add64, mul64, neg64}
use redisclient.Decimal.{is_digit, decimal, digits}
use redisclient.Parser.{error}
use redisclient.Parser.Loop.{Parsed, parse}
use redisclient.Parser.Number.{buf_to_long, scan_signed, scan_minus, scan, char_value}
use redisclient.Parser.Invariant.{new_parser-IsIdle}
use redisclient.Resp.Reference.{read_reply, refused, take_number}
use redisclient.Buffer.{RedisBuffer, from_string, make_command, size}
use redisclient.Client.{new_impl, connected, default_handler, returns, Env, no_error}
use redisclient.Socket.{succeeds, ready, accepted, socket_write, write_loop, socket_write_impl}
use redisclient.Client.Sync.{Session, throws}
use redisclient.Client.Sync.Rounds.{delivers}
use redisclient.Client.Sync.Reply.{after_sending}
use redisclient.SyncClient.{command}
use redisclient.SyncClient.Refusal.{parser_error, refused_session, command_refused}

-- The user's functions return at once.
abbrev quiet : Env
quiet = record {
  on_reply = λ h v c. returns tt c;
  on_message = λ h payload c. returns tt c;
  on_connect = λ h ec c. returns tt c;
  on_error = λ h s c. returns tt c;
  error_text = λ ec. codes "error";
}

-- The reply has a length below -1; another reply is behind it.
abbrev session : Session
session = record {
  client = record new_impl { state = connected; error_handler = default_handler };
  reads = delivers (codes "$-2\r\n+OK\r\n") ∷ [];
  writes = record { set_option = succeeds; poll = ready; send = accepted 100 } ∷ [];
  wire = [];
}

abbrev args : List RedisBuffer
args = from_string (codes "k") ∷ []

reply_refused : read_reply (codes "$-2\r\n+OK\r\n") ≡ refused
unfolding read_reply take_number is_digit buf_to_long scan_signed scan_minus scan add64 mul64 neg64
    char_value
reply_refused = refl

command_written :
    socket_write session.writes (make_command (from_string (codes "GET") ∷ args)) no_error
    ≡ some (record {
      sent = make_command (from_string (codes "GET") ∷ args);
      ec = no_error;
      rounds = [];
    })
unfolding socket_write write_loop socket_write_impl make_command size decimal digits
command_written = refl

command_refused_example :
    (r : Parsed) × (parse session.client.redis_parser (codes "$-2\r\n+OK\r\n") ≡ some r)
    × (r.result ≡ error)
    × (command quiet (codes "GET") args session
        ≡ throws parser_error (
            refused_session
              (after_sending session (make_command (from_string (codes "GET") ∷ args)) [])
              r
              (codes "$-2\r\n+OK\r\n")
              []))
command_refused_example =
    command_refused quiet [] (codes "GET") args b'$' (codes "-2\r\n+OK\r\n") session [] refl
      new_parser-IsIdle refl refl refl (omega arith) reply_refused command_written
