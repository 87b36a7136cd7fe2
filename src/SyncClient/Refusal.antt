-- ===== src/SyncClient/Refusal.antt =====
-- What a synchronous call comes to when the server's bytes are malformed.
use redisclient.Base.{
  ℕ, suc, ◌+◌, ◌≤◌, ◌≡◌, refl, subst, ◌∙◌, true, false, some, List, [], ◌∷◌, leb, length, drop,
  Bytes, codes, arith,
}
use redisclient.Value.{RedisValue}
use redisclient.Parser.{error}
use redisclient.Parser.Loop.{Parsed, parse}
use redisclient.Parser.Invariant.{IsIdle}
use redisclient.Resp.Reference.{refused, read_reply}
use redisclient.Resp.Reference.Equivalence.{ParseAgrees, parse-read_reply}
use redisclient.Buffer.{RedisBuffer, from_string, make_command}
use redisclient.Client.{Env, ErrorCode, no_error, is_connected, default_handler, report}
use redisclient.Socket.{ReadRound, WriteRound, socket_write}
use redisclient.Client.Sync.{
  Session, SyncRun, throws, with_client, do_sync_command, sync_read_response, read_response,
  parse_buffer, parsed_round, parse_round,
}
use redisclient.Client.Sync.Rounds.{delivers, fill-delivers}
use redisclient.Client.Sync.Reply.{after_sending}
use redisclient.SyncClient.{command, command_ec, if_valid, throw_if_error}

-- The text of the error
abbrev pub parser_error : Bytes
parser_error = codes "[RedisClient] Parser error"

-- A buffer that the parser refuses
parse_buffer_refused :
    (fuel : ℕ) (env : Env) (ec : ErrorCode) (s : Session) (b : ℕ) (bs : Bytes) (r : Parsed)
    (next : ErrorCode → Session → SyncRun RedisValue)
    → s.client.buf ≡ b ∷ bs
    → s.client.error_handler ≡ default_handler
    → parse s.client.redis_parser (b ∷ bs) ≡ some r
    → r.result ≡ error
    → parse_buffer (suc fuel) env 0 ec s next
      ≡ throws parser_error (
          with_client s
            (record s.client { redis_parser = r.parser; buf = drop (0 + r.position) (b ∷ bs) }))
unfolding parse_buffer parse_round parsed_round report
parse_buffer_refused fuel env ec s b bs r next full plain parsed fails =
    let open_buffer : leb (length (b ∷ bs)) 0 ≡ false = ground arith in
    rw (full, open_buffer, parsed, fails, plain) refl

-- The session that a refusal leaves
abbrev pub refused_session : Session → Parsed → Bytes → List ReadRound → Session
refused_session s r bytes after = record s {
  client = record s.client { redis_parser = r.parser; buf = drop (0 + r.position) bytes };
  reads = after;
}

sync_read_response_refused :
    (env : Env) (after : List ReadRound) (s : Session) (b : ℕ) (bs : Bytes) (r : Parsed)
    → s.client.buf ≡ []
    → s.client.error_handler ≡ default_handler
    → s.reads ≡ delivers (b ∷ bs) ∷ after
    → length (b ∷ bs) ≤ 4096
    → parse s.client.redis_parser (b ∷ bs) ≡ some r
    → r.result ≡ error
    → sync_read_response env no_error s ≡ throws parser_error (refused_session s r (b ∷ bs) after)
unfolding sync_read_response read_response
sync_read_response_refused env after s b bs r empty plain reads small parsed fails =
    let n = length s.reads in
    let t = record s { client = record s.client { buf = b ∷ bs }; reads = after } in
    let next = λ (ec : ErrorCode) (t : Session).
      parse_buffer (suc (length t.client.buf)) env 0 ec t
        (λ ec u. read_response (suc n) env ec u) in
    fill-delivers s b bs after next empty reads small
    ∙ parse_buffer_refused (length (b ∷ bs)) env no_error t b bs r _ refl plain parsed fails

error-agrees :
    (b : ℕ) (bs : Bytes) (r : Parsed)
    → read_reply (b ∷ bs) ≡ refused
    → ParseAgrees (read_reply (b ∷ bs)) (length (b ∷ bs)) r
    → r.result ≡ error
error-agrees b bs r says agrees = subst (λ x. ParseAgrees x (length (b ∷ bs)) r) says agrees

-- In the state Connected, with an idle parser, an empty buffer and the default error handler, when
-- the write of the command takes it whole with no error, and the first read of the reply brings 1
-- to 4096 bytes that the reader of the protocol refuses: `command` throws "[RedisClient] Parser
-- error"; the command is on the wire, the parser is the one that the error of `parse` leaves, the
-- bytes behind the position of the error stay in the buffer, later reads are not done, and nothing
-- else of the client changes, its state included.
pub command_refused :
    (env : Env) (after : List ReadRound) (cmd : Bytes) (args : List RedisBuffer) (b : ℕ)
    (bs : Bytes) (s : Session) (left : List WriteRound)
    → is_connected s.client.state ≡ true
    → IsIdle s.client.redis_parser
    → s.client.buf ≡ []
    → s.client.error_handler ≡ default_handler
    → s.reads ≡ delivers (b ∷ bs) ∷ after
    → length (b ∷ bs) ≤ 4096
    → read_reply (b ∷ bs) ≡ refused
    → let bytes = make_command (from_string cmd ∷ args) in
      socket_write s.writes bytes no_error
        ≡ some (record { sent = bytes; ec = no_error; rounds = left })
      → (r : Parsed) × (parse s.client.redis_parser (b ∷ bs) ≡ some r)
        × (r.result ≡ error)
        × (command env cmd args s
            ≡ throws parser_error (refused_session (after_sending s bytes left) r (b ∷ bs) after))
unfolding command command_ec if_valid throw_if_error do_sync_command
command_refused env after cmd args b bs s left ready idle empty plain reads small says wrote =
    let bytes = make_command (from_string cmd ∷ args) in
    let (r, parsed, agrees) = parse-read_reply s.client.redis_parser b bs idle in
    let fails = error-agrees b bs r says agrees in
    let run =
      sync_read_response_refused env after (after_sending s bytes left) b bs r empty plain reads
        small parsed fails in
    (r, parsed, fails, rw (ready, wrote, run) refl)
