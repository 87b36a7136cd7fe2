-- ===== src/SyncClient/Late.antt =====
-- A command of a synchronous client that is given up before its reply is whole, and the command
-- behind it.
use redisclient.Base.{
  suc, ◌+◌, ◌<◌, ◌≡◌, refl, ap, sym, subst, ◌∙◌, true, some, List, [], ◌∷◌, ◌++◌, map, length,
  length-append, drop, All, Bytes, arith,
}
use redisclient.Value.{null_value}
use redisclient.Parser.{completed}
use redisclient.Parser.Loop.{Parsed, parse, result_of}
use redisclient.Parser.Invariant.{IsIdle}
use redisclient.Parser.Invariant.Loop.{IsReady}
use redisclient.Resp.{Reply, print, value_of, IsPrintable}
use redisclient.Resp.RoundTrip.{parse-print, IsIdle-IsReady}
use redisclient.Buffer.{RedisBuffer, from_string, make_command}
use redisclient.Client.Messages.Wire.{drop-print}
use redisclient.Client.{Env, ErrorCode, no_error, is_error_code, is_connected}
use redisclient.Socket.{ReadRound, WriteRound, socket_write}
use redisclient.Socket.Writing.{joined}
use redisclient.Client.Sync.{Session, returns, sync_read_response, do_sync_command}
use redisclient.Client.Sync.Rounds.{delivers, Chunk, drop-later}
use redisclient.Client.Sync.Response.{sync_read_response-Responds}
use redisclient.Client.Sync.Reply.{HasRead, after_sending}
use redisclient.Client.Sync.Late.{Fails, GivesUp, read_response-GivesUp}
use redisclient.SyncClient.{command_ec, if_valid}

-- The system takes all of a command in the rounds before `left`.
abbrev pub TakesCommand : List WriteRound → Bytes → List RedisBuffer → List WriteRound → Type 0
TakesCommand rounds cmd args left =
    let bytes = make_command (from_string cmd ∷ args) in
    socket_write rounds bytes no_error
    ≡ some (record { sent = bytes; ec = no_error; rounds = left })

-- A reply whose first bytes, but not the last, come before a read fails, and the rest behind it.
pub record LateReply (r : Reply) (rest : Bytes) (ec : ErrorCode) (after : List ReadRound)
    (reads : List ReadRound) : Type 0 where
  pub before : List Bytes
  pub behind : List Bytes
  pub bad : List ReadRound
  pub before-Chunk : All Chunk before
  pub behind-Chunk : All Chunk behind
  pub text_is : joined before ++ joined behind ≡ print r rest
  pub not_whole : length (joined before) + length rest < length (print r rest)
  pub reads_are : reads ≡ map delivers before ++ bad
  pub read_fails : Fails bad ec (map delivers behind ++ after)
  pub is_set : is_error_code ec ≡ true

length-reads_later :
    (before : List Bytes) (bad : List ReadRound)
    → length before < suc (suc (length (map delivers before ++ bad)))
length-reads_later [] bad = omega arith
length-reads_later (b ∷ before) bad = omega (arith, length-reads_later before bad)

-- The first command
module _ (env : Env) (after : List ReadRound) (r : Reply) (rest : Bytes) (ec : ErrorCode) where
  given_up :
      (s : Session)
      → s.client.buf ≡ []
      → IsPrintable r
      → IsIdle s.client.redis_parser
      → (late : LateReply r rest ec after s.reads)
      → (o : Parsed) × (o.result ≡ completed)
        × (result_of o.parser ≡ value_of r)
        × IsIdle o.parser
        × (o.position + length rest ≡ length (print r rest))
        × GivesUp ec
            (map delivers late.behind ++ after)
            (length (joined late.before))
            (joined late.behind)
            o
            s
            (sync_read_response env no_error s)
  unfolding sync_read_response
  given_up s empty h idle late =
      let p = s.client.redis_parser in
      let (o, parsed, reads) = parse-print r rest p h idle in
      let enough =
        subst (λ rounds. length late.before < suc (suc (length rounds))) (sym late.reads_are)
          (length-reads_later late.before late.bad) in
      (
        o,
        reads.result_is,
        reads.value_is,
        reads.idle,
        reads.position_is,
        read_response-GivesUp env ec late.bad (map delivers late.behind ++ after)
            (joined late.behind) late.read_fails late.is_set late.before _ s o late.before-Chunk
            enough empty late.reads_are (IsIdle-IsReady p idle)
            (subst (λ t. parse p t ≡ some o) (sym late.text_is) parsed) reads.result_is
            (omega (arith, late.not_whole, reads.position_is)),
      )

  -- The second command, with the parser that the first has left
  taken_up :
      (t : Session) (o : Parsed) (late : LateReply r rest ec after t.reads)
      → o.result ≡ completed
      → result_of o.parser ≡ value_of r
      → IsIdle o.parser
      → o.position + length rest ≡ length (print r rest)
      → (up : GivesUp ec
          (map delivers late.behind ++ after)
          (length (joined late.before))
          (joined late.behind)
          o
          t
          (sync_read_response env no_error t))
      → (s : Session) → s.client.redis_parser ≡ up.parser
      → s.client.buf ≡ []
      → s.reads ≡ map delivers late.behind ++ after
      → (u : Session) × (sync_read_response env no_error s ≡ returns (value_of r) no_error u)
        × HasRead after rest s u
  taken_up t o late done value idle position up s same empty reads =
      let tail = joined late.behind in
      let cut = length (joined late.before) in
      let later = up.later in
      let at = ap (λ (x : Parsed). x.position) up.outcome_is in
      let parser = ap (λ (x : Parsed). x.parser) up.outcome_is in
      let count = ap length late.text_is in
      let more : 0 < length tail =
        omega (arith, late.not_whole, count, length-append (joined late.before) tail) in
      let run =
        sync_read_response-Responds env after late.behind s later late.behind-Chunk reads
          (subst (λ buf. 0 < length (buf ++ tail)) (sym empty) more)
          (subst IsReady (sym same) up.ready)
          (subst (λ buf. parse s.client.redis_parser (buf ++ tail) ≡ some later) (sym empty)
            (subst (λ q. parse q tail ≡ some later) (sym same) up.parsed))
          (sym (ap (λ (x : Parsed). x.result) up.outcome_is) ∙ done) in
      (
        run.session,
        subst (λ v. sync_read_response env no_error s ≡ returns v no_error run.session)
            (sym (ap result_of parser) ∙ value) run.run_is,
        record {
          idle = subst IsIdle (parser ∙ sym run.parser_is) idle;
          incoming = record {
            chunks = run.left;
            are_chunks = run.are_chunks;
            reads_are = run.reads_are;
            text_is =
                run.unread
                ∙ ap (λ buf. drop later.position (buf ++ tail)) empty
                ∙ sym (drop-later cut later.position (joined late.before) tail refl)
                ∙ ap (λ text. drop (cut + later.position) text) late.text_is
                ∙ ap (λ n. drop n (print r rest)) (sym at)
                ∙ drop-print r rest o.position position;
          };
          writes_same = run.writes_same;
          wire_same = run.wire_same;
          state_same = run.state_same;
        },
      )

  -- In the state Connected, with an idle parser and an empty buffer, when the system takes both
  -- commands whole, and a read fails (behind any interrupts) before the last byte of the printable
  -- reply to the first has come, the rest of it coming later, cut up in reads of 1 to 4096 bytes:
  -- `command` returns the null value with the read's error code, its command on the wire, and the
  -- next `command`, called with no error set, sends its command and returns the reply to the first
  -- with no error; what follows this reply is left for the call after it.
  pub command_ec_late :
      (cmd next : Bytes) (args next_args : List RedisBuffer) (s : Session)
      (mid left : List WriteRound)
      → is_connected s.client.state ≡ true
      → IsPrintable r
      → IsIdle s.client.redis_parser
      → s.client.buf ≡ []
      → LateReply r rest ec after s.reads
      → TakesCommand s.writes cmd args mid
      → TakesCommand mid next next_args left
      → (t : Session) × (command_ec env cmd args no_error s ≡ returns null_value ec t)
        × (t.wire ≡ s.wire ++ make_command (from_string cmd ∷ args))
        × ((u : Session) × (command_ec env next next_args no_error t
              ≡ returns (value_of r) no_error u)
            × HasRead after rest
                (after_sending t (make_command (from_string next ∷ next_args)) left)
                u)
  unfolding command_ec if_valid do_sync_command
  command_ec_late cmd next args next_args s mid left connected h idle empty late first second =
      let sent = after_sending s (make_command (from_string cmd ∷ args)) mid in
      let (o, done, value, settled, position, up) = given_up sent empty h idle late in
      let t = record sent {
        client = record sent.client { redis_parser = up.parser; buf = [] };
        reads = map delivers late.behind ++ after;
      } in
      let again = after_sending t (make_command (from_string next ∷ next_args)) left in
      let (u, run, read) =
        taken_up sent o late done value settled position up again refl refl refl in
      (t, rw (connected, first) up.run_is, refl, (u, rw (connected, second) run, read))
