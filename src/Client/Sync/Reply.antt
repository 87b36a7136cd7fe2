-- ===== src/Client/Sync/Reply.antt =====
-- What the user of a synchronous client gets: `syncReadResponse` and `doSyncCommand` for the replies
-- of a server.
use redisclient.Base.{
  ◌<◌, ◌≡◌, refl, ap, sym, subst, ◌∙◌, false, some, List, [], ◌++◌, map, append-nil, length, drop,
  All, Bytes,
}
use redisclient.Value.{Values, nil, cons, array_value, push_back, append}
use redisclient.Parser.Loop.{parse}
use redisclient.Parser.Invariant.{IsIdle}
use redisclient.Resp.{
  Reply, Replies, none_left, more, count, print, print_all, value_of, values_of, IsPrintable,
  ArePrintable,
}
use redisclient.Resp.RoundTrip.{parse-print, IsIdle-IsReady, append-push_back}
use redisclient.Client.Messages.Wire.{drop-print, length-print}
use redisclient.Client.{Env, no_error, is_error_code}
use redisclient.Buffer.{RedisBuffer, make_command}
use redisclient.Socket.{ReadRound, WriteRound, Written, write_buffers}
use redisclient.Socket.Writing.{joined, Sends, write_buffers-Sends, is_error_code-none}
use redisclient.Client.Sync.{Session, returns, sync_read_response, read_responses, do_sync_commands}
use redisclient.Client.Sync.Rounds.{delivers, Chunk}
use redisclient.Client.Sync.Response.{sync_read_response-Responds}

-- What is to come in: in the buffer, and cut up in any way in the next reads.
pub record Incoming (after : List ReadRound) (text : Bytes) (s : Session) : Type 0 where
  pub chunks : List Bytes
  pub are_chunks : All Chunk chunks
  pub reads_are : s.reads ≡ map delivers chunks ++ after
  pub text_is : s.client.buf ++ joined chunks ≡ text

-- A session that has read some value and can go on with the rest.
pub record HasRead (after : List ReadRound) (rest : Bytes) (s t : Session) : Type 0 where
  pub idle : IsIdle t.client.redis_parser
  pub incoming : Incoming after rest t
  pub writes_same : t.writes ≡ s.writes
  pub wire_same : t.wire ≡ s.wire
  pub state_same : t.client.state ≡ s.client.state

-- With no error set and an idle parser, whatever of a printable reply and of what follows it is in
-- the buffer, and however the rest of these bytes is cut up in reads of 1 to 4096 bytes:
-- `syncReadResponse` returns the reply's value with no error, what follows the reply is left in
-- the buffer and the reads, and the parser is idle again.
pub sync_read_response-print :
    (env : Env) (after : List ReadRound) (r : Reply) (rest : Bytes) (s : Session)
    → IsPrintable r
    → IsIdle s.client.redis_parser
    → Incoming after (print r rest) s
    → (t : Session) × (sync_read_response env no_error s ≡ returns (value_of r) no_error t)
      × HasRead after rest s t
sync_read_response-print env after r rest s h idle incoming =
    let p = s.client.redis_parser in
    let (o, parsed, reads) = parse-print r rest p h idle in
    let text = sym incoming.text_is in
    let run =
      sync_read_response-Responds env after incoming.chunks s o incoming.are_chunks
        incoming.reads_are (subst (λ t. 0 < length t) text (length-print r rest))
        (IsIdle-IsReady p idle) (subst (λ t. parse p t ≡ some o) text parsed) reads.result_is in
    (
      run.session,
      subst (λ v. sync_read_response env no_error s ≡ returns v no_error run.session) reads.value_is
          run.run_is,
      record {
        idle = subst IsIdle (sym run.parser_is) reads.idle;
        incoming = record {
          chunks = run.left;
          are_chunks = run.are_chunks;
          reads_are = run.reads_are;
          text_is =
              run.unread
              ∙ ap (drop o.position) incoming.text_is
              ∙ drop-print r rest o.position reads.position_is;
        };
        writes_same = run.writes_same;
        wire_same = run.wire_same;
        state_same = run.state_same;
      },
    )

append_nil : (acc : Values) → append acc nil ≡ acc
append_nil nil = refl
append_nil (cons v acc) = ap (cons v) (append_nil acc)

-- One response after the other
read_responses-print :
    (env : Env) (after : List ReadRound) (rs : Replies) (acc : Values) (rest : Bytes) (s : Session)
    → ArePrintable rs
    → IsIdle s.client.redis_parser
    → Incoming after (print_all rs rest) s
    → (t : Session) × (read_responses env (count rs) acc no_error s
        ≡ returns (array_value (append acc (values_of rs))) no_error t)
      × HasRead after rest s t
unfolding read_responses print
read_responses-print env after none_left acc rest s h idle incoming = (
  s,
  ap (λ vs. returns (array_value vs) no_error s) (sym (append_nil acc)),
  record {
    idle = idle;
    incoming = incoming;
    writes_same = refl;
    wire_same = refl;
    state_same = refl;
  },
)
read_responses-print env after (more r rs) acc rest s h idle incoming =
    let (t, first, read) =
      sync_read_response-print env after r (print_all rs rest) s h.0 idle incoming in
    let (u, others, last) =
      read_responses-print env after rs (push_back acc (value_of r)) rest t h.1 read.idle
        read.incoming in
    (
      u,
      rw first (
          others
          ∙ ap (λ vs. returns (array_value vs) no_error u)
              (append-push_back acc (value_of r) (values_of rs))),
      record {
        idle = last.idle;
        incoming = last.incoming;
        writes_same = last.writes_same ∙ read.writes_same;
        wire_same = last.wire_same ∙ read.wire_same;
        state_same = last.state_same ∙ read.state_same;
      },
    )

-- The session behind a write without an error: all the bytes are on the wire.
abbrev pub after_sending : Session → Bytes → List WriteRound → Session
after_sending s bytes rounds = record s { writes = rounds; wire = s.wire ++ bytes }

write_buffers-whole :
    (buffers : List Bytes) (rounds : List WriteRound) {w : Written}
    → write_buffers rounds [] buffers no_error ≡ some w
    → is_error_code w.ec ≡ false
    → (w.sent ≡ joined buffers) × (w.ec ≡ no_error)
write_buffers-whole buffers rounds {w} wrote fine =
    let sends = subst (Sends (joined buffers)) wrote (write_buffers-Sends buffers rounds []) in
    (
      sym (append-nil w.sent)
          ∙ ap (λ l. w.sent ++ l) (sym (sends.all_sent.0 fine))
          ∙ sends.is_prefix,
      is_error_code-none w.ec fine,
    )

-- `doSyncCommand` of several commands, when their write ends without an error and the server's
-- replies come in, one for each command and cut up in any way: it returns the array of the replies'
-- values in order, with no error; the commands' bytes are on the wire in order; what follows the
-- replies is left for the next call.
pub do_sync_commands-print :
    (env : Env) (after : List ReadRound) (commands : List (List RedisBuffer)) (rs : Replies)
    (rest : Bytes) (s : Session) (w : Written)
    → ArePrintable rs
    → count rs ≡ length commands
    → IsIdle s.client.redis_parser
    → Incoming after (print_all rs rest) s
    → write_buffers s.writes [] (map make_command commands) no_error ≡ some w
    → is_error_code w.ec ≡ false
    → (t : Session) × (do_sync_commands env commands no_error s
        ≡ returns (array_value (values_of rs)) no_error t)
      × HasRead after rest (after_sending s (joined (map make_command commands)) w.rounds) t
unfolding do_sync_commands
do_sync_commands-print env after commands rs rest s w h same idle incoming wrote fine =
    let (all, none_set) = write_buffers-whole (map make_command commands) s.writes wrote fine in
    let sent = after_sending s (joined (map make_command commands)) w.rounds in
    let (t, run, read) = read_responses-print env after rs nil rest sent h idle (record {
      chunks = incoming.chunks;
      are_chunks = incoming.are_chunks;
      reads_are = incoming.reads_are;
      text_is = incoming.text_is;
    }) in
    (t, rw (wrote, none_set, all, sym same) run, read)
