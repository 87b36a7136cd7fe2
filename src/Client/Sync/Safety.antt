-- ===== src/Client/Sync/Safety.antt =====
-- No undefined behaviour in `syncReadResponse`, whatever the system answers, and the bounds of `buf`.
pub mod Commands
use redisclient.Base.{
  sym, ◌∙◌, ℕ, zero, suc, ◌+◌, ◌≤◌, ◌<◌, ◌≡◌, refl, ap, subst, true, false, inl, inr, Bool-cases,
  Option, none, some, List, [], ◌∷◌, ◌++◌, ◌==◌, leb, if◌then◌else◌, map, length, length-drop, take,
  drop, Bytes, codes, arith,
}
use redisclient.Value.{Values, nil, push_back, RedisValue}
use redisclient.Parser.{is_empty, RedisParser}
use redisclient.Parser.Loop.{Parsed, parse, result_of}
use redisclient.Parser.Invariant.Loop.{
  ResultSays, IsReady, ParsedIsValid, ParseResult-cases, parse-IsValid,
}
use redisclient.Buffer.{RedisBuffer, make_command}
use redisclient.Client.{
  Client, Run, Env, ErrorCode, is_error_code, Handler, ErrorHandler, unset, default_handler,
  installed, Ends, report, call_error_handler,
}
use redisclient.Socket.{ReadSome, socket_read_some, Written, write_buffers, socket_write}
use redisclient.Socket.Reading.{ReadIsBounded, ReadIsFine, socket_read_some-IsFine}
use redisclient.Client.Sync.Rounds.{drop_whole}
use redisclient.Client.Sync.{
  Session, SyncRun, returns, throws, blocks, faults, with_client, behind_report, buf_size, filled,
  fill, parsed_round, parse_round, parse_buffer, read_response, sync_read_response, after_write,
  do_sync_command, after_response, read_responses, do_sync_commands,
}

-- A call has no undefined behaviour and what it leaves, by a return or by an exception, fits `P`.
abbrev pub SyncEnds : {A : Type 0} → (Session → Type 0) → SyncRun A → Type 0
SyncEnds P (returns a ec s) = P s
SyncEnds P (throws text s) = P s
SyncEnds P blocks = Unit
SyncEnds P faults = ⊥

-- A parser that calls of `parse` can leave, and no more in `buf` than it has room for.
pub record IsSound (c : Client) : Type 0 where
  pub ready_parser : IsReady c.redis_parser
  pub within_buf : length c.buf ≤ buf_size

abbrev pub HasSound : Session → Type 0
HasSound s = IsSound s.client

-- What the installed error handlers do leaves such a client such.
abbrev pub KeepsSound : Env → Type 0
KeepsSound env =
    (h : Handler) (s : Bytes) (c : Client) → IsSound c → Ends IsSound (env.on_error h s c)

length_some : (xs : Bytes) → is_empty xs ≡ false → 0 < length xs
length_some [] h = cc
length_some (x ∷ xs) h = omega arith

module _ (env : Env) (keeps : KeepsSound env) where
  call_error_handler-IsSound :
      (e : ErrorHandler) (text : Bytes) (c : Client)
      → IsSound c
      → Ends IsSound (call_error_handler env e text c)
  call_error_handler-IsSound unset text c i = i
  call_error_handler-IsSound default_handler text c i = i
  call_error_handler-IsSound (installed h) text c i = keeps h text c i

  behind_report-Ends :
      (run : Run Unit) (ec : ErrorCode) (s : Session)
      → Ends IsSound run
      → SyncEnds HasSound (behind_report run ec s)
  behind_report-Ends (Run.returns u c) ec s h = h
  behind_report-Ends (Run.throws text c) ec s h = h
  behind_report-Ends Run.faults ec s h = h

  -- Where a report ends the call
  pub report-SyncEnds :
      (text : Bytes) (ec : ErrorCode) (c : Client) (s : Session)
      → IsSound c
      → SyncEnds HasSound (behind_report (report env text c) ec s)
  unfolding report
  report-SyncEnds text ec c s i =
      behind_report-Ends (report env text c) ec s
        (call_error_handler-IsSound c.error_handler text c i)

  -- An empty buffer, which is over at once
  parse_buffer_over :
      (fuel pos : ℕ) (ec : ErrorCode) (s : Session)
      (next : ErrorCode → Session → SyncRun RedisValue)
      → s.client.buf ≡ []
      → parse_buffer (suc fuel) env pos ec s next ≡ next ec s
  unfolding parse_buffer
  parse_buffer_over fuel pos ec s next h =
      let nothing : length s.client.buf ≡ 0 = ap length h in
      let over : leb (length s.client.buf) pos ≡ true = ground (arith, nothing) in rw over refl

  parsed_round-Ends :
      (r : Parsed) (ec : ErrorCode) (s : Session) (again : ℕ → Session → SyncRun RedisValue)
      → IsSound s.client
      → ParsedIsValid s.client.buf r
      → ((t : Session)
          → HasSound t
          → t.client.buf ≡ []
          → t.reads ≡ s.reads
          → SyncEnds HasSound (again (0 + r.position) t))
      → SyncEnds HasSound (parsed_round env r 0 ec s again)
  unfolding parsed_round
  parsed_round-Ends r ec s again sound valid goes =
      let moved = record s.client {
        redis_parser = r.parser;
        buf = drop (0 + r.position) s.client.buf;
      } in
      let after : IsSound moved = record {
        ready_parser = valid.ready;
        within_buf = omega (arith, length-drop (0 + r.position) s.client.buf, sound.within_buf);
      } in
      elim (ParseResult-cases r.result) [
        | inl e ↦ rw e after
        | inr (inl e) ↦
            let all : r.position ≡ length s.client.buf =
              subst (λ x. ResultSays x s.client.buf r) e valid.says in
            let used_up : drop (0 + r.position) s.client.buf ≡ [] =
              ap (λ n. drop n s.client.buf) (omega (arith, all)) ∙ drop_whole s.client.buf in
            rw e (goes (with_client s moved) after used_up refl)
        | inr (inr e) ↦ rw e (report-SyncEnds (codes "[RedisClient] Parser error") ec moved s after)
      ]

  -- A full buffer, which is parsed once: then the call ends, or all of the buffer is used up.
  parse_buffer-Ends :
      (fuel : ℕ) (ec : ErrorCode) (s : Session) (next : ErrorCode → Session → SyncRun RedisValue)
      → IsSound s.client
      → 0 < length s.client.buf
      → length s.client.buf ≤ fuel
      → ((t : Session)
          → HasSound t
          → t.client.buf ≡ []
          → t.reads ≡ s.reads
          → SyncEnds HasSound (next ec t))
      → SyncEnds HasSound (parse_buffer (suc fuel) env 0 ec s next)
  unfolding parse_buffer parse_round
  parse_buffer-Ends zero ec s next sound some_left enough goes = absurd (omega arith)
  parse_buffer-Ends (suc fuel) ec s next sound some_left enough goes =
      let (r, parsed, valid) =
        parse-IsValid s.client.redis_parser s.client.buf sound.ready_parser in
      let not_over : leb (length s.client.buf) 0 ≡ false = ground arith in
      rw (not_over, parsed)
        (parsed_round-Ends r ec s (λ at t. parse_buffer (suc fuel) env at ec t next) sound valid
          (λ t after empty same.
            subst (SyncEnds HasSound)
              (sym (parse_buffer_over fuel (0 + r.position) ec t next empty))
              (goes t after empty same)))

  -- The reads that are left, and the buffer if it holds something.
  abbrev needed : Session → ℕ
  needed s = if is_empty s.client.buf then length s.reads else suc (length s.reads)

  abbrev Goes : ℕ → Type 0
  Goes fuel =
      (ec : ErrorCode) (s : Session)
      → IsSound s.client
      → needed s < fuel
      → SyncEnds HasSound (read_response fuel env ec s)

  needed_empty : (s : Session) → is_empty s.client.buf ≡ true → needed s ≡ length s.reads
  needed_empty s h = rw h refl

  needed_full : (s : Session) → is_empty s.client.buf ≡ false → needed s ≡ suc (length s.reads)
  needed_full s h = rw h refl

  needed_most : (s : Session) → needed s ≤ suc (length s.reads)
  needed_most s = elim (Bool-cases (is_empty s.client.buf)) [
    | inl empty ↦ omega (arith, needed_empty s empty)
    | inr full ↦ omega (arith, needed_full s full)
  ]

  -- A read into the empty buffer
  filled-Ends :
      (fuel : ℕ) (s : Session) (o : Option ReadSome)
      → Goes fuel
      → IsSound s.client
      → length s.reads ≤ fuel
      → ReadIsFine buf_size s.reads o
      → SyncEnds HasSound (
          filled o s (λ ec t.
            parse_buffer
              (suc (length t.client.buf))
              env
              0
              ec
              t
              (λ ec u. read_response fuel env ec u)))
  filled-Ends fuel s none goes sound enough fine = tt
  filled-Ends fuel s (some r) goes sound enough fine =
      let t = record s { client = record s.client { buf = r.bytes }; reads = r.rounds } in
      let read : IsSound t.client = record {
        ready_parser = sound.ready_parser;
        within_buf = fine.within_size;
      } in
      elim (Bool-cases (is_error_code r.ec)) [
        | inl fails ↦ rw fails read
        | inr fits ↦ rw fits (
            parse_buffer-Ends (length r.bytes) r.ec t (λ ec u. read_response fuel env ec u) read
              (length_some r.bytes (fine.some_read fits)) (omega arith)
              (λ u after empty same.
                goes r.ec u after
                  (omega (arith, needed_empty u (ap is_empty empty), ap length same, fine.fewer))))
      ]

  read_response-Ends : (fuel : ℕ) → Goes fuel
  unfolding read_response
  read_response-Ends zero ec s sound enough = absurd (omega arith)
  read_response-Ends (suc fuel) ec s sound enough = elim (Bool-cases (is_empty s.client.buf)) [
    | inl empty ↦ rw empty (
        filled-Ends fuel s (socket_read_some s.reads buf_size ec) (read_response-Ends fuel) sound
          (omega (arith, needed_empty s empty, enough))
          (socket_read_some-IsFine s.reads buf_size ec))
    | inr full ↦ rw full (
        parse_buffer-Ends (length s.client.buf) ec s (λ ec u. read_response fuel env ec u) sound
          (length_some s.client.buf full) (omega arith)
          (λ u after empty same. read_response-Ends fuel ec u after (
            omega (
              arith,
              needed_empty u (ap is_empty empty),
              ap length same,
              needed_full s full,
              enough,
            ))))
  ]

  -- Every response ends without undefined behaviour, and keeps the client sound.
  pub sync_read_response-SyncEnds :
      (ec : ErrorCode) (s : Session)
      → IsSound s.client
      → SyncEnds HasSound (sync_read_response env ec s)
  unfolding sync_read_response
  sync_read_response-SyncEnds ec s sound =
      read_response-Ends (suc (suc (length s.reads))) ec s sound (omega (arith, needed_most s))
