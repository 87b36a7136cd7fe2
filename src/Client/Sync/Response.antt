-- ===== src/Client/Sync/Response.antt =====
-- `syncReadResponse` reads a response off the socket, however it is cut up.
use redisclient.Base.{
  ℕ, zero, suc, ◌+◌, ◌≤◌, ◌<◌, ◌≡◌, refl, ap, sym, subst, ◌∙◌, ◌⊎◌, inl, inr, some, List, [], ◌∷◌,
  ◌++◌, map, length, drop, All, Bytes, arith,
}
use redisclient.Value.{RedisValue}
use redisclient.Parser.{completed}
use redisclient.Parser.Loop.{Parsed, parse, result_of}
use redisclient.Parser.Invariant.Loop.{IsReady, parse-ParsedIsValid}
use redisclient.Client.{Env, ErrorCode, no_error}
use redisclient.Socket.{ReadRound}
use redisclient.Socket.Writing.{joined}
use redisclient.Client.Sync.{
  Session, SyncRun, returns, parse_buffer, read_response, sync_read_response, with_client,
}
use redisclient.Client.Sync.Cut.{value-cases}
use redisclient.Client.Sync.Rounds.{
  delivers, Chunk, Responds, drop-later, fill-delivers, parse_buffer-completed,
  parse_buffer-incompleted,
}

pub drop-append : (n : ℕ) (xs ys : Bytes) → n ≤ length xs → drop n xs ++ ys ≡ drop n (xs ++ ys)
drop-append zero xs ys h = refl
drop-append (suc n) [] ys h = absurd (omega arith)
drop-append (suc n) (x ∷ xs) ys h = drop-append n xs ys (omega arith)

module _ (env : Env) (after : List ReadRound) where
  -- With an empty buffer, the value is in the chunks.
  abbrev FromEmpty : List Bytes → Type 0
  FromEmpty chunks =
      (fuel : ℕ) (s : Session) (o : Parsed)
      → length chunks < fuel
      → s.client.buf ≡ []
      → s.reads ≡ map delivers chunks ++ after
      → 0 < length (joined chunks)
      → IsReady s.client.redis_parser
      → parse s.client.redis_parser (joined chunks) ≡ some o
      → o.result ≡ completed
      → Responds after (joined chunks) o s.writes s.wire s.client.state
          (read_response fuel env no_error s)

  -- The value ends in the buffer.
  read_response_now :
      (s : Session) (b : ℕ) (bs : Bytes) (chunks : List Bytes) (o : Parsed)
      (run : SyncRun RedisValue)
      → All Chunk chunks
      → s.reads ≡ map delivers chunks ++ after
      → o.position ≤ length (b ∷ bs)
      → run
        ≡ returns (result_of o.parser) no_error (
            with_client s
              (record s.client { redis_parser = o.parser; buf = drop o.position (b ∷ bs) }))
      → Responds after ((b ∷ bs) ++ joined chunks) o s.writes s.wire s.client.state run
  read_response_now s b bs chunks o run are reads within is = record {
    session =
        with_client s (record s.client { redis_parser = o.parser; buf = drop o.position (b ∷ bs) });
    run_is = is;
    parser_is = refl;
    left = chunks;
    are_chunks = are;
    reads_are = reads;
    unread = drop-append o.position (b ∷ bs) (joined chunks) within;
    writes_same = refl;
    wire_same = refl;
    state_same = refl;
  }

  -- The value ends behind the buffer.
  read_response_later :
      (s : Session) (b : ℕ) (bs rest : Bytes) (r q o : Parsed) (run later_run : SyncRun RedisValue)
      → Responds after rest q s.writes s.wire s.client.state later_run
      → run ≡ later_run
      → o ≡ record q { position = length (b ∷ bs) + q.position }
      → Responds after ((b ∷ bs) ++ rest) o s.writes s.wire s.client.state run
  read_response_later s b bs rest r q o run later_run h same is =
      subst (λ o. Responds after ((b ∷ bs) ++ rest) o s.writes s.wire s.client.state run) (sym is)
        (record {
          session = h.session;
          run_is = same ∙ h.run_is;
          parser_is = h.parser_is;
          left = h.left;
          are_chunks = h.are_chunks;
          reads_are = h.reads_are;
          unread = h.unread ∙ sym (drop-later (length (b ∷ bs)) q.position (b ∷ bs) rest refl);
          writes_same = h.writes_same;
          wire_same = h.wire_same;
          state_same = h.state_same;
        })

  -- The buffer holds the value, or its begin.
  read_response_buffered :
      (chunks : List Bytes) (fuel : ℕ) (s : Session) (b : ℕ) (bs : Bytes) (o : Parsed)
      → FromEmpty chunks
      → length chunks < fuel
      → All Chunk chunks
      → s.client.buf ≡ b ∷ bs
      → s.reads ≡ map delivers chunks ++ after
      → IsReady s.client.redis_parser
      → parse s.client.redis_parser ((b ∷ bs) ++ joined chunks) ≡ some o
      → o.result ≡ completed
      → Responds after ((b ∷ bs) ++ joined chunks) o s.writes s.wire s.client.state (
          parse_buffer
            (suc (length (b ∷ bs)))
            env
            0
            no_error
            s
            (λ ec u. read_response fuel env ec u))
  read_response_buffered chunks fuel s b bs o empty enough are full reads prepared whole done =
      let p = s.client.redis_parser in
      elim (value-cases p b bs (joined chunks) o prepared whole done) [
        | inl now ↦
            read_response_now s b bs chunks o _ are reads
              (parse-ParsedIsValid p (b ∷ bs) prepared now).within
              (parse_buffer-completed (length (b ∷ bs)) env s b bs o _ full now done)
        | inr (r, q, first, part, again, taken, more, second, is) ↦
            let t = with_client s (record s.client { redis_parser = r.parser; buf = [] }) in
            read_response_later s b bs (joined chunks) r q o _ (read_response fuel env no_error t)
              (empty fuel t q enough refl reads more again second
                (sym (ap (λ (x : Parsed). x.result) is) ∙ done))
              (parse_buffer-incompleted (length bs) env s b bs r _ full first part taken) is
      ]

  read_response_empty : (chunks : List Bytes) → All Chunk chunks → FromEmpty chunks
  unfolding read_response
  read_response_empty [] are fuel s o enough empty reads more prepared whole done =
      absurd (omega arith)
  read_response_empty ([] ∷ chunks) are fuel s o enough empty reads more prepared whole done =
      absurd (omega (arith, are.0.0))
  read_response_empty ((b ∷ bs) ∷ chunks) are zero s o enough empty reads more prepared whole done =
      absurd (omega arith)
  read_response_empty ((b ∷ bs) ∷ chunks) are (suc fuel) s o enough empty reads more prepared whole
        done =
      let next = λ (ec : ErrorCode) (t : Session).
        parse_buffer (suc (length t.client.buf)) env 0 ec t (λ ec u. read_response fuel env ec u) in
      let t = record s {
        client = record s.client { buf = b ∷ bs };
        reads = map delivers chunks ++ after;
      } in
      subst (Responds after ((b ∷ bs) ++ joined chunks) o s.writes s.wire s.client.state)
        (sym (fill-delivers s b bs (map delivers chunks ++ after) next empty reads are.0.1))
        (read_response_buffered chunks fuel t b bs o (read_response_empty chunks are.1)
          (omega arith) are.1 refl refl prepared whole done)

Bytes-cases : (xs : Bytes) → (xs ≡ []) ⊎ ((b : ℕ) × (bs : Bytes) × (xs ≡ b ∷ bs))
Bytes-cases [] = inl refl
Bytes-cases (b ∷ bs) = inr (b, bs, refl)

length-reads :
    (chunks : List Bytes) (after : List ReadRound)
    → length chunks ≤ length (map delivers chunks ++ after)
length-reads [] after = omega arith
length-reads (c ∷ chunks) after = omega (arith, length-reads chunks after)

read_response-full :
    (fuel : ℕ) (env : Env) (s : Session) (b : ℕ) (bs : Bytes)
    → s.client.buf ≡ b ∷ bs
    → read_response (suc fuel) env no_error s
      ≡ parse_buffer (suc (length (b ∷ bs))) env 0 no_error s (λ ec u. read_response fuel env ec u)
unfolding read_response
read_response-full fuel env s b bs full = rw full refl

-- Whatever is in the buffer, and however the rest is cut up: a whole value is read.
pub sync_read_response-Responds :
    (env : Env) (after : List ReadRound) (chunks : List Bytes) (s : Session) (o : Parsed)
    → All Chunk chunks
    → s.reads ≡ map delivers chunks ++ after
    → 0 < length (s.client.buf ++ joined chunks)
    → IsReady s.client.redis_parser
    → parse s.client.redis_parser (s.client.buf ++ joined chunks) ≡ some o
    → o.result ≡ completed
    → Responds after
        (s.client.buf ++ joined chunks)
        o
        s.writes
        s.wire
        s.client.state
        (sync_read_response env no_error s)
unfolding sync_read_response
sync_read_response-Responds env after chunks s o are reads more prepared whole done =
    let p = s.client.redis_parser in
    let n = length s.reads in
    let enough : length chunks < suc n =
      subst (λ rounds. length chunks < suc (length rounds)) (sym reads)
        (omega (arith, length-reads chunks after)) in
    elim (Bytes-cases s.client.buf) [
      | inl empty ↦
          subst
            (λ buf.
              Responds after (buf ++ joined chunks) o s.writes s.wire s.client.state
                (read_response (suc (suc n)) env no_error s))
            (sym empty)
            (read_response_empty env after chunks are (suc (suc n)) s o (omega arith) empty reads
              (subst (λ buf. 0 < length (buf ++ joined chunks)) empty more) prepared
              (subst (λ buf. parse p (buf ++ joined chunks) ≡ some o) empty whole) done)
      | inr (b, bs, full) ↦
          subst
            (λ buf.
              Responds after (buf ++ joined chunks) o s.writes s.wire s.client.state
                (read_response (suc (suc n)) env no_error s))
            (sym full)
            (subst (Responds after ((b ∷ bs) ++ joined chunks) o s.writes s.wire s.client.state)
              (sym (read_response-full (suc n) env s b bs full))
              (read_response_buffered env after chunks (suc n) s b bs o
                (read_response_empty env after chunks are) enough are full reads prepared
                (subst (λ buf. parse p (buf ++ joined chunks) ≡ some o) full whole) done))
    ]
