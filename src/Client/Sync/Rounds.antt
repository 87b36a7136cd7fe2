-- ===== src/Client/Sync/Rounds.antt =====
-- The rounds of `syncReadResponse`: a read into the buffer, and a parse of what it holds.
use redisclient.Base.{
  ℕ, zero, suc, ◌+◌, ◌≤◌, ◌<◌, ◌≡◌, refl, ap, true, false, some, List, [], ◌∷◌, ◌++◌, map, length,
  take, drop, leb, All, Bytes, arith,
}
use redisclient.Value.{RedisValue}
use redisclient.Parser.{completed, incompleted}
use redisclient.Parser.Loop.{Parsed, parse, result_of}
use redisclient.Client.{State, Env, ErrorCode, no_error}
use redisclient.Socket.{
  WriteRound, ReadRound, succeeds, ready, received, socket_read_some, socket_read_some_impl,
}
use redisclient.Socket.Writing.{joined}
use redisclient.Client.Sync.{
  Session, SyncRun, returns, fill, parsed_round, parse_round, parse_buffer, with_client,
}

-- A read that is answered with these bytes.
abbrev pub delivers : Bytes → ReadRound
delivers bytes = record { set_option = succeeds; poll = ready; recv = received bytes }

abbrev pub Chunk : Bytes → Type 0
Chunk bytes = (0 < length bytes) × (length bytes ≤ 4096)

take_all : (n : ℕ) (xs : Bytes) → length xs ≤ n → take n xs ≡ xs
take_all zero [] h = refl
take_all zero (x ∷ xs) h = absurd (omega arith)
take_all (suc n) [] h = refl
take_all (suc n) (x ∷ xs) h = ap (◌∷◌ x) (take_all n xs (omega arith))

pub drop-later : (k n : ℕ) (xs ys : Bytes) → k ≡ length xs → drop (k + n) (xs ++ ys) ≡ drop n ys
drop-later zero n [] ys h = ap (λ m. drop m ys) (omega arith)
drop-later zero n (x ∷ xs) ys h = absurd (omega arith)
drop-later (suc k) n [] ys h = absurd (omega arith)
drop-later (suc k) n (x ∷ xs) ys h =
    let same : suc k + n ≡ suc (k + n) = omega arith in rw same (drop-later k n xs ys (omega arith))

pub drop_whole : (xs : Bytes) → drop (length xs) xs ≡ []
drop_whole [] = refl
drop_whole (x ∷ xs) = drop_whole xs

-- The answer is the value that `o` has, and the session is left with what is behind it: in the
-- buffer, and in the reads not yet made.
pub record Responds (after : List ReadRound) (text : Bytes) (o : Parsed) (writes : List WriteRound)
    (wire : Bytes) (state : State) (run : SyncRun RedisValue) : Type 0 where
  pub session : Session
  pub run_is : run ≡ returns (result_of o.parser) no_error session
  pub parser_is : session.client.redis_parser ≡ o.parser
  pub left : List Bytes
  pub are_chunks : All Chunk left
  pub reads_are : session.reads ≡ map delivers left ++ after
  pub unread : session.client.buf ++ joined left ≡ drop o.position text
  pub writes_same : session.writes ≡ writes
  pub wire_same : session.wire ≡ wire
  pub state_same : session.client.state ≡ state

-- A read into the empty buffer.
pub fill-delivers :
    (s : Session) (b : ℕ) (bs : Bytes) (more : List ReadRound)
    (next : ErrorCode → Session → SyncRun RedisValue)
    → s.client.buf ≡ []
    → s.reads ≡ delivers (b ∷ bs) ∷ more
    → length (b ∷ bs) ≤ 4096
    → fill no_error s next
      ≡ next no_error (record s { client = record s.client { buf = b ∷ bs }; reads = more })
unfolding socket_read_some socket_read_some_impl
fill-delivers s b bs more next empty reads small =
    rw (empty, reads, take_all 4096 (b ∷ bs) small) refl

-- The buffer with a whole value in it.
pub parse_buffer-completed :
    (fuel : ℕ) (env : Env) (s : Session) (b : ℕ) (bs : Bytes) (o : Parsed)
    (next : ErrorCode → Session → SyncRun RedisValue)
    → s.client.buf ≡ b ∷ bs
    → parse s.client.redis_parser (b ∷ bs) ≡ some o
    → o.result ≡ completed
    → parse_buffer (suc fuel) env 0 no_error s next
      ≡ returns (result_of o.parser) no_error (
          with_client s
            (record s.client { redis_parser = o.parser; buf = drop o.position (b ∷ bs) }))
unfolding parse_buffer parse_round parsed_round
parse_buffer-completed fuel env s b bs o next full parsed done =
    let open_buffer : leb (length (b ∷ bs)) 0 ≡ false = ground arith in
    let start : 0 + o.position ≡ o.position = omega arith in
    rw (full, open_buffer, parsed, done, start) refl

-- The buffer with a part of a value: all of it is taken, and the outer loop goes on.
pub parse_buffer-incompleted :
    (fuel : ℕ) (env : Env) (s : Session) (b : ℕ) (bs : Bytes) (r : Parsed)
    (next : ErrorCode → Session → SyncRun RedisValue)
    → s.client.buf ≡ b ∷ bs
    → parse s.client.redis_parser (b ∷ bs) ≡ some r
    → r.result ≡ incompleted
    → r.position ≡ length (b ∷ bs)
    → parse_buffer (suc (suc fuel)) env 0 no_error s next
      ≡ next no_error (with_client s (record s.client { redis_parser = r.parser; buf = [] }))
unfolding parse_buffer parse_round parsed_round
parse_buffer-incompleted fuel env s b bs r next full parsed part taken =
    let open_buffer : leb (length (b ∷ bs)) 0 ≡ false = ground arith in
    let start : 0 + r.position ≡ r.position = omega arith in
    let closed : leb 0 (length (b ∷ bs)) ≡ true = ground arith in
    rw (full, open_buffer, parsed, part, start, taken, drop_whole bs, closed) refl
