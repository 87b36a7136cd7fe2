-- ===== src/Examples/SyncBenchmark/Rounds.antt =====
-- The rounds of examples/sync_benchmark.cpp with a server that does what it is asked.
use redisclient.Base.{
  ℕ, zero, suc, ◌+◌, ◌≡◌, refl, ap, sym, subst, ◌∙◌, ◌⊎◌, inl, inr, true, false, none, some, List,
  [], ◌∷◌, leb, Bytes, codes, arith,
}
use redisclient.Base.Int.{pos}
use redisclient.Value.{RedisValue, bytes_value, int_value}
use redisclient.Value.Equality.{equal_bytes_iff, not_equal}
use redisclient.Parser.Invariant.{IsIdle, new_parser-IsIdle}
use redisclient.Resp.{
  Reply, Replies, none_left, more, status, integer, bulk, print, print_all, value_of, IsPrintable,
  ArePrintable,
}
use redisclient.Buffer.{RedisBuffer, from_string}
use redisclient.Client.{Env, is_connected, is_error_code}
use redisclient.SyncClient.{new_sync_client}
use redisclient.SyncClient.Connecting.{Answers, Connected, connect_ec}
use redisclient.Examples.SyncMain.Replies.{opened, connect-opened}
use redisclient.Socket.{ReadRound, WriteRound}
use redisclient.Client.Sync.{Session}
use redisclient.Client.Sync.Reply.{Incoming}
use redisclient.SyncClient.Replies.{command-reads}
use redisclient.SyncClient.Late.{TakesCommand}
use redisclient.Examples.SyncMain.{Main, goes_on}
use redisclient.Examples.SyncBenchmark.{
  next_index, bench_key, Clock, print_ops, expects, bench_rounds, benchmark_run,
}

-- What the server has to answer in a round, and in some
abbrev pub round_replies : ℕ → Replies → Replies
round_replies i rs =
    more (status (codes "OK")) (more (bulk (bench_key i)) (more (integer (pos 1)) rs))

abbrev pub bench_replies : ℕ → ℕ → Replies
bench_replies zero i = none_left
bench_replies (suc n) i = round_replies (next_index i) (bench_replies n (next_index i))

abbrev pub key_arg : ℕ → RedisBuffer
key_arg i = from_string (bench_key i)

-- The system takes the three commands of each round.
unfoldable pub TakesRounds : ℕ → ℕ → List WriteRound → List WriteRound → Type 0
TakesRounds zero i rounds left = rounds ≡ left
TakesRounds (suc n) i rounds left =
    let j = next_index i in
    (a b c : List WriteRound) × TakesCommand rounds (codes "SET") (key_arg j ∷ key_arg j ∷ []) a
    × TakesCommand a (codes "GET") (key_arg j ∷ []) b
    × TakesCommand b (codes "DEL") (key_arg j ∷ []) c
    × TakesRounds n j c left

-- A session at the begin of a round.
record IsReadyFor (after : List ReadRound) (text : Bytes) (rounds : List WriteRound) (s : Session)
    : Type 0 where
  pub is_open : is_connected s.client.state ≡ true
  pub idle : IsIdle s.client.redis_parser
  pub incoming : Incoming after text s
  pub writes_are : s.writes ≡ rounds

expects-reads :
    (env : Env) (after : List ReadRound) (cmd : Bytes) (args : List RedisBuffer) (r : Reply)
    (expected : RedisValue) (rest printed : Bytes) (s : Session) (rounds left : List WriteRound)
    (next : Session → Main)
    → IsPrintable r
    → not_equal (value_of r) expected ≡ false
    → IsReadyFor after (print r rest) rounds s
    → TakesCommand rounds cmd args left
    → (t : Session) × (expects env cmd args expected printed s next ≡ next t)
      × IsReadyFor after rest left t
unfolding expects
expects-reads env after cmd args r expected rest printed s rounds left next h same ready takes =
    let (t, run, read) =
      command-reads env after cmd args r rest s left ready.is_open h ready.idle ready.incoming
        (subst (λ w. TakesCommand w cmd args left) (sym ready.writes_are) takes) in
    (
      t,
      rw (run, same) refl,
      record {
        is_open = ap is_connected read.state_same ∙ ready.is_open;
        idle = read.idle;
        incoming = read.incoming;
        writes_are = read.writes_same;
      },
    )

same_bytes : (text : Bytes) → not_equal (bytes_value text) (bytes_value text) ≡ false
unfolding not_equal
same_bytes text = rw ((equal_bytes_iff text text).1 refl) refl

-- The clock stands within a second.
print_ops-quiet :
    (env : Env) (time : ℕ → ℕ) (now : ℕ) (clock : Clock) (printed : Bytes) (s : Session)
    (next : Clock → Bytes → Session → Main)
    → ((k : ℕ) → time k ≡ now)
    → (clock.last ≡ none) ⊎ (clock.last ≡ some now)
    → (later : Clock) × (print_ops env time clock printed s next ≡ next later printed s)
      × (later.last ≡ some now)
unfolding print_ops
print_ops-quiet env time now clock printed s next stands last =
    let within : leb (now + 1) now ≡ false = ground arith in
    elim last [
      | inl e ↦ (
        record { used = suc clock.used + 1; last = some now },
        rw (e, stands clock.used, stands (suc clock.used), within) refl,
        refl,
      )
      | inr e ↦ (
        record { used = clock.used + 1; last = some now },
        rw (e, stands clock.used, within) refl,
        refl,
      )
    ]

-- A server that answers each round with OK, the key and 1, and a clock that stands within a second:
-- no round aborts.
bench_rounds-print :
    (n : ℕ) (env : Env) (after : List ReadRound) (time : ℕ → ℕ) (now i : ℕ) (clock : Clock)
    (printed rest : Bytes) (s : Session) (rounds left : List WriteRound)
    → ((k : ℕ) → time k ≡ now)
    → (clock.last ≡ none) ⊎ (clock.last ≡ some now)
    → ArePrintable (bench_replies n i)
    → IsReadyFor after (print_all (bench_replies n i) rest) rounds s
    → TakesRounds n i rounds left
    → bench_rounds n env time i clock printed s ≡ goes_on printed
unfolding bench_rounds print TakesRounds
bench_rounds-print zero env after time now i clock printed rest s rounds left stands last h ready
      takes =
    refl
bench_rounds-print (suc n) env after time now i clock printed rest s rounds left stands last h ready
      takes =
    let j = next_index i in
    let others = bench_replies n j in
    let (a, b, c, sets, gets, dels, later) = takes in
    let ok : not_equal (value_of (status (codes "OK"))) (bytes_value (codes "OK")) ≡ false =
      same_bytes (codes "OK") in
    let one : not_equal (value_of (integer (pos 1))) (int_value (pos 1)) ≡ false =
      unfold not_equal in refl in
    let next =
      λ (clock : Clock) (out : Bytes) (v : Session). bench_rounds n env time j clock out v in
    let third = λ (w : Session). print_ops env time clock printed w next in
    let second = λ (u : Session).
      expects env (codes "DEL") (key_arg j ∷ []) (int_value (pos 1)) printed u third in
    let first = λ (t : Session).
      expects env (codes "GET") (key_arg j ∷ []) (bytes_value (bench_key j)) printed t second in
    let (t, set, ready_get) =
      expects-reads env after (codes "SET") (key_arg j ∷ key_arg j ∷ []) (status (codes "OK"))
        (bytes_value (codes "OK"))
        (print_all (more (bulk (bench_key j)) (more (integer (pos 1)) others)) rest) printed s
        rounds a first h.0 ok ready sets in
    let (u, get, ready_del) =
      expects-reads env after (codes "GET") (key_arg j ∷ []) (bulk (bench_key j))
        (bytes_value (bench_key j)) (print_all (more (integer (pos 1)) others) rest) printed t a b
        second h.1.0 (same_bytes (bench_key j)) ready_get gets in
    let (w, del, ready_next) =
      expects-reads env after (codes "DEL") (key_arg j ∷ []) (integer (pos 1)) (int_value (pos 1))
        (print_all others rest) printed u b c third h.1.1.0 one ready_del dels in
    let (later_clock, ops, seen) = print_ops-quiet env time now clock printed w next stands last in
    set
    ∙ get
    ∙ del
    ∙ ops
    ∙ bench_rounds-print n env after time now j later_clock printed rest w c left stands (inr seen)
        h.1.1.1 ready_next later

-- When its connect succeeds, the system takes its writes and the clock stands within a second,
-- `Benchmark::run` on a server that answers each round with OK, the key and 1 goes through any number
-- of rounds without an abort, however the replies are cut up.
pub benchmark_run-print :
    (n : ℕ) (env : Env) (after : List ReadRound) (time : ℕ → ℕ) (now : ℕ) (where_to rest : Bytes)
    (answers : Answers) (s : Session) (r : Connected) (left : List WriteRound)
    → ((k : ℕ) → time k ≡ now)
    → connect_ec answers (new_sync_client s) ≡ some r
    → is_error_code r.ec ≡ false
    → ArePrintable (bench_replies n 0)
    → Incoming after (print_all (bench_replies n 0) rest) (opened s)
    → TakesRounds n 0 s.writes left
    → benchmark_run n env time where_to answers s ≡ goes_on []
unfolding benchmark_run
benchmark_run-print n env after time now where_to rest answers s r left stands made fine h incoming
      takes =
    let clock : Clock = record { used = 0; last = none } in
    rw (made, fine)
      (ap (bench_rounds n env time 0 clock [])
          (connect-opened answers (new_sync_client s) r made fine)
        ∙ bench_rounds-print n env after time now 0 clock [] rest (opened s) s.writes left stands
            (inl refl) h
            (record {
              is_open = refl;
              idle = new_parser-IsIdle;
              incoming = incoming;
              writes_are = refl;
            })
            takes)
