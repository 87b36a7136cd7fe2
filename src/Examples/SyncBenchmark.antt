-- ===== src/Examples/SyncBenchmark.antt =====
-- examples/sync_benchmark.cpp: SET, GET and DEL of one key after the other, whose replies are
-- compared with what they have to be, and once a second what INFO says of the operations. The clock
-- is a parameter, the seconds that each call of `time` reads; the options of the command line are
-- left out.
pub mod Rounds
pub mod Tests
use redisclient.Base.{
  ℕ, zero, suc, ◌+◌, ◌-◌, ◌*◌, ◌%◌, ◌^◌, Bool, true, false, if◌then◌else◌, Option, none, some, List,
  [], ◌∷◌, ◌++◌, ◌==◌, leb, ltb, ◌>>=◌, Bytes, codes,
}
use redisclient.Base.Int.{pos}
use redisclient.Decimal.{decimal, is_digit}
use redisclient.Value.{RedisValue, bytes_value, int_value, to_string}
use redisclient.Value.Equality.{not_equal}
use redisclient.Buffer.{RedisBuffer, from_string}
use redisclient.Parser.{is_empty}
use redisclient.Client.{Env, is_error_code}
use redisclient.Client.Sync.{Session}
use redisclient.SyncClient.{SyncClient, new_sync_client, command}
use redisclient.SyncClient.Connecting.{Answers, Connected, connect_ec}
use redisclient.Examples.SyncMain.{
  Main, exits, terminates, aborts, waits, goes_on, line, after_call,
}

-- `++i`, a `size_t`, and the key of a round
abbrev pub next_index : ℕ → ℕ
next_index i = (i + 1) % 2 ^ 64

unfoldable pub bench_key : ℕ → Bytes
bench_key i = codes "key " ++ decimal i

-- `std::regex_search` for "instantaneous_ops_per_sec:(\d+)": the first match, and its digits.
abbrev strip : Bytes → Bytes → Option Bytes
strip [] text = some text
strip (p ∷ prefix) [] = none
strip (p ∷ prefix) (c ∷ text) = let rest = strip prefix text in if p == c then rest else none

abbrev leading_digits : Bytes → Bytes
leading_digits [] = []
leading_digits (c ∷ text) = let rest = leading_digits text in if is_digit c then c ∷ rest else []

abbrev match_here : Option Bytes → Option Bytes
match_here none = none
match_here (some text) =
    let found = leading_digits text in if is_empty found then none else some found

abbrev or_else : Option Bytes → Option Bytes → Option Bytes
or_else none other = other
or_else (some found) other = some found

unfoldable pub search_ops : Bytes → Option Bytes
unfolding is_digit
search_ops [] = match_here (strip (codes "instantaneous_ops_per_sec:") [])
search_ops (c ∷ text) =
    or_else (match_here (strip (codes "instantaneous_ops_per_sec:") (c ∷ text))) (search_ops text)

-- `std::stoul` of digits, but for its bound
abbrev number_of : ℕ → Bytes → ℕ
number_of n [] = n
number_of n (c ∷ text) = number_of (n * 10 + (c - b'0')) text

-- What is printed of the reply to INFO; `std::stoul` throws on a number that is too large.
unfoldable pub print_stats : Option Bytes → Bytes → (Bytes → Main) → Main
print_stats none printed next = next printed
print_stats (some found) printed next =
    let n = number_of 0 found in
    if ltb n (2 ^ 64)
    then next (printed ++ line (codes "redis server ops: ") (decimal n))
    else terminates (codes "stoul")

-- The number of calls of `time` before, and the static `lastTime`, which the first call of
-- `printOPS` initialises.
pub record Clock : Type 0 where
  pub used : ℕ
  pub last : Option ℕ

abbrev started : (ℕ → ℕ) → ℕ → Option ℕ → (ℕ → ℕ → Main) → Main
started time used none next = next (suc used) (time used)
started time used (some last) next = next used last

-- `Benchmark::printOPS`
unfoldable pub print_ops :
    Env → (ℕ → ℕ) → Clock → Bytes → Session → (Clock → Bytes → Session → Main) → Main
unfolding search_ops print_stats
print_ops env time clock printed s next = started time clock.used clock.last (λ used last.
    if leb (last + 1) (time used)
    then after_call (command env (codes "info") (from_string (codes "stats") ∷ []) s) (λ v ec t.
      print_stats (search_ops (to_string v)) printed
        (λ out. next (record { used = used + 2; last = some (time (used + 1)) }) out t))
    else next (record { used = used + 1; last = some last }) printed s)

-- A command and the comparison of its reply: `if (redisClient.command(...) != expected) abort();`
unfoldable pub expects :
    Env → Bytes → List RedisBuffer → RedisValue → Bytes → Session → (Session → Main) → Main
unfolding not_equal
expects env cmd args expected printed s next =
    after_call (command env cmd args s)
      (λ v ec t. if not_equal v expected then aborts printed else next t)

-- `for(;;)` of `Benchmark::run` for a number of rounds, behind the index `i`
unfoldable pub bench_rounds : ℕ → Env → (ℕ → ℕ) → ℕ → Clock → Bytes → Session → Main
unfolding bench_key expects print_ops
bench_rounds zero env time i clock printed s = goes_on printed
bench_rounds (suc n) env time i clock printed s =
    let j = next_index i in
    let key = from_string (bench_key j) in
    expects env (codes "SET") (key ∷ key ∷ []) (bytes_value (codes "OK")) printed s (λ t.
      expects env (codes "GET") (key ∷ []) (bytes_value (bench_key j)) printed t (λ u.
        expects env (codes "DEL") (key ∷ []) (int_value (pos 1)) printed u (λ w.
          print_ops env time clock printed w
            (λ next_clock out v. bench_rounds n env time j next_clock out v))))

-- `connect`, and `exit(-1)` behind its error; `where_to` is the address and the port.
abbrev bench_connected : Env → Bytes → Option Connected → (SyncClient → Main) → Main
bench_connected env where_to none next = waits
bench_connected env where_to (some r) next =
    if is_error_code r.ec
    then exits 255
        (line (codes "Can't connect to ") (where_to ++ (codes ": " ++ env.error_text r.ec)))
    else next r.client

-- `Benchmark::run` for a number of rounds
unfoldable pub benchmark_run : ℕ → Env → (ℕ → ℕ) → Bytes → Answers → Session → Main
unfolding bench_rounds
benchmark_run n env time where_to answers s =
    bench_connected env where_to (connect_ec answers (new_sync_client s))
      (λ c. bench_rounds n env time 0 (record { used = 0; last = none }) [] c.session)
