-- ===== src/Examples/SyncBenchmark/Tests.antt =====
-- Runs of examples/sync_benchmark.cpp: the search in what INFO says, and a key.
use redisclient.Base.{◌≡◌, refl, none, some, codes}
use redisclient.Decimal.{decimal, digits, is_digit}
use redisclient.Examples.SyncBenchmark.{bench_key, search_ops}

bench_key_runs : (bench_key 1 ≡ codes "key 1") × (bench_key 20 ≡ codes "key 20")
unfolding bench_key decimal digits
bench_key_runs = (refl, refl)

search_ops_runs :
    (search_ops (codes "ops:1\r\ninstantaneous_ops_per_sec:127\r\nx:3") ≡ some (codes "127"))
    × (search_ops (codes "instantaneous_ops_per_sec:\r\n") ≡ none)
unfolding search_ops is_digit
search_ops_runs = (refl, refl)
