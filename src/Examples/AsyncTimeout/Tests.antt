-- ===== src/Examples/AsyncTimeout/Tests.antt =====
-- The theorem on examples/async_timeout.cpp, for a reply in time and one that does not come whole.
use redisclient.Base.{◌≡◌, refl, [], ◌∷◌, suc, length, List, codes, Bytes, arith}
use redisclient.Base.Int.{add64, mul64, neg64}
use redisclient.Decimal.{is_digit}
use redisclient.Parser.Number.{buf_to_long, scan_signed, scan_minus, scan, char_value}
use redisclient.Resp.{bulk}
use redisclient.Resp.Reference.{read_reply, wants_more, take_number}
use redisclient.Client.{Client, returns, ErrorCode}
use redisclient.Client.Queue.Order.{sent}
use redisclient.AsyncClient.{new_client}
use redisclient.AsyncClient.Scripts.{env_of}
use redisclient.AsyncClient.Trace.{user_calls}
use redisclient.AsyncClient.Trace.Turns.{play, Awaits}
use redisclient.Examples.AsyncTimeout.{on_got, run_worker, timed_worker}
use redisclient.Examples.AsyncTimeout.Run.{timed_get, dials, Round, answers, times_out, all_events}
use redisclient.Examples.AsyncTimeout.Rounds.{repeat, play-timed_worker}

abbrev texts : ErrorCode → Bytes
texts ec = codes "error"

abbrev rounds : List Round
rounds = answers (bulk (codes "v")) ∷ times_out (codes "$5\r\nab") 1 ∷ []

part-wants_more : read_reply (codes "$5\r\nab") ≡ wants_more
unfolding read_reply take_number is_digit buf_to_long scan_signed scan_minus scan add64 mul64 neg64
    char_value
part-wants_more = refl

play-timed_worker_example :
    (d : Client) × (play
        (env_of 1 (timed_worker texts))
        (user_calls run_worker ∷ dials 1 (all_events rounds))
        new_client
      ≡ returns tt d)
    × Awaits on_got timed_get d
    × (sent d.io ≡ repeat (suc (length rounds)) timed_get)
play-timed_worker_example = play-timed_worker 0 texts 1 rounds (omega arith, (part-wants_more, tt))
