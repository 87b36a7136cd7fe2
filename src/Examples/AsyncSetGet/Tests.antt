-- ===== src/Examples/AsyncSetGet/Tests.antt =====
-- The theorems on the runs of an asynchronous client, for the program of examples/async_set_get.cpp.
use redisclient.Base.{Bytes, refl, [], ◌∷◌, codes}
use redisclient.Client.{Client, no_error, ErrorCode}
use redisclient.Client.Queue.{do_async_command, async_write}
use redisclient.Client.Queue.Order.{Command}
use redisclient.Client.Messages.{handle_async_connect}
use redisclient.AsyncClient.{connect, command, state_valid}
use redisclient.AsyncClient.Scripts.{env_of, perform, run_script}
use redisclient.AsyncClient.Trace.{
  Trace, constructed, goes_on, happens, run_front, user_calls, connect_ends, strand_runs,
}
use redisclient.AsyncClient.Trace.Invariant.{IsOrdered}
use redisclient.AsyncClient.Trace.Order.{Trace-IsOrdered}
use redisclient.Examples.AsyncSetGet.{worker, main_script, on_connect, on_set}
use redisclient.Examples.AsyncSetGet.Run.{begun, set_bytes}

abbrev texts : ErrorCode → Bytes
texts ec = codes "error"

abbrev set : Command
set = record { buff = set_bytes; handler = on_set }

begun-Trace : Trace (env_of 1 (worker texts)) (set ∷ []) 0 0 begun
unfolding happens run_script perform connect handle_async_connect env_of command state_valid
    run_front do_async_command async_write
begun-Trace =
    goes_on strand_runs
      (goes_on (connect_ends no_error on_connect)
        (goes_on (user_calls main_script) constructed refl) refl)
      refl

Trace-IsOrdered_example : IsOrdered (set ∷ []) 0 0 begun
Trace-IsOrdered_example = Trace-IsOrdered 1 (worker texts) (set ∷ []) 0 0 begun begun-Trace
