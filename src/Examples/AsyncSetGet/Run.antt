-- ===== src/Examples/AsyncSetGet/Run.antt =====
-- What examples/async_set_get.cpp and examples/async_set_get2.cpp send to a server.
use redisclient.Base.{ℕ, suc, List, [], ◌∷◌, Bytes, codes}
use redisclient.Buffer.{from_string, make_command}
use redisclient.Client.{
  Client, Env, ErrorCode, no_error, connected, Io, sets_no_delay, starts_read, starts_write,
}
use redisclient.AsyncClient.{new_client}
use redisclient.AsyncClient.Scripts.{env_of}
use redisclient.AsyncClient.Trace.{Event, user_calls, strand_runs, connect_ends}
use redisclient.Examples.AsyncSetGet.{on_connect, on_set, key_arg, set_args, worker, main_script}

abbrev pub set_bytes : Bytes
set_bytes = make_command (from_string (codes "SET") ∷ set_args)

abbrev pub get_bytes : Bytes
get_bytes = make_command (from_string (codes "GET") ∷ key_arg)

abbrev pub del_bytes : Bytes
del_bytes = make_command (from_string (codes "DEL") ∷ key_arg)

-- What `main`, the end of its connect and the strand come to
abbrev pub begun : Client
begun = record new_client {
  handlers = on_set ∷ [];
  data_writed = set_bytes ∷ [];
  state = connected;
  io = Io.connects 6379 ∷ sets_no_delay ∷ starts_read ∷ starts_write (set_bytes ∷ []) ∷ [];
}

abbrev pub begins : List Event → List Event
begins xs = user_calls main_script ∷ connect_ends no_error on_connect ∷ strand_runs ∷ xs

module _ (depth : ℕ) (texts : ErrorCode → Bytes) where
  abbrev env : Env
  env = env_of (suc depth) (worker texts)
