-- ===== src/Examples/SyncMain.antt =====
-- The function `main` of examples/sync_set_get.cpp, examples/sync_pipeline.cpp and
-- examples/sync_timeout.cpp, with the system's answers as a parameter. What is printed to both
-- streams is one text.
pub mod Replies
pub mod Tests
use redisclient.Base.{
  ℕ, zero, suc, if◌then◌else◌, Option, none, some, List, [], ◌∷◌, ◌++◌, Bytes, codes,
}
use redisclient.Value.{RedisValue, Values, nil, cons, is_error, is_ok, to_array, to_string}
use redisclient.Value.Inspect.{inspect}
use redisclient.Buffer.{RedisBuffer, from_string}
use redisclient.Client.{Env, ErrorCode, no_error, is_error_code}
use redisclient.Client.Sync.{Session, SyncRun, returns, throws, blocks, faults}
use redisclient.SyncClient.{
  SyncClient, new_sync_client, set_connect_timeout, set_command_timeout, command, command_ec,
  Pipeline, new_pipeline, add_command, finish,
}
use redisclient.SyncClient.Connecting.{Answers, Connected, connect_ec}

-- How `main` ends: with a status, by an exception with its text, by `abort`, never, in undefined behaviour, or
-- not yet; with what has been printed.
pub data Main : Type 0 where
  exits : ℕ → Bytes → Main
  terminates : Bytes → Main
  aborts : Bytes → Main
  waits undefined : Main
  goes_on : Bytes → Main

abbrev pub success : ℕ
success = 0

abbrev pub failure : ℕ
failure = 1

-- A label, a text, and the end of the line
abbrev pub line : Bytes → Bytes → Bytes
line label text = label ++ (text ++ codes "\n")

-- `connect` with an error code, and the exit behind its error
abbrev connecting : Env → Option Connected → (SyncClient → Main) → Main
connecting env none next = waits
connecting env (some r) next =
    if is_error_code r.ec
    then exits failure (line (codes "Can't connect to redis: ") (env.error_text r.ec))
    else next r.client

-- Behind a call of the client; no exception is caught.
abbrev pub after_call : SyncRun RedisValue → (RedisValue → ErrorCode → Session → Main) → Main
after_call (returns v ec s) next = next v ec s
after_call (throws text s) next = terminates text
after_call blocks next = waits
after_call faults next = undefined

abbrev pub key : RedisBuffer
key = from_string (codes "key")

-- The `if (result.isOk())` at the end of sync_set_get.cpp
abbrev pub got : RedisValue → Main
got v =
    if is_ok v
    then exits success (line (codes "GET: ") (to_string v))
    else exits failure (line (codes "GET error: ") (to_string v))

-- sync_set_get.cpp, behind `connect`
unfoldable pub set_then_get : Env → Session → Main
set_then_get env s =
    after_call (command env (codes "SET") (key ∷ from_string (codes "value") ∷ []) s) (λ v ec t.
      if is_error v
      then exits failure (line (codes "SET error: ") (to_string v))
      else after_call (command env (codes "GET") (key ∷ []) t) (λ w ec u. got w))

-- `main` of sync_set_get.cpp
unfoldable pub set_get_main : Env → Answers → Session → Main
set_get_main env answers s =
    connecting env (connect_ec answers (new_sync_client s)) (λ c. set_then_get env c.session)

-- The commands of sync_pipeline.cpp
abbrev pub counter : List RedisBuffer
counter = from_string (codes "counter") ∷ []

abbrev pub counting : Pipeline
counting = add_command (codes "DEL") (key ∷ []) (
    add_command (codes "DEL") counter (
      add_command (codes "GET") counter (
        add_command (codes "DECR") counter (
          add_command (codes "INCR") counter (
            add_command (codes "INCR") counter
              (add_command (codes "SET") (key ∷ from_string (codes "value") ∷ []) new_pipeline))))))

-- `for(const auto &i: result.toArray())`
abbrev pub print_results : Values → Bytes
print_results nil = []
print_results (cons v vs) = line (codes "Result: ") (inspect v) ++ print_results vs

-- `main` of sync_pipeline.cpp
unfoldable pub pipeline_main : Env → Answers → Session → Main
pipeline_main env answers s = connecting env (connect_ec answers (new_sync_client s)) (λ c.
    after_call (finish env counting c.session) (λ v ec t.
      if is_ok v
      then exits success (print_results (to_array v))
      else exits failure (line (codes "GET error: ") (to_string v))))

-- `while(1)` of sync_timeout.cpp for a number of rounds, with what has been printed
unfoldable pub get_again : ℕ → Env → Bytes → ErrorCode → Session → Main
get_again zero env printed ec s = goes_on printed
get_again (suc rounds) env printed ec s =
    after_call (command_ec env (codes "GET") (key ∷ []) ec s) (λ v ec t.
      if is_error_code ec
      then exits failure (printed ++ line (codes "Network error: ") (env.error_text ec))
      else if is_error v
      then exits failure (printed ++ line (codes "GET error: ") (to_string v))
      else get_again rounds env (printed ++ line (codes "GET: ") (to_string v)) ec t)

-- `main` of sync_timeout.cpp
unfoldable pub timeout_main : ℕ → Env → Answers → Session → Main
unfolding get_again
timeout_main rounds env answers s =
    let c = set_command_timeout 3000 (set_connect_timeout 3000 (new_sync_client s)) in
    connecting env (connect_ec answers c) (λ d. get_again rounds env [] no_error d.session)
