-- ===== src/Examples/SyncMain/Tests.antt =====
-- The theorems on the synchronous examples, for a system that does what it is asked.
use redisclient.Base.{some, ℕ, zero, suc, ◌≡◌, refl, ◌∷◌, [], List, map, Bytes, codes, arith}
use redisclient.Base.Int.{pos}
use redisclient.Decimal.{decimal, digits}
use redisclient.Value.{is_error}
use redisclient.Resp.{Replies, none_left, more, status, bulk, null_bulk, integer, print, print_all}
use redisclient.Buffer.{make_command, size}
use redisclient.Client.{new_impl, Env, no_error, Run}
use redisclient.Client.Sync.{Session}
use redisclient.Client.Sync.Rounds.{delivers}
use redisclient.Client.Sync.Reply.{Incoming}
use redisclient.Socket.{
  WriteRound, Written, succeeds, ready, accepted, write_loop, socket_write, socket_write_impl,
}
use redisclient.Socket.Writing.{joined}
use redisclient.SyncClient.{new_sync_client}
use redisclient.SyncClient.Connecting.{Answers, Connected, connect_ec, connect_code}
use redisclient.Examples.SyncMain.{counting, timeout_main, goes_on}
use redisclient.Examples.SyncMain.Replies.{
  opened, get_bytes, TakesAll, AreGood, got_lines, patient, timeout_main-print,
}

abbrev quiet : Env
quiet = record {
  on_reply = λ h v c. Run.returns tt c;
  on_message = λ h payload c. Run.returns tt c;
  on_connect = λ h ec c. Run.returns tt c;
  on_error = λ h s c. Run.returns tt c;
  error_text = λ ec. codes "error";
}

abbrev answers : Answers
answers = record {
  open_socket = no_error;
  no_delay = no_error;
  get_flags = succeeds;
  set_flags = succeeds;
  connects = succeeds;
  polls = [];
  get_flags_again = succeeds;
  set_flags_again = succeeds;
}

-- Every write is taken whole.
abbrev takes_all : ℕ → List WriteRound
takes_all zero = []
takes_all (suc n) =
    record { set_option = succeeds; poll = ready; send = accepted 1000 } ∷ takes_all n

abbrev session : List Bytes → ℕ → Session
session chunks n = record {
  client = new_impl;
  reads = map delivers chunks;
  writes = takes_all n;
  wire = [];
}

abbrev set_get_chunks : List Bytes
set_get_chunks = codes "+OK\r" ∷ codes "\n$5\r\nvalue\r\n" ∷ []

abbrev connected_to : Session → Connected
connected_to s = record {
  ec = no_error;
  client = record (new_sync_client s) { session = opened s };
}

abbrev set_get_session : Session
set_get_session = session set_get_chunks 2

-- Seven replies, in one read
abbrev seven : Replies
seven = more (status (codes "OK")) (
    more (integer (pos 1)) (
      more (integer (pos 2)) (
        more (integer (pos 1))
          (more (bulk (codes "1")) (more (integer (pos 1)) (more (integer (pos 1)) none_left))))))

abbrev seven_chunk : Bytes
seven_chunk = codes "+OK\r\n:1\r\n:2\r\n:1\r\n$1\r\n1\r\n:1\r\n:1\r\n"

abbrev pipeline_session : Session
pipeline_session = session (seven_chunk ∷ []) 7

abbrev piped : Written
piped = record { sent = joined (map make_command counting); ec = no_error; rounds = [] }

-- A value, and then none
abbrev two : Replies
two = more (bulk (codes "v")) (more null_bulk none_left)

abbrev two_chunks : List Bytes
two_chunks = codes "$1\r\nv\r\n$" ∷ codes "-1\r\n" ∷ []

abbrev timeout_session : Session
timeout_session = session two_chunks 2

timeout-Incoming : Incoming [] (print_all two []) (opened timeout_session)
unfolding print decimal digits
timeout-Incoming = record {
  chunks = two_chunks;
  are_chunks = omega arith;
  reads_are = refl;
  text_is = refl;
}

timeout-connected :
    connect_ec answers (patient timeout_session)
    ≡ some (record {
      ec = no_error;
      client = record (patient timeout_session) { session = opened timeout_session };
    })
unfolding connect_ec connect_code
timeout-connected = refl

two_taken : TakesAll 2 (takes_all 2) get_bytes []
unfolding TakesAll socket_write write_loop socket_write_impl make_command size decimal digits
two_taken = (takes_all 1, refl, ([], refl, refl))

timeout_main-print_example : timeout_main 2 quiet answers timeout_session ≡ goes_on (got_lines two)
timeout_main-print_example =
    timeout_main-print quiet [] answers timeout_session
      (record {
        ec = no_error;
        client = record (patient timeout_session) { session = opened timeout_session };
      })
      two [] [] timeout-connected refl (omega arith, (tt, tt))
      (unfold AreGood is_error in (refl, (refl, tt))) timeout-Incoming two_taken
