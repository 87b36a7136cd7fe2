-- ===== src/Examples/SyncMain/Replies.antt =====
-- What the synchronous examples print for the replies of a server.
use redisclient.Base.{
  ℕ, zero, suc, ◌≡◌, refl, ap, sym, subst, ◌∙◌, true, false, some, List, [], ◌∷◌, ◌++◌,
  append_assoc, append-nil, Bytes, codes,
}
use redisclient.Value.{is_error, to_string}
use redisclient.Parser.Invariant.{IsIdle, new_parser-IsIdle}
use redisclient.Resp.{
  Reply, Replies, none_left, more, count, print, print_all, value_of, ArePrintable,
}
use redisclient.Buffer.{from_string, make_command}
use redisclient.Client.{
  Env, no_error, is_error_code, new_impl, is_connected, connected, default_handler,
}
use redisclient.Client.Sync.{Session, with_client}
use redisclient.Client.Sync.Reply.{Incoming}
use redisclient.Socket.{ReadRound, WriteRound, socket_write}
use redisclient.SyncClient.{set_command_timeout, set_connect_timeout, SyncClient, new_sync_client}
use redisclient.SyncClient.Connecting.{Answers, Connected, connect_ec, connect_code}
use redisclient.SyncClient.Connecting.Outcomes.{connect_ec-inv}
use redisclient.SyncClient.Replies.{command_ec-reads}
use redisclient.Examples.SyncMain.{goes_on, line, key, get_again, timeout_main}

-- The session of a new client behind a `connect` without an error
abbrev pub opened : Session → Session
opened s = with_client s (record new_impl { error_handler = default_handler; state = connected })

pub connect-opened :
    (answers : Answers) (c : SyncClient) (r : Connected)
    → connect_ec answers c ≡ some r
    → is_error_code r.ec ≡ false
    → r.client.session ≡ with_client c.session (record c.session.client { state = connected })
unfolding connect_ec
connect-opened answers c r h fine =
    let (code, left) = connect_ec-inv (connect_code c.tcp_no_delay answers) c r h in
    ap (λ (d : SyncClient). d.session) left ∙ rw fine refl

abbrev pub set_bytes : Bytes
set_bytes = make_command (from_string (codes "SET") ∷ key ∷ from_string (codes "value") ∷ [])

abbrev pub get_bytes : Bytes
get_bytes = make_command (from_string (codes "GET") ∷ key ∷ [])

-- The system takes all of some bytes, in the rounds before `left`.
abbrev pub Takes : List WriteRound → Bytes → List WriteRound → Type 0
Takes rounds bytes left =
    socket_write rounds bytes no_error
    ≡ some (record { sent = bytes; ec = no_error; rounds = left })

-- The rounds take the bytes `n` times.
unfoldable pub TakesAll : ℕ → List WriteRound → Bytes → List WriteRound → Type 0
TakesAll zero rounds bytes left = rounds ≡ left
TakesAll (suc n) rounds bytes left =
    (mid : List WriteRound) × Takes rounds bytes mid × TakesAll n mid bytes left

-- No reply is an error.
unfoldable pub AreGood : Replies → Type 0
AreGood none_left = Unit
AreGood (more r rs) = (is_error (value_of r) ≡ false) × AreGood rs

-- What is printed for them
abbrev pub got_lines : Replies → Bytes
got_lines none_left = []
got_lines (more r rs) = line (codes "GET: ") (to_string (value_of r)) ++ got_lines rs

get_again-print :
    (env : Env) (after : List ReadRound) (rs : Replies) (rest printed : Bytes) (s : Session)
    (left : List WriteRound)
    → is_connected s.client.state ≡ true
    → IsIdle s.client.redis_parser
    → ArePrintable rs
    → AreGood rs
    → Incoming after (print_all rs rest) s
    → TakesAll (count rs) s.writes get_bytes left
    → get_again (count rs) env printed no_error s ≡ goes_on (printed ++ got_lines rs)
unfolding get_again print TakesAll AreGood
get_again-print env after none_left rest printed s left ready idle printable good incoming takes =
    ap goes_on (sym (append-nil printed))
get_again-print env after (more r rs) rest printed s left ready idle printable good incoming takes =
    let (mid, first, others) = takes in
    let (t, run, read) =
      command_ec-reads env after (codes "GET") _ r (print_all rs rest) s mid ready printable.0 idle
        incoming first in
    let next = printed ++ line (codes "GET: ") (to_string (value_of r)) in
    let again =
      get_again-print env after rs rest next t left (ap is_connected read.state_same ∙ ready)
        read.idle printable.1 good.1 read.incoming
        (subst (λ w. TakesAll (count rs) w get_bytes left) (sym read.writes_same) others) in
    rw (run, good.0)
      (again
        ∙ ap goes_on
            (append_assoc printed (line (codes "GET: ") (to_string (value_of r))) (got_lines rs)))

-- The client of sync_timeout.cpp, with its timeouts set
abbrev pub patient : Session → SyncClient
patient s = set_command_timeout 3000 (set_connect_timeout 3000 (new_sync_client s))

-- When its connect succeeds and the system takes its writes, the loop in `main` of
-- sync_timeout.cpp, for any number of printable replies that are no errors and come in cut up in
-- any way, prints their texts in order, one a line, a round for each, and goes on.
pub timeout_main-print :
    (env : Env) (after : List ReadRound) (answers : Answers) (s : Session) (r : Connected)
    (rs : Replies) (rest : Bytes) (left : List WriteRound)
    → connect_ec answers (patient s) ≡ some r
    → is_error_code r.ec ≡ false
    → ArePrintable rs
    → AreGood rs
    → Incoming after (print_all rs rest) (opened s)
    → TakesAll (count rs) s.writes get_bytes left
    → timeout_main (count rs) env answers s ≡ goes_on (got_lines rs)
unfolding timeout_main
timeout_main-print env after answers s r rs rest left done fine printable good incoming takes =
    rw (done, fine)
      (ap (get_again (count rs) env [] no_error) (connect-opened answers (patient s) r done fine)
        ∙ get_again-print env after rs rest [] (opened s) left refl new_parser-IsIdle printable good
            incoming takes)
