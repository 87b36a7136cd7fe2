-- ===== src/SyncClient/Connecting.antt =====
-- src/redisclient/impl/redissyncclient.cpp: `connect`, to a TCP endpoint and to a local socket.
pub mod Outcomes
use redisclient.Base.{
  ℕ, zero, suc, ◌⊎◌, ◌≡◌, refl, ap, subst, ◌∙◌, Bool, true, false, not, ◌&&◌, Option, none, some,
  List, [], ◌∷◌, ◌==◌, if◌then◌else◌, ◌>>=◌, arith, Bool-cases, some-injective, inl, inr,
}
use redisclient.Client.{
  connected, ErrorCode, no_error, system, is_error_code, operation_aborted, eof,
}
use redisclient.Client.Sync.{Session, with_client}
use redisclient.Socket.{Call, succeeds, fails, eintr}
use redisclient.SyncClient.{SyncClient}

-- ETIMEDOUT and EINPROGRESS of Linux
abbrev timed_out : ℕ
timed_out = 110

abbrev pub in_progress : ℕ
in_progress = 115

-- What a `poll` for the connection answers, and then `getsockopt`, with the value of SO_ERROR.
pub data PollConnect : Type 0 where
  polls_fail : ℕ → PollConnect
  polls_none : PollConnect
  polls_ready : Call → ℕ → PollConnect

-- What the system answers to the calls of `connect`, in their order.
pub record Answers : Type 0 where
  pub open_socket : ErrorCode
  pub no_delay : ErrorCode
  pub get_flags : Call
  pub set_flags : Call
  pub connects : Call
  pub polls : List PollConnect
  pub get_flags_again : Call
  pub set_flags_again : Call

-- The loop around `poll`; `none` blocks, `no_error` is its `break`, another code is a return.
unfoldable pub poll_loop : List PollConnect → Option ErrorCode
poll_loop [] = none
poll_loop (polls_fail errno ∷ polls) =
    let again = poll_loop polls in if errno == eintr then again else some (system errno)
poll_loop (polls_none ∷ polls) = some (system timed_out)
poll_loop (polls_ready (fails errno) value ∷ polls) = some (system errno)
poll_loop (polls_ready succeeds value ∷ polls) =
    some (if value == 0 then no_error else system value)

-- `::connect`, and the loop if it is in progress
pub wait_connected : Call → List PollConnect → Option ErrorCode
unfolding poll_loop
wait_connected succeeds polls = some no_error
wait_connected (fails errno) polls =
    let waited = poll_loop polls in if errno == in_progress then waited else some (system errno)

-- A call whose failure ends the function with its `errno`; `next` is the rest.
abbrev check : Call → Option ErrorCode → Option ErrorCode
check succeeds next = next
check (fails errno) next = some (system errno)

-- The last call, whose failure only sets the code
abbrev last_call : Call → ErrorCode → ErrorCode
last_call succeeds ec = ec
last_call (fails errno) ec = system errno

abbrev unless_error : ErrorCode → Option ErrorCode → Option ErrorCode
unless_error no_error next = next
unless_error ec next = some ec

-- The error code that `connect` to a TCP endpoint leaves, for the one that it is given; the code of
-- `open` and of `set_option` is not looked at before the last line.
unfoldable pub connect_code : Bool → Answers → Option ErrorCode
unfolding wait_connected
connect_code tcp_no_delay a =
    let opened =
      if not (is_error_code a.open_socket) && tcp_no_delay then a.no_delay else a.open_socket in
    check a.get_flags (
      check a.set_flags (
        wait_connected a.connects a.polls >>= λ waited.
        unless_error waited (check a.get_flags_again (some (last_call a.set_flags_again opened)))))

-- `if (!ec) pimpl->state = State::Connected;`
abbrev pub connect_state : ErrorCode → Session → Session
connect_state ec s =
    if is_error_code ec then s else with_client s (record s.client { state = connected })

-- What a `connect` leaves.
pub record Connected : Type 0 where
  pub ec : ErrorCode
  pub client : SyncClient

-- `connect` to a TCP endpoint with an error code; `none` blocks.
unfoldable pub connect_ec : Answers → SyncClient → Option Connected
connect_ec a c = connect_code c.tcp_no_delay a >>= λ ec.
    some (record { ec = ec; client = record c { session = connect_state ec c.session } })

-- `connect` to a local socket with an error code: what `open` and `connect` of the socket answer
unfoldable pub connect_local_ec : ErrorCode → ErrorCode → SyncClient → Connected
connect_local_ec opened connects c =
    let ec = if is_error_code opened then opened else connects in
    record { ec = ec; client = record c { session = connect_state ec c.session } }

-- The overloads of `connect` without an error code: `detail::throwIfError` behind the call
pub data ConnectRun : Type 0 where
  connects_to : SyncClient → ConnectRun
  raises : ErrorCode → SyncClient → ConnectRun

abbrev raise_error : Connected → ConnectRun
raise_error r = if is_error_code r.ec then raises r.ec r.client else connects_to r.client

unfoldable pub connect : Answers → SyncClient → Option ConnectRun
connect a c = connect_ec a c >>= λ r. some (raise_error r)

unfoldable pub connect_local : ErrorCode → ErrorCode → SyncClient → ConnectRun
connect_local opened connects c = raise_error (connect_local_ec opened connects c)
