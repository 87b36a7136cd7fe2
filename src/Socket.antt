-- ===== src/Socket.antt =====
-- src/redisclient/impl/redisclientimpl.cpp: `socketReadSome` and `socketWrite`, the synchronous
-- transfers over the system's socket.
--
-- The system is a parameter: what its calls answer, round by round. A list of rounds that ends is a
-- system that does not answer any more: the call blocks, which is `none`. `errno` has the numbers
-- of Linux.
pub mod Reading
pub mod Writing
use redisclient.Base.{
  ℕ, Bool, true, false, Option, none, some, List, [], ◌∷◌, ◌++◌, ◌==◌, if◌then◌else◌, ◌>>=◌, length,
  take, drop, Bytes, min,
}
use redisclient.Client.{ErrorCode, no_error, eof, system, is_error_code}

abbrev pub eintr : ℕ
eintr = 4

-- What `setsockopt` answers, and `poll`; a failure has its `errno`.
pub data Call : Type 0 where
  succeeds : Call
  fails : ℕ → Call

pub data Poll : Type 0 where
  ready timeout : Poll
  poll_fails : ℕ → Poll

-- What `recv` answers, with the bytes, and `send`, with their number.
pub data Recv : Type 0 where
  received : Bytes → Recv
  recv_fails : ℕ → Recv

pub data Send : Type 0 where
  accepted : ℕ → Send
  send_fails : ℕ → Send

pub record ReadRound : Type 0 where
  pub set_option : Call
  pub poll : Poll
  pub recv : Recv

pub record WriteRound : Type 0 where
  pub set_option : Call
  pub poll : Poll
  pub send : Send

-- What `socketReadSomeImpl` returns: a negative number, 0, or the number of the bytes received.
pub data Received : Type 0 where
  receive_fails : ℕ → Received
  receives_none : Received
  receives : Bytes → Received

abbrev pub received_some : Bytes → Received
received_some [] = receives_none
received_some (b ∷ bytes) = receives (b ∷ bytes)

-- `recv` gives no more than `size` bytes.
abbrev recv_result : Recv → ℕ → Received
recv_result (received bytes) size = received_some (take size bytes)
recv_result (recv_fails errno) size = receive_fails errno

abbrev poll_recv : Poll → Recv → ℕ → Received
poll_recv ready r size = recv_result r size
poll_recv timeout r size = receives_none
poll_recv (poll_fails errno) r size = receive_fails errno

abbrev read_impl : Call → ReadRound → ℕ → Received
read_impl succeeds r size = poll_recv r.poll r.recv size
read_impl (fails errno) r size = receive_fails errno

-- `socketReadSomeImpl`
unfoldable pub socket_read_some_impl : ReadRound → ℕ → Received
socket_read_some_impl r size = read_impl r.set_option r size

-- What `socketReadSome` returns and sets, and the rounds that are left.
pub record ReadSome : Type 0 where
  pub bytes : Bytes
  pub ec : ErrorCode
  pub rounds : List ReadRound

-- A round of its loop, for what `socketReadSomeImpl` has returned
abbrev pub read_round : Received → List ReadRound → ErrorCode → Option ReadSome → Option ReadSome
read_round (receive_fails errno) rounds ec again =
    if errno == eintr
    then again
    else some (record { bytes = []; ec = system errno; rounds = rounds })
read_round receives_none rounds ec again = some (record { bytes = []; ec = eof; rounds = rounds })
read_round (receives bytes) rounds ec again =
    some (record { bytes = bytes; ec = ec; rounds = rounds })

-- `socketReadSome`, into a buffer of `size` bytes
unfoldable pub socket_read_some : List ReadRound → ℕ → ErrorCode → Option ReadSome
socket_read_some [] size ec = none
socket_read_some (r ∷ rounds) size ec =
    read_round (socket_read_some_impl r size) rounds ec (socket_read_some rounds size ec)

-- What `socketWriteImpl` returns.
pub data Sent : Type 0 where
  write_fails : ℕ → Sent
  writes_none : Sent
  writes : ℕ → Sent

abbrev accepted_some : ℕ → Sent
accepted_some n = if n == 0 then writes_none else writes n

abbrev send_result : Send → ℕ → Sent
send_result (accepted n) size = accepted_some (min n size)
send_result (send_fails errno) size = write_fails errno

abbrev poll_send : Poll → Send → ℕ → Sent
poll_send ready s size = send_result s size
poll_send timeout s size = writes_none
poll_send (poll_fails errno) s size = write_fails errno

abbrev write_impl : Call → WriteRound → ℕ → Sent
write_impl succeeds w size = poll_send w.poll w.send size
write_impl (fails errno) w size = write_fails errno

-- `socketWriteImpl`
unfoldable pub socket_write_impl : WriteRound → ℕ → Sent
socket_write_impl w size = write_impl w.set_option w size

-- What `socketWrite` has sent (it returns the number of these bytes) and sets.
pub record Written : Type 0 where
  pub sent : Bytes
  pub ec : ErrorCode
  pub rounds : List WriteRound

-- A round of the loop of `socketWrite`, for what `socketWriteImpl` has returned: the loop goes on
-- with the same bytes (`again`), ends, or goes on behind the bytes taken (`next`).
abbrev write_round :
    Sent
    → List WriteRound
    → Bytes
    → ErrorCode
    → Option Written
    → (ℕ → Option Written)
    → Option Written
write_round (write_fails errno) rounds sent ec again next =
    if errno == eintr
    then again
    else some (record { sent = sent; ec = system errno; rounds = rounds })
write_round writes_none rounds sent ec again next =
    some (record { sent = sent; ec = eof; rounds = rounds })
write_round (writes n) rounds sent ec again next = next n

-- The loop of `socketWrite`, with the bytes `sent` and those left
unfoldable pub write_loop : List WriteRound → Bytes → Bytes → ErrorCode → Option Written
write_loop rounds sent [] ec = some (record { sent = sent; ec = ec; rounds = rounds })
write_loop [] sent (b ∷ left) ec = none
write_loop (w ∷ rounds) sent (b ∷ left) ec =
    write_round (socket_write_impl w (length (b ∷ left))) rounds sent ec
      (write_loop rounds sent (b ∷ left) ec)
      (λ n. write_loop rounds (sent ++ take n (b ∷ left)) (drop n (b ∷ left)) ec)

-- `socketWrite` of one buffer
unfoldable pub socket_write : List WriteRound → Bytes → ErrorCode → Option Written
unfolding write_loop
socket_write rounds buffer ec = write_loop rounds [] buffer ec

-- The rest of the loop of `socketWrite` over several buffers, behind one of them
abbrev after_buffer :
    Written → (List WriteRound → Bytes → ErrorCode → Option Written) → Option Written
after_buffer w next = if is_error_code w.ec then some w else next w.rounds w.sent w.ec

unfoldable pub write_buffers : List WriteRound → Bytes → List Bytes → ErrorCode → Option Written
unfolding write_loop
write_buffers rounds sent [] ec = some (record { sent = sent; ec = ec; rounds = rounds })
write_buffers rounds sent (buffer ∷ buffers) ec = write_loop rounds sent buffer ec >>= λ w.
    after_buffer w (λ rounds sent ec. write_buffers rounds sent buffers ec)
