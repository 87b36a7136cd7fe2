-- ===== src/Socket/Reading.antt =====
-- src/redisclient/impl/redisclientimpl.cpp: what `socketReadSome` brings.
use redisclient.Base.{
  ℕ, zero, suc, ◌≤◌, ◌<◌, ◌≡◌, refl, false, inl, inr, Bool-cases, Option, none, some, List, [], ◌∷◌,
  ◌==◌, length, take, Bytes, arith,
}
use redisclient.Parser.{is_empty}
use redisclient.Client.{ErrorCode, is_error_code}
use redisclient.Socket.{
  Call, succeeds, fails, Poll, ready, timeout, poll_fails, Recv, received, recv_fails, ReadRound,
  Received, receive_fails, receives_none, receives, received_some, recv_result, poll_recv,
  read_impl, ReadSome, read_round, socket_read_some, socket_read_some_impl, eintr,
}

-- What a read brings
pub record ReadIsBounded (size : ℕ) (rounds : List ReadRound) (r : ReadSome) : Type 0 where
  pub within_size : length r.bytes ≤ size
  pub fewer : length r.rounds < length rounds
  pub some_read : is_error_code r.ec ≡ false → is_empty r.bytes ≡ false

abbrev pub ReadIsFine : ℕ → List ReadRound → Option ReadSome → Type 0
ReadIsFine size rounds none = Unit
ReadIsFine size rounds (some r) = ReadIsBounded size rounds r

abbrev ReceivedIsBounded : ℕ → Received → Type 0
ReceivedIsBounded size (receives bytes) = (length bytes ≤ size) × (is_empty bytes ≡ false)
ReceivedIsBounded size _ = Unit

length-take_most : (n : ℕ) (xs : Bytes) → length (take n xs) ≤ n
length-take_most zero xs = omega arith
length-take_most (suc n) [] = omega arith
length-take_most (suc n) (x ∷ xs) = omega (arith, length-take_most n xs)

received_some-IsBounded :
    (size : ℕ) (bytes : Bytes) → length bytes ≤ size → ReceivedIsBounded size (received_some bytes)
received_some-IsBounded size [] h = tt
received_some-IsBounded size (b ∷ bytes) h = (h, refl)

recv_result-IsBounded : (x : Recv) (size : ℕ) → ReceivedIsBounded size (recv_result x size)
recv_result-IsBounded (received bytes) size =
    received_some-IsBounded size (take size bytes) (length-take_most size bytes)
recv_result-IsBounded (recv_fails errno) size = tt

poll_recv-IsBounded : (p : Poll) (x : Recv) (size : ℕ) → ReceivedIsBounded size (poll_recv p x size)
poll_recv-IsBounded ready x size = recv_result-IsBounded x size
poll_recv-IsBounded timeout x size = tt
poll_recv-IsBounded (poll_fails errno) x size = tt

read_impl-IsBounded :
    (o : Call) (r : ReadRound) (size : ℕ) → ReceivedIsBounded size (read_impl o r size)
read_impl-IsBounded succeeds r size = poll_recv-IsBounded r.poll r.recv size
read_impl-IsBounded (fails errno) r size = tt

socket_read_some_impl-IsBounded :
    (r : ReadRound) (size : ℕ) → ReceivedIsBounded size (socket_read_some_impl r size)
unfolding socket_read_some_impl
socket_read_some_impl-IsBounded r size = read_impl-IsBounded r.set_option r size

later-IsFine :
    (size : ℕ) (r : ReadRound) (rounds : List ReadRound) (o : Option ReadSome)
    → ReadIsFine size rounds o
    → ReadIsFine size (r ∷ rounds) o
later-IsFine size r rounds none h = tt
later-IsFine size r rounds (some x) h = record {
  within_size = h.within_size;
  fewer = omega (arith, h.fewer);
  some_read = h.some_read;
}

read_round-IsFine :
    (size : ℕ) (x : Received) (r : ReadRound) (rounds : List ReadRound) (ec : ErrorCode)
    (again : Option ReadSome)
    → ReceivedIsBounded size x
    → ReadIsFine size rounds again
    → ReadIsFine size (r ∷ rounds) (read_round x rounds ec again)
read_round-IsFine size (receive_fails errno) r rounds ec again b h =
    elim (Bool-cases (errno == eintr)) [
      | inl e ↦ rw e (later-IsFine size r rounds again h)
      | inr e ↦
          rw e (record { within_size = omega arith; fewer = omega arith; some_read = λ x. cc })
    ]
read_round-IsFine size receives_none r rounds ec again b h = record {
  within_size = omega arith;
  fewer = omega arith;
  some_read = λ x. cc;
}
read_round-IsFine size (receives bytes) r rounds ec again b h = record {
  within_size = b.0;
  fewer = omega arith;
  some_read = λ x. b.1;
}

pub socket_read_some-IsFine :
    (rounds : List ReadRound) (size : ℕ) (ec : ErrorCode)
    → ReadIsFine size rounds (socket_read_some rounds size ec)
unfolding socket_read_some
socket_read_some-IsFine [] size ec = tt
socket_read_some-IsFine (r ∷ rounds) size ec =
    read_round-IsFine size (socket_read_some_impl r size) r rounds ec _
      (socket_read_some_impl-IsBounded r size) (socket_read_some-IsFine rounds size ec)
