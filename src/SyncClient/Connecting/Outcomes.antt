-- ===== src/SyncClient/Connecting/Outcomes.antt =====
-- What `connect` leaves, with an error and without.
use redisclient.Base.{
  ℕ, zero, suc, ◌≡◌, refl, subst, false, Option, none, some, List, ◌∷◌, ◌>>=◌, Bool-cases,
  some-injective, inl, inr,
}
use redisclient.Client.{connected, ErrorCode, no_error, is_error_code}
use redisclient.Socket.{succeeds, fails, eintr}
use redisclient.SyncClient.{SyncClient}
use redisclient.SyncClient.Connecting.{
  PollConnect, polls_fail, polls_ready, Answers, poll_loop, wait_connected, connect_code,
  connect_state, Connected, connect_ec, in_progress,
}

-- Every call of `connect` has succeeded, or the connection was in progress and the loop has seen it
-- made.
pub record AllSucceed (a : Answers) : Type 0 where
  pub opened : is_error_code a.open_socket ≡ false
  pub flags_read : a.get_flags ≡ succeeds
  pub flags_set : a.set_flags ≡ succeeds
  pub made : wait_connected a.connects a.polls ≡ some no_error
  pub flags_read_again : a.get_flags_again ≡ succeeds
  pub flags_set_again : a.set_flags_again ≡ succeeds

pub connect_ec-inv :
    (o : Option ErrorCode) (c : SyncClient) (r : Connected)
    → (o >>= λ ec.
        some (record { ec = ec; client = record c { session = connect_state ec c.session } }))
      ≡ some r
    → (o ≡ some r.ec) × (r.client ≡ record c { session = connect_state r.ec c.session })
connect_ec-inv none c r h = cc
connect_ec-inv (some ec) c r h =
    subst
      (λ (r : Connected).
        (some ec ≡ some r.ec) × (r.client ≡ record c { session = connect_state r.ec c.session }))
      (some-injective h) (refl, refl)

-- `poll` is interrupted some times.
abbrev pub interrupted : ℕ → List PollConnect → List PollConnect
interrupted zero polls = polls
interrupted (suc n) polls = polls_fail eintr ∷ interrupted n polls

poll_loop-interrupted :
    (n : ℕ) (polls : List PollConnect) → poll_loop (interrupted n polls) ≡ poll_loop polls
unfolding poll_loop
poll_loop-interrupted zero polls = refl
poll_loop-interrupted (suc n) polls = poll_loop-interrupted n polls

-- When the connection is in progress, `poll` is interrupted any number of times and then finds it
-- made, and all the other calls succeed, `connect` returns without an error in the state
-- Connected.
pub connect_ec-interrupted :
    (n : ℕ) (rest : List PollConnect) (a : Answers) (c : SyncClient)
    → a.open_socket ≡ no_error
    → a.no_delay ≡ no_error
    → a.get_flags ≡ succeeds
    → a.set_flags ≡ succeeds
    → a.connects ≡ fails in_progress
    → a.polls ≡ interrupted n (polls_ready succeeds 0 ∷ rest)
    → a.get_flags_again ≡ succeeds
    → a.set_flags_again ≡ succeeds
    → (r : Connected) × (connect_ec a c ≡ some r)
      × (r.ec ≡ no_error)
      × (r.client.session.client.state ≡ connected)
unfolding connect_ec connect_code wait_connected
connect_ec-interrupted n rest a c o d g s w p g2 s2 =
    let found = poll_loop-interrupted n (polls_ready succeeds 0 ∷ rest) in
    (
      record { ec = no_error; client = record c { session = connect_state no_error c.session } },
      elim (Bool-cases c.tcp_no_delay) [
        | inl t ↦ rw (o, d, g, s, w, p, g2, s2, t, found) refl
        | inr f ↦ rw (o, d, g, s, w, p, g2, s2, f, found) refl
      ],
      refl,
      refl,
    )
