-- ===== src/Socket/Writing.antt =====
-- What `socketWrite` has sent when it returns.
use redisclient.Base.{
  min, length-drop, ◌<◌, ℕ, zero, suc, ◌==◌, ◌↔◌, subst, Bool-cases, ◌>>=◌, ◌≡◌, refl, ap, sym, ◌∙◌,
  true, false, Option, none, some, List, [], ◌∷◌, ◌++◌, take, drop, append-nil, append_assoc, Bytes,
  All, ◌≤◌, arith, inl, inr, length,
}
use redisclient.Client.{ErrorCode, no_error, is_error_code}
use redisclient.Socket.{
  succeeds, ready, accepted, WriteRound, Written, Sent, write_fails, writes_none, writes,
  write_round, write_loop, socket_write, write_buffers, after_buffer, eintr, socket_write_impl,
}

take-drop : (n : ℕ) (xs : Bytes) → take n xs ++ drop n xs ≡ xs
take-drop zero xs = refl
take-drop (suc n) [] = refl
take-drop (suc n) (x ∷ xs) = ap (◌∷◌ x) (take-drop n xs)

-- What a write has sent is a prefix of `whole`, and all of it exactly when no error is set.
pub record IsSent (whole : Bytes) (w : Written) : Type 0 where
  pub rest : Bytes
  pub is_prefix : w.sent ++ rest ≡ whole
  pub all_sent : (is_error_code w.ec ≡ false) ↔ (rest ≡ [])

-- A call that returns, has sent what it says.
abbrev pub Sends : Bytes → Option Written → Type 0
Sends whole none = Unit
Sends whole (some w) = IsSent whole w

write_round-Sends :
    (x : Sent) (rounds : List WriteRound) (sent : Bytes) (b : ℕ) (left : Bytes)
    (again : Option Written) (next : ℕ → Option Written)
    → Sends (sent ++ b ∷ left) again
    → ((n : ℕ) → Sends (sent ++ b ∷ left) (next n))
    → Sends (sent ++ b ∷ left) (write_round x rounds sent no_error again next)
write_round-Sends (write_fails errno) rounds sent b left again next h k =
    elim (Bool-cases (errno == eintr)) [
      | inl e ↦ rw e h
      | inr e ↦ rw e (record { rest = b ∷ left; is_prefix = refl; all_sent = ground arith })
    ]
write_round-Sends writes_none rounds sent b left again next h k = record {
  rest = b ∷ left;
  is_prefix = refl;
  all_sent = ground arith;
}
write_round-Sends (writes n) rounds sent b left again next h k = k n

write_loop-Sends :
    (rounds : List WriteRound) (sent left : Bytes)
    → Sends (sent ++ left) (write_loop rounds sent left no_error)
unfolding write_loop
write_loop-Sends rounds sent [] = record { rest = []; is_prefix = refl; all_sent = ground arith }
write_loop-Sends [] sent (b ∷ left) = tt
write_loop-Sends (w ∷ rounds) sent (b ∷ left) =
    write_round-Sends (socket_write_impl w (length (b ∷ left))) rounds sent b left _ _
      (write_loop-Sends rounds sent (b ∷ left))
      (λ n.
        subst
          (λ whole.
            Sends whole
              (write_loop rounds (sent ++ take n (b ∷ left)) (drop n (b ∷ left)) no_error))
          (append_assoc sent (take n (b ∷ left)) (drop n (b ∷ left))
            ∙ ap (λ l. sent ++ l) (take-drop n (b ∷ left)))
          (write_loop-Sends rounds (sent ++ take n (b ∷ left)) (drop n (b ∷ left))))

-- The buffers one behind the other
abbrev pub joined : List Bytes → Bytes
joined [] = []
joined (b ∷ bs) = b ++ joined bs

pub is_error_code-none : (ec : ErrorCode) → is_error_code ec ≡ false → ec ≡ no_error
is_error_code-none no_error h = refl
is_error_code-none _ h = ground arith

append-empty : (xs ys : Bytes) → xs ++ ys ≡ [] → xs ≡ []
append-empty [] ys h = refl
append-empty (x ∷ xs) ys h = cc

-- A buffer that has been sent in part, or not at all
after_buffer-stops :
    (w : Written) (whole more : Bytes)
    → IsSent whole w
    → is_error_code w.ec ≡ true
    → IsSent (whole ++ more) w
after_buffer-stops w whole more h e = record {
  rest = h.rest ++ more;
  is_prefix = sym (append_assoc w.sent h.rest more) ∙ ap (λ l. l ++ more) h.is_prefix;
  all_sent = (λ f. cc, λ empty. h.all_sent.1 (append-empty h.rest more empty));
}

after_buffer-Sends :
    (o : Option Written) (whole more : Bytes)
    (next : List WriteRound → Bytes → ErrorCode → Option Written)
    → Sends whole o
    → ((rounds : List WriteRound) → Sends (whole ++ more) (next rounds whole no_error))
    → Sends (whole ++ more) (o >>= λ w. after_buffer w next)
after_buffer-Sends none whole more next h k = tt
after_buffer-Sends (some w) whole more next h k = elim (Bool-cases (is_error_code w.ec)) [
  | inl e ↦ rw e (after_buffer-stops w whole more h e)
  | inr e ↦
      let all : w.sent ≡ whole =
        sym (append-nil w.sent) ∙ ap (λ l. w.sent ++ l) (sym (h.all_sent.0 e)) ∙ h.is_prefix in
      rw (e, is_error_code-none w.ec e, all) (k w.rounds)
]

-- `socketWrite` of one buffer or of several, called with no error set: when it returns, what it has
-- sent is a prefix of the buffers' bytes, in order, and it is all of them exactly when no error is
-- set.
pub write_buffers-Sends :
    (buffers : List Bytes) (rounds : List WriteRound) (sent : Bytes)
    → Sends (sent ++ joined buffers) (write_buffers rounds sent buffers no_error)
unfolding write_buffers
write_buffers-Sends [] rounds sent = record { rest = []; is_prefix = refl; all_sent = ground arith }
write_buffers-Sends (buffer ∷ buffers) rounds sent =
    subst (λ whole. Sends whole (write_buffers rounds sent (buffer ∷ buffers) no_error))
      (append_assoc sent buffer (joined buffers))
      (after_buffer-Sends (write_loop rounds sent buffer no_error) (sent ++ buffer) (joined buffers)
        _ (write_loop-Sends rounds sent buffer)
        (λ rest. write_buffers-Sends buffers rest (sent ++ buffer)))

-- The system takes something in each round.
abbrev pub Accepts : WriteRound → Type 0
Accepts w = (n : ℕ) × (w ≡ record { set_option = succeeds; poll = ready; send = accepted (suc n) })

accepted_round :
    (w : WriteRound) (size : ℕ)
    → Accepts w
    → 0 < size
    → (n : ℕ) × (socket_write_impl w size ≡ writes n) × (0 < n)
unfolding socket_write_impl
accepted_round w size (n, is) h =
    let some_bytes : (min (suc n) size == 0) ≡ false = ground arith in
    (min (suc n) size, rw (is, some_bytes) refl, omega arith)

pub write_loop_total :
    (ec : ErrorCode) (rounds : List WriteRound) (sent left : Bytes)
    → All Accepts rounds
    → length left ≤ length rounds
    → (rest : List WriteRound) × (write_loop rounds sent left ec
        ≡ some (record { sent = sent ++ left; ec = ec; rounds = rest }))
unfolding write_loop
write_loop_total ec rounds sent [] h l =
    (rounds, ap (λ t. some (record { sent = t; ec = ec; rounds = rounds })) (sym (append-nil sent)))
write_loop_total ec [] sent (b ∷ left) h l = absurd (omega arith)
write_loop_total ec (w ∷ rounds) sent (b ∷ left) h l =
    let (n, wrote, positive) = accepted_round w (length (b ∷ left)) h.0 (omega arith) in
    let shorter : length (drop n (b ∷ left)) ≤ length rounds =
      omega (arith, length-drop n (b ∷ left), positive, l) in
    let (rest, done) =
      write_loop_total ec rounds (sent ++ take n (b ∷ left)) (drop n (b ∷ left)) h.1 shorter in
    let again = write_loop rounds sent (b ∷ left) ec in
    let next = λ (n : ℕ). write_loop rounds (sent ++ take n (b ∷ left)) (drop n (b ∷ left)) ec in
    let whole =
      append_assoc sent (take n (b ∷ left)) (drop n (b ∷ left))
      ∙ ap (λ l. sent ++ l) (take-drop n (b ∷ left)) in
    (
      rest,
      ap (λ x. write_round x rounds sent ec again next) wrote
          ∙ done
          ∙ ap (λ t. some (record { sent = t; ec = ec; rounds = rest })) whole,
    )

-- As many rounds as there are bytes, in each of which the system takes something, are enough:
-- `socketWrite` returns, has sent all of them, and leaves the error code that it is given.
pub socket_write_total :
    (ec : ErrorCode) (rounds : List WriteRound) (buffer : Bytes)
    → All Accepts rounds
    → length buffer ≤ length rounds
    → (left : List WriteRound) × (socket_write rounds buffer ec
        ≡ some (record { sent = buffer; ec = ec; rounds = left }))
unfolding socket_write
socket_write_total ec rounds buffer h l = write_loop_total ec rounds [] buffer h l
