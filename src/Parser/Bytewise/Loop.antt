-- ===== src/Parser/Bytewise/Loop.antt =====
-- The loop of `parseChunk` is the loop that reads one byte at a time.
use redisclient.Base.{
  ℕ, zero, suc, ◌+◌, ◌^◌, ◌<◌, ◌≤◌, min, ◌≡◌, refl, subst, sym, ap, ◌∙◌, [], ◌∷◌, length, drop,
  length-drop, Bytes, arith, ◌==◌, ◌⊎◌, inl, inr, Bool-cases,
}
use redisclient.Base.Int.{ℤ, pos, negsuc, IsInt64}
use redisclient.Parser.{
  State, start, bulk_size_lf, bulk, RedisParser, Turn, continues, turn, switch, end_turn,
}
use redisclient.Parser.Number.{buf_to_long}
use redisclient.Parser.Number.Laws.{buf_to_long-IsInt64}
use redisclient.Parser.Loop.{read_loop}
use redisclient.Parser.Invariant.{IsValid, IsPos64}
use redisclient.Parser.Invariant.Loop.{turn-IsValid, TurnIsValid, Turn-cases}
use redisclient.Parser.Bytewise.{
  feed, switch_one, bulk_read, bulk_state, turn_bulk, turn_bulk_size, turn_bulk_size_one, feed-bulk,
}

-- `read_loop` with that much fuel is `feed`, at chunks of that size.
abbrev Agrees : ℕ → Type 0
Agrees fuel =
    (s : State) (p : RedisParser) (position : ℕ) (chunk : Bytes)
    → length chunk ≤ fuel
    → IsValid s p
    → read_loop fuel s p position chunk ≡ feed s p position chunk

read_loop_again :
    (fuel : ℕ) (t : State) (q : RedisParser) (n position : ℕ) (rest : Bytes)
    → Agrees fuel
    → length rest ≤ fuel
    → IsValid t q
    → n ≡ 0
    → read_loop fuel t q (position + 1 + n) (drop n rest) ≡ feed t q (position + 1) rest
read_loop_again fuel t q n position rest ih h v e =
    let same : position + 1 + 0 ≡ position + 1 = omega arith in
    rw (e, same) (ih t q (position + 1) rest h v)

-- A round that looks at no byte but `c`.
read_loop-feed_one :
    (fuel : ℕ) (s : State) (c : ℕ) (rest : Bytes) (p : RedisParser) (position : ℕ)
    → Agrees fuel
    → length rest ≤ fuel
    → IsValid s p
    → switch s c rest p ≡ switch s c [] p
    → read_loop (suc fuel) s p position (c ∷ rest) ≡ feed s p position (c ∷ rest)
unfolding read_loop feed
read_loop-feed_one fuel s c rest p position ih h v same =
    let e : turn s c rest p ≡ turn s c [] p = unfold turn in ap end_turn same in
    elim (Turn-cases (turn s c [] p) [] (turn-IsValid s c [] p v)) [
      | inl (q, w, k) ↦ rw (e, w, read_loop, feed) refl
      | inr (inl (q, n, w, k, l)) ↦ rw (e, w, read_loop, feed) (ground arith)
      | inr (inr (t, q, n, w, k, l)) ↦
          rw (e, w, read_loop, feed) (read_loop_again fuel t q n position rest ih h k (omega arith))
    ]

Turn_continues :
    (rest : Bytes) {w : Turn} {s : State} {q : RedisParser} {n : ℕ}
    → w ≡ continues s q n
    → TurnIsValid rest w
    → IsValid s q × (n ≤ length rest)
Turn_continues rest e v = subst (TurnIsValid rest) e v

read_loop-feed_bulk :
    (fuel : ℕ) (c : ℕ) (rest : Bytes) (p : RedisParser) (n position : ℕ)
    → Agrees fuel
    → length rest ≤ fuel
    → IsValid bulk p
    → p.bulk_size ≡ pos (suc n)
    → suc n < 2 ^ 63
    → read_loop (suc fuel) bulk p position (c ∷ rest) ≡ feed bulk p position (c ∷ rest)
read_loop-feed_bulk fuel c rest p n position ih h v e b =
    let t = turn_bulk c rest p n e b in
    let (w, l) = Turn_continues rest t (turn-IsValid bulk c rest p v) in
    let read : read_loop (suc fuel) bulk p position (c ∷ rest)
        ≡ read_loop fuel (bulk_state (suc n) (c ∷ rest)) (bulk_read p (suc n) (c ∷ rest))
            (position + 1 + min n (length rest)) (drop (min n (length rest)) rest) =
      unfold read_loop in rw (t, read_loop) refl in
    let places : position + 1 + min n (length rest) ≡ position + min (suc n) (suc (length rest)) =
      omega arith in
    let counts : min (suc n) (suc (length rest)) ≡ suc (min n (length rest)) = omega arith in
    read
    ∙ ih _ _ _ _ (omega (arith, length-drop (min n (length rest)) rest)) w
    ∙ sym (feed-bulk (c ∷ rest) p n position e b ∙ rw (← places, counts) refl)

read_loop-feed_bulk_size :
    (fuel : ℕ) (rest : Bytes) (p : RedisParser) (n position : ℕ)
    → Agrees fuel
    → length rest ≤ fuel
    → IsValid bulk_size_lf p
    → buf_to_long p.buf ≡ pos (suc n)
    → suc n < 2 ^ 63
    → read_loop (suc fuel) bulk_size_lf p position (b'\n' ∷ rest)
      ≡ feed bulk_size_lf p position (b'\n' ∷ rest)
read_loop-feed_bulk_size fuel rest p n position ih h v e b =
    let t = turn_bulk_size rest p n e b in
    let one = turn_bulk_size_one p n e b in
    let (w, l) = Turn_continues rest t (turn-IsValid bulk_size_lf b'\n' rest p v) in
    let cleared = record p { buf = []; bulk_size = pos (suc n) } in
    let read : read_loop (suc fuel) bulk_size_lf p position (b'\n' ∷ rest)
        ≡ read_loop fuel (bulk_state (suc n) rest) (bulk_read (record p { buf = [] }) (suc n) rest)
            (position + 1 + min (suc n) (length rest)) (drop (min (suc n) (length rest)) rest) =
      unfold read_loop in rw (t, read_loop) refl in
    let fed : feed bulk_size_lf p position (b'\n' ∷ rest) ≡ feed bulk cleared (position + 1) rest =
      unfold feed in rw (one, feed) refl in
    read
    ∙ ih _ _ _ _ (omega (arith, length-drop (min (suc n) (length rest)) rest)) w
    ∙ sym (fed ∙ feed-bulk rest cleared n (position + 1) refl b)

-- The size that `bufToLong` reads is positive, or the rest of the chunk is not looked at.
switch_size :
    (c : ℕ) (rest : Bytes) (p : RedisParser) (z : ℤ)
    → buf_to_long p.buf ≡ z
    → IsInt64 z
    → ((n : ℕ) × (c ≡ b'\n') × (buf_to_long p.buf ≡ pos (suc n)) × (suc n < 2 ^ 63))
      ⊎ (switch bulk_size_lf c rest p ≡ switch bulk_size_lf c [] p)
switch_size c rest p (pos zero) h r = inr (unfold switch in ground arith)
switch_size c rest p (pos (suc n)) h r = elim (Bool-cases (c == b'\n')) [
  | inl e ↦ inl (n, ground arith, h, r)
  | inr e ↦ inr (unfold switch in rw e refl)
]
switch_size c rest p (negsuc n) h r = inr (unfold switch in ground arith)

IsPos64-suc : (z : ℤ) → IsPos64 z → (n : ℕ) × (z ≡ pos (suc n)) × (suc n < 2 ^ 63)
IsPos64-suc (pos zero) h = absurd (omega arith)
IsPos64-suc (pos (suc n)) h = (n, refl, h.1)
IsPos64-suc (negsuc n) h = absurd h

Agrees-suc : (fuel : ℕ) → Agrees fuel → Agrees (suc fuel)
Agrees-suc fuel ih s p position [] h v = unfold read_loop feed in refl
Agrees-suc fuel ih bulk_size_lf p position (c ∷ rest) h v =
    elim (switch_size c rest p _ refl (buf_to_long-IsInt64 p.buf)) [
      | inl (n, e, z, b) ↦
          rw e (read_loop-feed_bulk_size fuel rest p n position ih (omega arith) v z b)
      | inr same ↦ read_loop-feed_one fuel bulk_size_lf c rest p position ih (omega arith) v same
    ]
Agrees-suc fuel ih bulk p position (c ∷ rest) h v =
    let (n, e, b) = IsPos64-suc p.bulk_size v.bulk_left in
    read_loop-feed_bulk fuel c rest p n position ih (omega arith) v e b
Agrees-suc fuel ih start p position (c ∷ rest) h v =
    read_loop-feed_one fuel start c rest p position ih (omega arith) v
      (switch_one start c rest p refl)
Agrees-suc fuel ih s p position (c ∷ rest) h v =
    read_loop-feed_one fuel s c rest p position ih (omega arith) v (switch_one s c rest p refl)

-- From a valid state, with at least the chunk's size as fuel, the loop over a chunk is the loop
-- that reads the bytes one by one.
pub read_loop-feed :
    (fuel : ℕ) (s : State) (p : RedisParser) (position : ℕ) (chunk : Bytes)
    → length chunk ≤ fuel
    → IsValid s p
    → read_loop fuel s p position chunk ≡ feed s p position chunk
read_loop-feed zero s p position [] h v = unfold read_loop feed in refl
read_loop-feed zero s p position (c ∷ rest) h v = absurd (omega arith)
read_loop-feed (suc fuel) s p position chunk h v =
    Agrees-suc fuel (read_loop-feed fuel) s p position chunk h v
