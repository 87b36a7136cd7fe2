-- ===== src/Parser/Chunks.antt =====
-- How a stream is cut into chunks makes no difference to `parse`.
use redisclient.Base.{
  ℕ, ◌+◌, ◌≡◌, refl, subst, sym, ap, ◌∙◌, Bool, true, false, ◌&&◌, Option, none, some, [], ◌∷◌,
  ◌++◌, if◌then◌else◌, length, Bytes, arith, ◌⊎◌, inl, inr, Bool-cases, ◌>>=◌,
}
use redisclient.Parser.{
  State, Switch, goes, fails, end_turn, end_value, store_value, switch, completed, incompleted,
  RedisParser, is_start, is_empty, Turn, errors, breaks, continues, turn,
}
use redisclient.Parser.Loop.{
  Exit, returns, leaves, Parsed, finish, parse_chunk, parse, top_state, resume_parser,
}
use redisclient.Parser.Invariant.{IsValid}
use redisclient.Parser.Invariant.Loop.{
  turn-IsValid, Turn-cases, IsReady, ParsedIsValid, ResultSays, parse-ParsedIsValid,
}
use redisclient.Parser.Bytewise.{feed}
use redisclient.Parser.Bytewise.Loop.{read_loop-feed}

-- `parse` reads one byte at a time.
pub parse-feed :
    (p : RedisParser) (chunk : Bytes)
    → IsReady p
    → parse p chunk ≡ (feed (top_state p.states) (resume_parser p) 0 chunk >>= λ e. some (finish e))
unfolding parse parse_chunk
parse-feed p chunk v = rw (read_loop-feed (length chunk) _ _ 0 chunk (omega arith) v) refl

Turn-split :
    (w : Turn)
    → ((p : RedisParser) × (w ≡ errors p))
      ⊎ ((p : RedisParser) × (n : ℕ) × (w ≡ breaks p n))
      ⊎ ((s : State) × (p : RedisParser) × (n : ℕ) × (w ≡ continues s p n))
      ⊎ (w ≡ Turn.faults)
Turn-split (errors p) = inl (p, refl)
Turn-split (breaks p n) = inr (inl (p, n, refl))
Turn-split (continues s p n) = inr (inr (inl (s, p, n, refl)))
Turn-split Turn.faults = inr (inr (inr refl))

abbrev shift_exit : ℕ → Exit → Exit
shift_exit k (returns p n) = returns p (k + n)
shift_exit k (leaves s p n) = leaves s p (k + n)

feed_shift :
    (k : ℕ) (s : State) (p : RedisParser) (n : ℕ) (chunk : Bytes)
    → feed s p (k + n) chunk ≡ (feed s p n chunk >>= λ e. some (shift_exit k e))
unfolding feed
feed_shift k s p n [] = refl
feed_shift k s p n (c ∷ rest) = elim (Turn-split (turn s c [] p)) [
  | inl (q, e) ↦ rw (e, feed) (ground arith)
  | inr (inl (q, m, e)) ↦ rw (e, feed) (ground arith)
  | inr (inr (inl (t, q, m, e))) ↦
      let same : k + n + 1 ≡ k + (n + 1) = omega arith in
      rw (e, feed, same) (feed_shift k t q (n + 1) rest)
  | inr (inr (inr e)) ↦ rw (e, feed) refl
]

-- The test behind the loop.
abbrev pub is_complete : State → RedisParser → Bool
is_complete s p = is_empty p.array_sizes && is_start s

end_value_open :
    (k : ℕ) (o : Option RedisParser) (t : State) (q : RedisParser) (n : ℕ)
    → end_value k o ≡ continues t q n
    → is_complete t q ≡ false
unfolding end_value
end_value_open k none t q n e = cc
end_value_open k (some p) t q n e = elim (Bool-cases (is_empty p.array_sizes)) [
  | inl f ↦ ground (arith, f)
  | inr f ↦ ground (arith, f)
]

end_turn_open :
    (w : Switch) (t : State) (q : RedisParser) (n : ℕ)
    → end_turn w ≡ continues t q n
    → is_complete t q ≡ false
unfolding end_turn
end_turn_open (fails p) t q n e = cc
end_turn_open (goes s p k) t q n e = elim (Bool-cases (is_start s)) [
  | inl f ↦ end_value_open k (store_value p) t q n (rw f at e)
  | inr f ↦ ground (arith, f)
]
end_turn_open Switch.faults t q n e = cc

-- The loop goes on only if no value is complete.
turn_open :
    (s : State) (c : ℕ) (rest : Bytes) (p : RedisParser) (t : State) (q : RedisParser) (n : ℕ)
    → turn s c rest p ≡ continues t q n
    → is_complete t q ≡ false
unfolding turn
turn_open s c rest p t q n = end_turn_open (switch s c rest p) t q n

-- What the loop goes on with behind the chunk, if it has not ended yet.
feed_rest : Bytes → Exit → Option Exit
feed_rest b (returns p n) = some (returns p n)
feed_rest b (leaves s p n) =
    let more = feed s p n b in if is_complete s p then some (leaves s p n) else more

module _ (b : Bytes) where
  abbrev Appends : Bytes → Type 0
  Appends a =
      (s : State) (p : RedisParser) (n : ℕ)
      → IsValid s p
      → is_complete s p ≡ false
      → feed s p n (a ++ b) ≡ (feed s p n a >>= feed_rest b)

  feed-append_cons :
      (c : ℕ) (a : Bytes) (s : State) (p : RedisParser) (n : ℕ)
      → Appends a
      → IsValid s p
      → feed s p n ((c ∷ a) ++ b) ≡ (feed s p n (c ∷ a) >>= feed_rest b)
  unfolding feed feed_rest
  feed-append_cons c a s p n ih v = elim (Turn-cases (turn s c [] p) [] (turn-IsValid s c [] p v)) [
    | inl (q, e, w) ↦ rw (e, feed) refl
    | inr (inl (q, k, e, w, l)) ↦ rw (e, feed, w.no_sizes) refl
    | inr (inr (t, q, k, e, w, l)) ↦ rw (e, feed) (ih t q (n + 1) w (turn_open s c [] p t q k e))
  ]

  feed-append : (a : Bytes) → Appends a
  unfolding feed feed_rest
  feed-append [] s p n v h = rw (h, feed_rest, feed) refl
  feed-append (c ∷ a) s p n v h = feed-append_cons c a s p n (feed-append a) v

-- A result with its position counted from `k` bytes before.
abbrev pub later : ℕ → Parsed → Option Parsed
later k r = some (record r { position = k + r.position })

-- The parse of what follows, with the position counted from the first chunk's begin on.
abbrev pub parse_rest : ℕ → Bytes → Parsed → Option Parsed
parse_rest k b r = elim r.result [ incompleted ↦ parse r.parser b >>= later k | _ ↦ some r ]

finish_shift :
    (k : ℕ) (o : Option Exit)
    → ((o >>= λ e. some (shift_exit k e)) >>= λ e. some (finish e))
      ≡ ((o >>= λ e. some (finish e)) >>= later k)
unfolding finish
finish_shift k none = refl
finish_shift k (some (returns p n)) = refl
finish_shift k (some (leaves s p n)) = ground arith

abbrev pub suspend : State → RedisParser → RedisParser
suspend s q = record q { states = s ∷ q.states }

feed-parse :
    (k : ℕ) (b : Bytes) (s : State) (q : RedisParser)
    → IsValid s q
    → (feed s q k b >>= λ x. some (finish x)) ≡ (parse (suspend s q) b >>= later k)
feed-parse k b s q v =
    let same : k ≡ k + 0 = omega arith in
    ap (λ m. feed s q m b >>= λ x. some (finish x)) same
    ∙ ap (λ o. o >>= λ x. some (finish x)) (feed_shift k s q 0 b)
    ∙ finish_shift k (feed s q 0 b)
    ∙ ap (λ o. o >>= later k) (sym (parse-feed (suspend s q) b v))

pub finish_closed :
    (s : State) (q : RedisParser) (n : ℕ)
    → is_complete s q ≡ true
    → finish (leaves s q n) ≡ record { position = n; result = completed; parser = q }
unfolding finish
finish_closed s q n e = rw e refl

pub finish_open :
    (s : State) (q : RedisParser) (n : ℕ)
    → is_complete s q ≡ false
    → finish (leaves s q n) ≡ record { position = n; result = incompleted; parser = suspend s q }
unfolding finish
finish_open s q n e = rw e refl

parse_rest-finish :
    (k : ℕ) (b : Bytes) (e : Exit)
    → IsReady (finish e).parser
    → ((finish e).result ≡ incompleted → (finish e).position ≡ k)
    → (feed_rest b e >>= λ x. some (finish x)) ≡ parse_rest k b (finish e)
unfolding feed_rest
parse_rest-finish k b (returns q n) v h = unfold finish in refl
parse_rest-finish k b (leaves s q n) v h = elim (Bool-cases (is_complete s q)) [
  | inl e ↦ rw (e, finish_closed s q n e) refl
  | inr e ↦
      let f = finish_open s q n e in
      let ready : IsValid s q = subst (λ r. IsReady r.parser) f v in
      let whole : n ≡ k =
        subst (λ (r : Parsed). r.result ≡ incompleted → r.position ≡ k) f h refl in
      rw (e, f, whole) (feed-parse k b s q ready)
]

finish-inv :
    (o : Option Exit) {r : Parsed}
    → (o >>= λ e. some (finish e)) ≡ some r
    → (x : Exit) × (o ≡ some x) × (finish x ≡ r)
finish-inv none e = cc
finish-inv (some x) e = (x, refl, cc)

position-incompleted :
    {chunk : Bytes} {r : Parsed}
    → ParsedIsValid chunk r
    → r.result ≡ incompleted
    → r.position ≡ length chunk
position-incompleted {chunk} {r} v e = subst (λ m. ResultSays m chunk r) e v.says

-- For a parser that calls of `parse` leave, and a first chunk that is not empty: if the chunk ends
-- no value, then `parse` on both chunks at once gives what `parse` on the second gives behind the
-- first, with the position counted from the first chunk's begin; if it ends one, or is refused,
-- what follows changes nothing.
pub parse-append :
    (p : RedisParser) (c : ℕ) (a b : Bytes) {r : Parsed}
    → IsReady p
    → parse p (c ∷ a) ≡ some r
    → parse p ((c ∷ a) ++ b) ≡ parse_rest (length (c ∷ a)) b r
parse-append p c a b {r} v e =
    let (x, fed, same) = finish-inv _ (sym (parse-feed p (c ∷ a) v) ∙ e) in
    let valid = parse-ParsedIsValid p (c ∷ a) v e in
    let said : r.result ≡ incompleted → r.position ≡ length (c ∷ a) = position-incompleted valid in
    parse-feed p ((c ∷ a) ++ b) v
    ∙ ap (λ o. o >>= λ y. some (finish y))
        (feed-append_cons b c a _ _ 0 (feed-append b a) v ∙ ap (λ o. o >>= feed_rest b) fed)
    ∙ subst (λ q. (feed_rest b x >>= λ y. some (finish y)) ≡ parse_rest (length (c ∷ a)) b q) same
        (parse_rest-finish (length (c ∷ a)) b x
          (subst (λ q. IsReady q.parser) (sym same) valid.ready)
          (subst (λ (q : Parsed). q.result ≡ incompleted → q.position ≡ length (c ∷ a)) (sym same)
            said))
