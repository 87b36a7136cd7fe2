-- ===== src/Parser/Invariant/Loop.antt =====
-- The invariant of the parser through the loop and the calls of `parse`.
use redisclient.Base.{
  ℕ, subst, zero, suc, ◌+◌, ◌<◌, ◌≤◌, ◌≡◌, refl, true, false, Option, none, some, List, [], ◌∷◌,
  ◌&&◌, length, drop, length-drop, Bytes, arith, ◌>>=◌, Bool-cases, inl, inr, ◌⊎◌,
}
use redisclient.Base.Int.{ℤ}
use redisclient.Value.{RedisValue}
use redisclient.Parser.{
  State, start, ParseResult, completed, incompleted, error, RedisParser, Switch, goes, fails, Turn,
  errors, breaks, continues, turn, switch, end_turn, end_value, is_start, is_empty,
}
use redisclient.Parser.Loop.{
  Exit, returns, leaves, read_loop, finish, Parsed, parse_chunk, parse, top_state, resume_parser,
}
use redisclient.Parser.Invariant.{AreOpen, IsValid, IsIdle, SwitchIsValid, switch-IsValid}
use redisclient.Parser.Invariant.Completion.{Stored, store_value-Stored}

abbrev pub TurnIsValid : Bytes → Turn → Type 0
TurnIsValid rest (errors p) = IsValid start p
TurnIsValid rest (breaks p n) = IsIdle p × (n ≤ length rest)
TurnIsValid rest (continues s p n) = IsValid s p × (n ≤ length rest)
TurnIsValid rest Turn.faults = ⊥

AreOpen-empty :
    (sizes : List ℤ) (values : List RedisValue)
    → AreOpen sizes values
    → is_empty sizes ≡ true
    → (sizes ≡ []) × (values ≡ [])
AreOpen-empty [] [] h e = (refl, refl)
AreOpen-empty [] (v ∷ values) h e = absurd h
AreOpen-empty (n ∷ sizes) values h e = cc

end_value-IsValid :
    (n : ℕ) (rest : Bytes) (p : RedisParser)
    → IsValid start p
    → n ≤ length rest
    → TurnIsValid rest (end_value n (some p))
unfolding end_value
end_value-IsValid n rest p v h = elim (Bool-cases (is_empty p.array_sizes)) [
  | inl e ↦
      let (no_sizes, no_values) = AreOpen-empty p.array_sizes p.array_values v.are_open e in
      rw e (record { valid = v; no_sizes = no_sizes; no_values = no_values }, h)
  | inr e ↦ rw e (v, h)
]

Stored-IsValid : (p q : RedisParser) → IsValid start p → Stored p q → IsValid start q
Stored-IsValid p q v stored = ground arith

end_turn-IsValid :
    (rest : Bytes) (w : Switch) → SwitchIsValid rest w → TurnIsValid rest (end_turn w)
unfolding end_turn
end_turn-IsValid rest (fails p) v = v
end_turn-IsValid rest (goes start p n) (v, h) =
    let (q, e, stored) = store_value-Stored p v.are_open in
    rw e (end_value-IsValid n rest q (Stored-IsValid p q v stored) h)
end_turn-IsValid rest (goes _ p n) v = v
end_turn-IsValid rest Switch.faults v = v

pub turn-IsValid :
    (s : State) (c : ℕ) (rest : Bytes) (p : RedisParser)
    → IsValid s p
    → TurnIsValid rest (turn s c rest p)
unfolding turn
turn-IsValid s c rest p v = end_turn-IsValid rest (switch s c rest p) (switch-IsValid s c rest p v)

-- What the loop over `chunk` ends with, from `position` on.
abbrev ExitIsValid : Bytes → ℕ → Option Exit → Type 0
ExitIsValid chunk position none = ⊥
ExitIsValid chunk position (some (returns q n)) =
    IsValid start q × (position < n) × (n ≤ position + length chunk)
ExitIsValid chunk position (some (leaves s q n)) =
    IsValid s q
    × ((n ≡ position + length chunk) ⊎ ((s ≡ start) × IsIdle q × (position < n)))
    × (n ≤ position + length chunk)

-- The rest of the loop, after a round that read `k` bytes.
ExitIsValid-later :
    (c : ℕ) (rest : Bytes) (position k : ℕ) (o : Option Exit)
    → k ≤ length rest
    → ExitIsValid (drop k rest) (position + 1 + k) o
    → ExitIsValid (c ∷ rest) position o
ExitIsValid-later c rest position k none h v = v
ExitIsValid-later c rest position k (some (returns q n)) h v =
    (v.0, omega arith, omega (arith, length-drop k rest))
ExitIsValid-later c rest position k (some (leaves s q n)) h (v, inl e, b) =
    (v, inl (omega (arith, length-drop k rest)), omega (arith, length-drop k rest))
ExitIsValid-later c rest position k (some (leaves s q n)) h (v, inr (a, i, l), b) =
    (v, inr (a, i, omega arith), omega (arith, length-drop k rest))

pub Turn-cases :
    (w : Turn) (rest : Bytes)
    → TurnIsValid rest w
    → ((p : RedisParser) × (w ≡ errors p) × IsValid start p)
      ⊎ ((p : RedisParser) × (n : ℕ) × (w ≡ breaks p n) × IsIdle p × (n ≤ length rest))
      ⊎ ((s : State) × (p : RedisParser) × (n : ℕ) × (w ≡ continues s p n)
          × IsValid s p
          × (n ≤ length rest))
Turn-cases (errors p) rest v = inl (p, refl, v)
Turn-cases (breaks p n) rest v = inr (inl (p, n, refl, v.0, v.1))
Turn-cases (continues s p n) rest v = inr (inr (s, p, n, refl, v.0, v.1))
Turn-cases Turn.faults rest v = absurd v

-- With the chunk's size as fuel the loop ends, without a fault.
read_loop-IsValid :
    (fuel : ℕ) (s : State) (p : RedisParser) (position : ℕ) (chunk : Bytes)
    → length chunk ≤ fuel
    → IsValid s p
    → ExitIsValid chunk position (read_loop fuel s p position chunk)
unfolding read_loop
read_loop-IsValid zero s p position [] h v = (v, inl (omega arith), omega arith)
read_loop-IsValid (suc fuel) s p position [] h v = (v, inl (omega arith), omega arith)
read_loop-IsValid zero s p position (c ∷ rest) h v = absurd (omega arith)
read_loop-IsValid (suc fuel) s p position (c ∷ rest) h v =
    elim (Turn-cases (turn s c rest p) rest (turn-IsValid s c rest p v)) [
      | inl (q, e, w) ↦ rw (e, read_loop) (w, omega arith, omega arith)
      | inr (inl (q, n, e, w, l)) ↦
          rw (e, read_loop) (w.valid, inr (refl, w, omega arith), omega arith)
      | inr (inr (t, q, n, e, w, l)) ↦
          rw (e, read_loop)
            (ExitIsValid-later c rest position n _ l (
              read_loop-IsValid fuel t q (position + 1 + n) (drop n rest)
                (omega (arith, length-drop n rest)) w))
    ]

-- Between the calls of `parse`.
abbrev pub IsReady : RedisParser → Type 0
IsReady p = IsValid (top_state p.states) (resume_parser p)

abbrev pub ResultSays : ParseResult → Bytes → Parsed → Type 0
ResultSays completed chunk r = IsIdle r.parser
ResultSays incompleted chunk r = r.position ≡ length chunk
ResultSays error chunk r = r.parser.states ≡ []

pub record ParsedIsValid (chunk : Bytes) (r : Parsed) : Type 0 where
  pub ready : IsReady r.parser
  pub within : r.position ≤ length chunk
  pub progress : 0 < length chunk → 0 < r.position
  pub says : ResultSays r.result chunk r

returns-IsValid :
    (chunk : Bytes) (q : RedisParser) (n : ℕ)
    → ExitIsValid chunk 0 (some (returns q n))
    → ParsedIsValid chunk (finish (returns q n))
unfolding finish
returns-IsValid chunk q n v = ground arith

completed-IsValid :
    (chunk : Bytes) (s : State) (q : RedisParser) (n : ℕ)
    → ExitIsValid chunk 0 (some (leaves s q n))
    → is_empty q.array_sizes ≡ true
    → is_start s ≡ true
    → ParsedIsValid chunk (finish (leaves s q n))
unfolding finish
completed-IsValid chunk start q n v e f =
    let (no_sizes, no_values) = AreOpen-empty q.array_sizes q.array_values v.0.are_open e in
    ground arith
completed-IsValid chunk _ q n v e f = cc

incompleted-IsValid :
    (chunk : Bytes) (s : State) (q : RedisParser) (n : ℕ)
    → ExitIsValid chunk 0 (some (leaves s q n))
    → (is_empty q.array_sizes && is_start s) ≡ false
    → ParsedIsValid chunk (finish (leaves s q n))
unfolding finish
incompleted-IsValid chunk s q n (v, inl e, b) f = ground arith
incompleted-IsValid chunk s q n (v, inr (a, i, l), b) f = ground (arith, i.no_sizes)

leaves-IsValid :
    (chunk : Bytes) (s : State) (q : RedisParser) (n : ℕ)
    → ExitIsValid chunk 0 (some (leaves s q n))
    → ParsedIsValid chunk (finish (leaves s q n))
leaves-IsValid chunk s q n v = elim (Bool-cases (is_empty q.array_sizes && is_start s)) [
  | inl e ↦ completed-IsValid chunk s q n v (ground arith) (ground arith)
  | inr e ↦ incompleted-IsValid chunk s q n v e
]

finish-IsValid :
    (chunk : Bytes) (o : Option Exit)
    → ExitIsValid chunk 0 o
    → (r : Parsed) × ((o >>= λ e. some (finish e)) ≡ some r) × ParsedIsValid chunk r
finish-IsValid chunk none v = absurd v
finish-IsValid chunk (some (returns q n)) v = (_, refl, returns-IsValid chunk q n v)
finish-IsValid chunk (some (leaves s q n)) v = (_, refl, leaves-IsValid chunk s q n v)

pub parse-IsValid :
    (p : RedisParser) (chunk : Bytes)
    → IsReady p
    → (r : Parsed) × (parse p chunk ≡ some r) × ParsedIsValid chunk r
unfolding parse parse_chunk
parse-IsValid p chunk v = finish-IsValid chunk _ (
    read_loop-IsValid (length chunk) (top_state p.states) (resume_parser p) 0 chunk (omega arith) v)

-- The same of what `parse` is known to return.
pub parse-ParsedIsValid :
    (p : RedisParser) (chunk : Bytes) {r : Parsed}
    → IsReady p
    → parse p chunk ≡ some r
    → ParsedIsValid chunk r
parse-ParsedIsValid p chunk v e =
    let (s, f, w) = parse-IsValid p chunk v in subst (ParsedIsValid chunk) (cc) w

pub ParseResult-cases : (x : ParseResult) → (x ≡ completed) ⊎ (x ≡ incompleted) ⊎ (x ≡ error)
ParseResult-cases completed = inl refl
ParseResult-cases incompleted = inr (inl refl)
ParseResult-cases error = inr (inr refl)
