-- ===== src/Parser/Bytewise.antt =====
-- A chunk is parsed as its bytes are, one at a time: the copies that `Bulk` and `BulkSizeLF` make of
-- whole runs of bytes change nothing. `feed` is the loop over chunks of one byte.
pub mod Loop
use redisclient.Base.{
  ℕ, zero, suc, ◌+◌, ◌-◌, ◌^◌, ◌<◌, ◌≤◌, min, ◌≡◌, refl, subst, sym, ap, ◌∙◌, Bool, true, false,
  Option, none, some, List, [], ◌∷◌, ◌++◌, append-nil, append_assoc, if◌then◌else◌, length, drop,
  take, length-drop, Bytes, arith, ◌==◌, ltb, ◌⊎◌, inl, inr, Bool-cases, ◌>>=◌,
}
use redisclient.Base.Int.{ℤ, pos, negsuc, sub64, pos_part, neg_part, sub64_within, ltb_ℤ, IsInt64}
use redisclient.Parser.{
  State, start, start_array, string, string_lf, error_string, error_lf, integer, integer_lf,
  bulk_size, bulk_size_lf, bulk, bulk_cr, bulk_lf, array_size, array_size_lf, RedisParser,
  start_bulk, on_bulk, is_start, Switch, goes, fails, Turn, errors, breaks, continues, turn, switch,
  end_turn, store_value, end_value, expect,
}
use redisclient.Parser.Number.{buf_to_long}
use redisclient.Parser.Number.Laws.{buf_to_long-IsInt64}
use redisclient.Parser.Loop.{Exit, returns, leaves, read_loop}
use redisclient.Parser.Invariant.{IsValid, IsPos64}
use redisclient.Parser.Invariant.Loop.{turn-IsValid, TurnIsValid, Turn-cases}

unfoldable pub feed : State → RedisParser → ℕ → Bytes → Option Exit
feed s p position [] = some (leaves s p position)
feed s p position (c ∷ rest) = elim (turn s c [] p) [
  | errors q ↦ some (returns q (position + 1))
  | breaks q n ↦ some (leaves start q (position + 1))
  | continues t q n ↦ feed t q (position + 1) rest
  | Turn.faults ↦ none
]

-- Only these two states look at the bytes behind `c`.
abbrev pub reads_ahead : State → Bool
reads_ahead bulk = true
reads_ahead bulk_size_lf = true
reads_ahead _ = false

pub switch_one :
    (s : State) (c : ℕ) (rest : Bytes) (p : RedisParser)
    → reads_ahead s ≡ false
    → switch s c rest p ≡ switch s c [] p
unfolding switch
switch_one start c rest p h = refl
switch_one bulk c rest p h = cc
switch_one bulk_size_lf c rest p h = cc
switch_one _ c rest p h = refl

-- In `Bulk`, with `n` bytes missing, all of `rest` that belongs to the string has been read.
abbrev pub bulk_read : RedisParser → ℕ → Bytes → RedisParser
bulk_read p n rest = record p {
  buf = p.buf ++ take (min n (length rest)) rest;
  bulk_size = pos (n - min n (length rest));
}

abbrev pub bulk_state : ℕ → Bytes → State
bulk_state n rest = if ltb (length rest) n then bulk else bulk_cr

pub turn_bulk :
    (c : ℕ) (rest : Bytes) (p : RedisParser) (n : ℕ)
    → p.bulk_size ≡ pos (suc n)
    → suc n < 2 ^ 63
    → turn bulk c rest p
      ≡ continues
          (bulk_state (suc n) (c ∷ rest))
          (bulk_read p (suc n) (c ∷ rest))
          (min n (length rest))
unfolding turn switch end_turn
turn_bulk c rest p n e h = ground (arith, sub64_within p.bulk_size (min (length rest + 1) (suc n)))

pub turn_bulk_size :
    (rest : Bytes) (p : RedisParser) (n : ℕ)
    → buf_to_long p.buf ≡ pos (suc n)
    → suc n < 2 ^ 63
    → turn bulk_size_lf b'\n' rest p
      ≡ continues
          (bulk_state (suc n) rest)
          (bulk_read (record p { buf = [] }) (suc n) rest)
          (min (suc n) (length rest))
unfolding turn switch end_turn
turn_bulk_size rest p n e h = ground (arith, sub64_within (pos (suc n)) (min (suc n) (length rest)))

pub turn_bulk_size_one :
    (p : RedisParser) (n : ℕ)
    → buf_to_long p.buf ≡ pos (suc n)
    → suc n < 2 ^ 63
    → turn bulk_size_lf b'\n' [] p
      ≡ continues bulk (record p { buf = []; bulk_size = pos (suc n) }) 0
unfolding turn switch end_turn
turn_bulk_size_one p n e h = ground (arith, sub64_within (pos (suc n)) 0)

-- The bytes of a string read one at a time end where the copy ends.
pub feed-bulk :
    (rest : Bytes) (p : RedisParser) (n position : ℕ)
    → p.bulk_size ≡ pos (suc n)
    → suc n < 2 ^ 63
    → feed bulk p position rest
      ≡ feed
          (bulk_state (suc n) rest)
          (bulk_read p (suc n) rest)
          (position + min (suc n) (length rest))
          (drop (min (suc n) (length rest)) rest)
unfolding feed
feed-bulk [] p n position e h = ground (arith, append-nil p.buf)
feed-bulk (c ∷ rest) p zero position e h = ground (arith, turn_bulk c [] p zero e h)
feed-bulk (c ∷ rest) p (suc n) position e h = ground (
  arith,
  turn_bulk c [] p (suc n) e h,
  feed-bulk rest (bulk_read p (suc (suc n)) (c ∷ [])) n (position + 1),
  append_assoc p.buf (c ∷ []) (take (min (suc n) (length rest)) rest),
)
