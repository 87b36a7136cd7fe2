-- ===== src/Parser/Invariant.antt =====
-- What holds of the parser between two bytes, and between two chunks: the stack of states is empty
-- while the loop runs, each open array waits for at least one item, and `Bulk` for one byte.
pub mod Completion
pub mod Loop
use redisclient.Base.{
  refl, ℕ, zero, suc, ◌+◌, ◌-◌, ◌^◌, ◌<◌, ◌≤◌, min, ◌≡◌, refl, Bool, true, false, Option, none,
  some, List, [], ◌∷◌, ◌++◌, if◌then◌else◌, length, Bytes, arith, ◌==◌, ltb, ◌>>=◌, Bool-cases, inl,
  inr,
}
use redisclient.Base.Int.{
  ℤ, pos, negsuc, sub64, pos_part, neg_part, ltb_ℤ, ◌==ℤ◌, IsInt64, sub64_within,
}
use redisclient.Value.{
  RedisValue, Values, null_value, int_value, bytes_value, error_value, array_value, is_array,
  get_array, redis_value, null_tag, int64, byte_array, array, push_back, nil,
}
use redisclient.Parser.{
  State, start, start_array, string, string_lf, error_string, error_lf, integer, integer_lf,
  bulk_size, bulk_size_lf, bulk, bulk_cr, bulk_lf, array_size, array_size_lf, RedisParser,
  new_parser, Switch, goes, fails, Turn, errors, breaks, continues, turn, switch, end_turn,
  end_value, store_value, Stacks, push_top, push_if_open, close_top, close_arrays, put_stacks,
  is_start, start_bulk, on_bulk, start_items, is_empty,
}
use redisclient.Parser.Number.{buf_to_long}
use redisclient.Parser.Number.Laws.{buf_to_long-IsInt64}

abbrev pub IsPos64 : ℤ → Type 0
IsPos64 (pos n) = (0 < n) × (n < 2 ^ 63)
IsPos64 (negsuc n) = ⊥

-- Each open array has a number of items still to come, and is an array.
abbrev pub AreOpen : List ℤ → List RedisValue → Type 0
AreOpen [] [] = Unit
AreOpen (n ∷ sizes) (v ∷ values) = IsPos64 n × (is_array v ≡ true) × AreOpen sizes values
AreOpen _ _ = ⊥

abbrev pub BulkLeft : State → ℤ → Type 0
BulkLeft bulk size = IsPos64 size
BulkLeft _ size = Unit

-- In the loop, in state `s`.
pub record IsValid (s : State) (p : RedisParser) : Type 0 where
  pub no_states : p.states ≡ []
  pub bulk_range : IsInt64 p.bulk_size
  pub bulk_left : BulkLeft s p.bulk_size
  pub are_open : AreOpen p.array_sizes p.array_values

-- Values complete: no array is open.
pub record IsIdle (p : RedisParser) : Type 0 where
  pub valid : IsValid start p
  pub no_sizes : p.array_sizes ≡ []
  pub no_values : p.array_values ≡ []

-- A new parser is idle.
pub new_parser-IsIdle : IsIdle new_parser
new_parser-IsIdle = record {
  valid = record { no_states = refl; bulk_range = omega arith; bulk_left = tt; are_open = tt };
  no_sizes = refl;
  no_values = refl;
}

abbrev pub SwitchIsValid : Bytes → Switch → Type 0
SwitchIsValid rest (fails p) = IsValid start p
SwitchIsValid rest (goes s p n) = IsValid s p × (n ≤ length rest)
SwitchIsValid rest Switch.faults = ⊥

start_bulk-IsValid :
    (p : RedisParser) (rest : Bytes) → IsValid start p → SwitchIsValid rest (start_bulk p rest)
unfolding start_bulk
start_bulk-IsValid p rest v =
    ground (arith, sub64_within p.bulk_size (min (pos_part p.bulk_size) (length rest)))

on_bulk-IsValid :
    (p : RedisParser) (c : ℕ) (rest : Bytes)
    → IsValid bulk p
    → SwitchIsValid rest (on_bulk c rest p)
unfolding on_bulk
on_bulk-IsValid p c rest v =
    ground (arith, sub64_within p.bulk_size (min (length rest + 1) (pos_part p.bulk_size)))

start_items-IsValid :
    (p : RedisParser) (size : ℤ) (rest : Bytes)
    → IsInt64 size
    → IsValid start p
    → SwitchIsValid rest (start_items size p)
unfolding start_items is_array
start_items-IsValid p size rest h v = ground arith

pub switch-IsValid :
    (s : State) (c : ℕ) (rest : Bytes) (p : RedisParser)
    → IsValid s p
    → SwitchIsValid rest (switch s c rest p)
unfolding switch
switch-IsValid bulk_size_lf c rest p v = ground (
  arith,
  buf_to_long-IsInt64 p.buf,
  start_bulk-IsValid (record p { bulk_size = buf_to_long p.buf; buf = [] }) rest,
)
switch-IsValid bulk c rest p v = on_bulk-IsValid p c rest v
switch-IsValid array_size_lf c rest p v =
    ground (arith, start_items-IsValid p (buf_to_long p.buf) rest (buf_to_long-IsInt64 p.buf))
switch-IsValid _ c rest p v = ground arith
