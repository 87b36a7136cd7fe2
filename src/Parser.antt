-- ===== src/Parser.antt =====
-- src/redisclient/redisparser.h and src/redisclient/impl/redisparser.cpp: the state of the class
-- `RedisParser`, and the body of one round of the loop in `parseChunk` (`turn`). The loop itself is
-- in Parser.Loop, `bufToLong` in Parser.Number.
--
-- The pointer and the size are the list of the bytes not yet read. `reserve` has no counterpart.
-- `faults` stands for undefined behaviour and for the exception of `getArray`: `top()` of an empty
-- stack, an array that is no array, and `Bulk` with nothing to read (which an assertion excludes).
pub mod Number
pub mod Loop
pub mod Invariant
pub mod Bytewise
pub mod Chunks
pub mod Tests
use redisclient.Base.{
  ℕ, zero, suc, ◌+◌, ◌-◌, min, Bool, true, false, not, ◌&&◌, ◌||◌, Option, none, some, List, [],
  ◌∷◌, ◌++◌, ◌==◌, leb, if◌then◌else◌, ◌>>=◌, length, take, Bytes,
}
use redisclient.Base.Int.{ℤ, pos, negsuc, pos_part, ◌==ℤ◌, ltb_ℤ, sub64}
use redisclient.Decimal.{is_digit}
use redisclient.Value.{
  RedisValue, Values, nil, null_value, int_value, bytes_value, error_value, array_value, get_array,
  push_back,
}
use Number.{buf_to_long}

pub data State : Type 0 where
  start start_array string string_lf error_string error_lf integer integer_lf : State
  bulk_size bulk_size_lf bulk bulk_cr bulk_lf array_size array_size_lf : State

pub data ParseResult : Type 0 where
  completed incompleted error : ParseResult

-- A stack's top is the head of its list.
pub record RedisParser : Type 0 where
  pub states : List State
  pub bulk_size : ℤ
  pub buf : Bytes
  pub redis_value : RedisValue
  pub array_sizes : List ℤ
  pub array_values : List RedisValue

-- The constructor; `bulkSize(0)` is the one member that it initialises.
abbrev pub new_parser : RedisParser
new_parser = record {
  states = [];
  bulk_size = pos 0;
  buf = [];
  redis_value = null_value;
  array_sizes = [];
  array_values = [];
}

-- `char` is signed, so a byte from 128 on is a negative number and no character.
unfoldable pub is_char : ℕ → Bool
is_char c = leb c 127

unfoldable pub is_control : ℕ → Bool
is_control c = leb c 31 || c == 127

-- How the `switch` on the state ends: by `return make_pair(position, Error)`, or by a `break` after
-- it has set the state, with that many bytes read behind the byte `c`.
pub data Switch : Type 0 where
  fails : RedisParser → Switch
  goes : State → RedisParser → ℕ → Switch
  faults : Switch

-- `std::stack<State>().swap(states); return std::make_pair(position, Error);`
abbrev fail : RedisParser → Switch
fail p = fails (record p { states = [] })

abbrev go : State → RedisParser → Switch
go s p = goes s p 0

abbrev keep : State → RedisParser → ℕ → Switch
keep s p c = go s (record p { buf = p.buf ++ c ∷ [] })

abbrev set_value : RedisParser → RedisValue → RedisParser
set_value p v = record p { redis_value = v }

-- `case StartArray: case Start:`, the buffer cleared
on_start : ℕ → RedisParser → Switch
on_start c p =
    if c == b'+'
    then go string p
    else if c == b'-'
    then go error_string p
    else if c == b':'
    then go integer p
    else if c == b'$'
    then go State.bulk_size (record p { bulk_size = pos 0 })
    else if c == b'*'
    then go array_size p
    else fails p

-- `case String:` and `case ErrorString:`
on_text : State → State → ℕ → RedisParser → Switch
unfolding is_char is_control
on_text self lf c p =
    if c == b'\r'
    then go lf p
    else if is_char c && not (is_control c)
    then keep self p c
    else fail p

-- `buf.empty()`
abbrev pub is_empty {ℓ} : {A : Type ℓ} → List A → Bool
is_empty [] = true
is_empty (_ ∷ _) = false

-- `case BulkSize:`, `case ArraySize:` and `case Integer:`
on_number : State → State → ℕ → RedisParser → Switch
unfolding is_digit
on_number self lf c p =
    if c == b'\r'
    then (if is_empty p.buf then fail p else go lf p)
    else if is_digit c || c == b'-'
    then keep self p c
    else fail p

-- The size has been read: `position` stands behind the line feed, before `rest`.
start_bulk : RedisParser → Bytes → Switch
start_bulk p rest =
    if p.bulk_size ==ℤ negsuc 0
    then go start (set_value p null_value)
    else if p.bulk_size ==ℤ pos 0
    then go bulk_cr p
    else if ltb_ℤ p.bulk_size (pos 0)
    then fail p
    else (let can_read = min (pos_part p.bulk_size) (length rest) in
        let left = sub64 p.bulk_size (pos can_read) in
        let buf = if ltb_ℤ (pos 0) (pos can_read) then take can_read rest else p.buf in
        goes (if ltb_ℤ (pos 0) left then bulk else bulk_cr)
          (record p { buf = buf; bulk_size = left }) can_read)

-- `case Bulk:`; what can be read begins with the byte `c`.
on_bulk : ℕ → Bytes → RedisParser → Switch
on_bulk c rest p =
    if ltb_ℤ (pos 0) p.bulk_size
    then (let can_read = min (length rest + 1) (pos_part p.bulk_size) in
        let left = sub64 p.bulk_size (pos can_read) in
        goes (if left ==ℤ pos 0 then bulk_cr else bulk)
          (record p { buf = p.buf ++ take can_read (c ∷ rest); bulk_size = left }) (can_read - 1))
    else faults

-- `case ArraySizeLF:` after the line feed, with `arraySize`
start_items : ℤ → RedisParser → Switch
start_items size p =
    if size ==ℤ negsuc 0
    then go start (set_value p null_value)
    else if size ==ℤ pos 0
    then go start (set_value p (array_value nil))
    else if ltb_ℤ size (pos 0)
    then fail p
    else go start_array (record p {
      array_sizes = size ∷ p.array_sizes;
      array_values = array_value nil ∷ p.array_values;
    })

-- The cases that wait for one byte.
expect : ℕ → ℕ → RedisParser → Switch → Switch
expect wanted c p done = if c == wanted then done else fail p

-- The `switch` on the state, for the byte `c` with `rest` behind it.
unfoldable pub switch : State → ℕ → Bytes → RedisParser → Switch
unfolding on_start on_text on_number start_bulk on_bulk start_items expect
switch start c rest p = on_start c (record p { buf = [] })
switch start_array c rest p = on_start c (record p { buf = [] })
switch string c rest p = on_text string string_lf c p
switch string_lf c rest p = expect b'\n' c p (go start (set_value p (bytes_value p.buf)))
switch error_string c rest p = on_text error_string error_lf c p
switch error_lf c rest p = expect b'\n' c p (go start (set_value p (error_value p.buf)))
switch integer c rest p = on_number integer integer_lf c p
switch integer_lf c rest p =
    expect b'\n' c p (go start (record p { buf = []; redis_value = int_value (buf_to_long p.buf) }))
switch bulk_size c rest p = on_number bulk_size bulk_size_lf c p
switch bulk_size_lf c rest p =
    expect b'\n' c p (start_bulk (record p { bulk_size = buf_to_long p.buf; buf = [] }) rest)
switch bulk c rest p = on_bulk c rest p
switch bulk_cr c rest p = expect b'\r' c p (go bulk_lf p)
switch bulk_lf c rest p = expect b'\n' c p (go start (set_value p (bytes_value p.buf)))
switch array_size c rest p = on_number array_size array_size_lf c p
switch array_size_lf c rest p = expect b'\n' c p (start_items (buf_to_long p.buf) p)

-- `arrayValues.top().getArray().push_back(v)`
unfoldable pub push_top : RedisValue → List RedisValue → Option (List RedisValue)
push_top v [] = none
push_top v (top ∷ below) = get_array top >>= λ items. some (array_value (push_back items v) ∷ below)

-- `if (!arraySizes.empty()) arrayValues.top().getArray().push_back(redisValue);`
unfoldable pub push_if_open : RedisValue → List ℤ → List RedisValue → Option (List RedisValue)
push_if_open v [] values = some values
push_if_open v (_ ∷ _) values = push_top v values

-- `while(!arraySizes.empty() && --arraySizes.top() == 0)`: the stacks, and `redisValue`.
pub record Stacks : Type 0 where
  pub sizes : List ℤ
  pub values : List RedisValue
  pub value : RedisValue

-- The loop's body, the size's entry popped off; `close` is the rest of the loop.
unfoldable pub close_top :
    List ℤ → List RedisValue → (List RedisValue → RedisValue → Option Stacks) → Option Stacks
close_top sizes [] close = none
close_top sizes (top ∷ below) close = push_if_open top sizes below >>= λ values. close values top

unfoldable pub close_arrays : List ℤ → List RedisValue → RedisValue → Option Stacks
close_arrays [] values v = some (record { sizes = []; values = values; value = v })
close_arrays (n ∷ sizes) values v =
    let left = sub64 n (pos 1) in
    let closed = close_top sizes values (close_arrays sizes) in
    if left ==ℤ pos 0
    then closed
    else some (record { sizes = left ∷ sizes; values = values; value = v })

abbrev pub put_stacks : RedisParser → Stacks → RedisParser
put_stacks p s = record p { array_sizes = s.sizes; array_values = s.values; redis_value = s.value }

-- `if (!arraySizes.empty()) { … }` after `state == Start`: a value is complete.
unfoldable pub store_value : RedisParser → Option RedisParser
store_value p = push_if_open p.redis_value p.array_sizes p.array_values >>= λ values.
    close_arrays p.array_sizes values p.redis_value >>= λ s. some (put_stacks p s)

abbrev pub is_start : State → Bool
is_start start = true
is_start _ = false

-- How a round of the loop ends: by the return with `Error`, by the `break` at a complete value, or
-- at the loop's end; again with the number of bytes read behind `c`.
pub data Turn : Type 0 where
  errors : RedisParser → Turn
  breaks : RedisParser → ℕ → Turn
  continues : State → RedisParser → ℕ → Turn
  faults : Turn

-- `if (state == Start) { … if (arraySizes.empty()) break; }`
unfoldable pub end_value : ℕ → Option RedisParser → Turn
end_value n none = Turn.faults
end_value n (some p) = if is_empty p.array_sizes then breaks p n else continues start p n

unfoldable pub end_turn : Switch → Turn
end_turn (fails p) = errors p
end_turn (goes s p n) = if is_start s then end_value n (store_value p) else continues s p n
end_turn Switch.faults = Turn.faults

unfoldable pub turn : State → ℕ → Bytes → RedisParser → Turn
turn s c rest p = end_turn (switch s c rest p)
