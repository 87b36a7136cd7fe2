-- ===== src/Resp/Reference.antt =====
-- No code: a reader of the Redis protocol by recursion on what is to come, as a specification of
-- the state machine in src/redisclient/impl/redisparser.cpp on every input, malformed ones too. It
-- has no states and no stacks; the bytes it takes for a number are read by `buf_to_long`.
pub mod Lines
pub mod Rest
pub mod Strings
pub mod Scalars
pub mod Items
pub mod Equivalence
pub mod Tests
use redisclient.Base.{
  ℕ, zero, suc, ◌+◌, ◌*◌, Bool, List, [], ◌∷◌, ◌==◌, ltb, if◌then◌else◌, length, take, drop, Bytes,
}
use redisclient.Base.Int.{ℤ, pos, negsuc}
use redisclient.Value.{
  RedisValue, Values, nil, null_value, int_value, bytes_value, error_value, array_value, push_back,
}
use redisclient.Parser.Number.{buf_to_long}
use redisclient.Resp.{is_text}
use redisclient.Resp.Lines.{is_number}

-- A value and the bytes behind it; or more bytes are wanted; or the bytes are refused. The fuel is
-- never exhausted (Resp.Reference.Equivalence).
pub data Answer : Type 0 where
  done : RedisValue → Bytes → Answer
  wants_more refused exhausted : Answer

-- The bytes up to a carriage return, and those behind it; or there is none yet; or a byte in front
-- of it is refused.
pub data Line : Type 0 where
  ended : Bytes → Bytes → Line
  cut bad : Line

abbrev pub cons_line : ℕ → Line → Line
cons_line c (ended text rest) = ended (c ∷ text) rest
cons_line c cut = cut
cons_line c bad = bad

unfoldable pub take_line : (ℕ → Bool) → Bytes → Line
take_line good [] = cut
take_line good (c ∷ rest) =
    let later = cons_line c (take_line good rest) in
    if c == b'\r' then ended [] rest else if good c then later else bad

-- A number is not empty.
unfoldable pub take_number : Bytes → Line
unfolding take_line
take_number [] = cut
take_number (c ∷ rest) = if c == b'\r' then bad else take_line is_number (c ∷ rest)

abbrev pub behind_lf : Bytes → (Bytes → Answer) → Answer
behind_lf [] next = wants_more
behind_lf (c ∷ rest) next = if c == b'\n' then next rest else refused

abbrev pub behind_line : Line → (Bytes → Bytes → Answer) → Answer
behind_line (ended text rest) next = behind_lf rest (next text)
behind_line cut next = wants_more
behind_line bad next = refused

-- A string of known bytes: the line's end is to come.
abbrev pub end_string : Bytes → Bytes → Answer
end_string s [] = wants_more
end_string s (c ∷ rest) =
    if c == b'\r' then behind_lf rest (λ behind. done (bytes_value s) behind) else refused

abbrev pub take_string : ℕ → Bytes → Answer
take_string n rest =
    if ltb (length rest) n then wants_more else end_string (take n rest) (drop n rest)

abbrev pub string_of : ℤ → Bytes → Answer
string_of (pos n) rest = take_string n rest
string_of (negsuc zero) rest = done null_value rest
string_of (negsuc (suc n)) rest = refused

-- An array of known size; `items` reads that many items and one more.
abbrev pub array_of : (ℕ → Bytes → Answer) → ℤ → Bytes → Answer
array_of items (pos zero) rest = done (array_value nil) rest
array_of items (pos (suc k)) rest = items k rest
array_of items (negsuc zero) rest = done null_value rest
array_of items (negsuc (suc n)) rest = refused

-- Behind an item, with `k` items to come.
abbrev pub behind_item : Answer → ℕ → Values → (ℕ → Values → Bytes → Answer) → Answer
behind_item (done v rest) zero items next = done (array_value (push_back items v)) rest
behind_item (done v rest) (suc k) items next = next k (push_back items v) rest
behind_item wants_more k items next = wants_more
behind_item refused k items next = refused
behind_item exhausted k items next = exhausted

-- A value that begins with the byte `c`
abbrev pub begin_value : ℕ → Bytes → (ℕ → Bytes → Answer) → Answer
begin_value c rest items =
    if c == b'+'
    then behind_line (take_line is_text rest) (λ text behind. done (bytes_value text) behind)
    else if c == b'-'
    then behind_line (take_line is_text rest) (λ text behind. done (error_value text) behind)
    else if c == b':'
    then behind_line (take_number rest) (λ text behind. done (int_value (buf_to_long text)) behind)
    else if c == b'$'
    then behind_line (take_number rest) (λ text behind. string_of (buf_to_long text) behind)
    else if c == b'*'
    then behind_line (take_number rest) (λ text behind. array_of items (buf_to_long text) behind)
    else refused

unfoldable mutual
  pub read_value : ℕ → Bytes → Answer
  read_value fuel [] = wants_more
  read_value zero (c ∷ rest) = exhausted
  read_value (suc fuel) (c ∷ rest) = begin_value c rest (λ k behind. read_items fuel k nil behind)

  -- `k` items and one more, behind some
  pub read_items : ℕ → ℕ → Values → Bytes → Answer
  read_items zero k items text = exhausted
  read_items (suc fuel) k items text =
      behind_item (read_value fuel text) k items (λ j more rest. read_items fuel j more rest)

-- Two calls for each byte are enough.
unfoldable pub read_reply : Bytes → Answer
unfolding read_value
read_reply text = read_value (length text * 2 + 1) text
