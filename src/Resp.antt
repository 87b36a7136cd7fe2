-- ===== src/Resp.antt =====
-- The replies of the Redis protocol (RESP), as a specification of what `RedisParser` reads: the
-- abstract replies, how a server prints them, and the `RedisValue` that each stands for.
-- https://redis.io/topics/protocol, and the inputs of tests/parsertest.cpp.
pub mod Lines
pub mod Turns
pub mod Scalars
pub mod RoundTrip
pub mod Recovery
pub mod Reference
pub mod Tests
use redisclient.Base.{
  ℕ, suc, ◌^◌, ◌<◌, ◌≡◌, Bool, true, not, ◌&&◌, [], ◌∷◌, ◌++◌, length, Bytes, All,
}
use redisclient.Base.Int.{ℤ, IsInt64}
use redisclient.Decimal.{decimal, decimal_ℤ}
use redisclient.Value.{
  RedisValue, Values, nil, cons, null_value, int_value, bytes_value, error_value, array_value,
}
use redisclient.Parser.{is_char, is_control}

mutual
  pub data Reply : Type 0 where
    status : Bytes → Reply
    failure : Bytes → Reply
    integer : ℤ → Reply
    bulk : Bytes → Reply
    null_bulk : Reply
    null_array : Reply
    array : Replies → Reply

  pub data Replies : Type 0 where
    none_left : Replies
    more : Reply → Replies → Replies

abbrev pub count : Replies → ℕ
count none_left = 0
count (more r rs) = suc (count rs)

abbrev pub crlf_then : Bytes → Bytes
crlf_then rest = b'\r' ∷ b'\n' ∷ rest

unfoldable mutual
  -- the reply's bytes, with `rest` behind them
  pub print : Reply → Bytes → Bytes
  print (status s) rest = b'+' ∷ (s ++ crlf_then rest)
  print (failure s) rest = b'-' ∷ (s ++ crlf_then rest)
  print (integer z) rest = b':' ∷ (decimal_ℤ z ++ crlf_then rest)
  print (bulk s) rest = b'$' ∷ (decimal (length s) ++ crlf_then (s ++ crlf_then rest))
  print null_bulk rest = b'$' ∷ b'-' ∷ b'1' ∷ crlf_then rest
  print null_array rest = b'*' ∷ b'-' ∷ b'1' ∷ crlf_then rest
  print (array rs) rest = b'*' ∷ (decimal (count rs) ++ crlf_then (print_all rs rest))

  pub print_all : Replies → Bytes → Bytes
  print_all none_left rest = rest
  print_all (more r rs) rest = print r (print_all rs rest)

abbrev mutual
  -- the value that the client gets
  pub value_of : Reply → RedisValue
  value_of (status s) = bytes_value s
  value_of (failure s) = error_value s
  value_of (integer z) = int_value z
  value_of (bulk s) = bytes_value s
  value_of null_bulk = null_value
  value_of null_array = null_value
  value_of (array rs) = array_value (values_of rs)

  pub values_of : Replies → Values
  values_of none_left = nil
  values_of (more r rs) = cons (value_of r) (values_of rs)

-- A character of a status or an error: neither a control character nor beyond ASCII.
unfoldable pub is_text : ℕ → Bool
is_text c = is_char c && not (is_control c)

abbrev mutual
  -- What can be printed: lengths and numbers fit in 64 bits, a line holds text.
  pub IsPrintable : Reply → Type 0
  IsPrintable (status s) = All (λ c. is_text c ≡ true) s
  IsPrintable (failure s) = All (λ c. is_text c ≡ true) s
  IsPrintable (integer z) = IsInt64 z
  IsPrintable (bulk s) = length s < 2 ^ 63
  IsPrintable null_bulk = Unit
  IsPrintable null_array = Unit
  IsPrintable (array rs) = (count rs < 2 ^ 63) × ArePrintable rs

  pub ArePrintable : Replies → Type 0
  ArePrintable none_left = Unit
  ArePrintable (more r rs) = IsPrintable r × ArePrintable rs
