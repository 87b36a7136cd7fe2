-- ===== src/Value.antt =====
-- src/redisclient/redisvalue.h and src/redisclient/impl/redisvalue.cpp: the class `RedisValue`, a
-- `boost::variant` with an error flag. A vector of values is the data type `Values` of the same
-- block. The move constructor and the assignments copy: a moved-from value is not read again.
pub mod Inspect
pub mod Equality
pub mod Accessors
pub mod Tests
use redisclient.Base.{ℕ, zero, suc, Bool, true, false, not, Option, none, some, [], Bytes}
use redisclient.Base.Int.{ℤ, pos}

mutual
  -- the variant's value, and the member `error`
  pub data RedisValue : Type 0 where
    redis_value : Variant → Bool → RedisValue

  -- boost::variant<NullTag, int64_t, std::vector<char>, std::vector<RedisValue>>
  pub data Variant : Type 0 where
    null_tag : Variant
    int64 : ℤ → Variant
    byte_array : Bytes → Variant
    array : Values → Variant

  -- std::vector<RedisValue>
  pub data Values : Type 0 where
    nil : Values
    cons : RedisValue → Values → Values

-- The constructors of the class, one for each argument type.
abbrev pub null_value : RedisValue
null_value = redis_value null_tag false

abbrev pub int_value : ℤ → RedisValue
int_value i = redis_value (int64 i) false

abbrev pub bytes_value : Bytes → RedisValue
bytes_value buf = redis_value (byte_array buf) false

abbrev pub error_value : Bytes → RedisValue
error_value buf = redis_value (byte_array buf) true

abbrev pub array_value : Values → RedisValue
array_value items = redis_value (array items) false

-- `value.type()`, as the index of the variant's alternative.
abbrev pub data_of : RedisValue → Variant
data_of (redis_value v e) = v

unfoldable pub is_error : RedisValue → Bool
is_error (redis_value v e) = e

unfoldable pub is_ok : RedisValue → Bool
unfolding is_error
is_ok v = not (is_error v)

abbrev null_type : Variant → Bool
null_type null_tag = true
null_type _ = false

abbrev int_type : Variant → Bool
int_type (int64 i) = true
int_type _ = false

abbrev bytes_type : Variant → Bool
bytes_type (byte_array buf) = true
bytes_type _ = false

abbrev array_type : Variant → Bool
array_type (array items) = true
array_type _ = false

unfoldable pub is_null : RedisValue → Bool
is_null v = null_type (data_of v)

unfoldable pub is_int : RedisValue → Bool
is_int v = int_type (data_of v)

unfoldable pub is_string : RedisValue → Bool
is_string v = bytes_type (data_of v)

unfoldable pub is_byte_array : RedisValue → Bool
is_byte_array v = bytes_type (data_of v)

unfoldable pub is_array : RedisValue → Bool
is_array v = array_type (data_of v)

-- `castTo<T>` at each alternative: the value, or a fresh `T()`.
abbrev cast_array : Variant → Values
cast_array (array items) = items
cast_array _ = nil

abbrev cast_bytes : Variant → Bytes
cast_bytes (byte_array buf) = buf
cast_bytes _ = []

abbrev cast_int : Variant → ℤ
cast_int (int64 i) = i
cast_int _ = pos 0

unfoldable pub to_array : RedisValue → Values
to_array v = cast_array (data_of v)

unfoldable pub to_byte_array : RedisValue → Bytes
to_byte_array v = cast_bytes (data_of v)

unfoldable pub to_string : RedisValue → Bytes
unfolding to_byte_array
to_string v = to_byte_array v

unfoldable pub to_int : RedisValue → ℤ
to_int v = cast_int (data_of v)

abbrev boost_get_array : Variant → Option Values
boost_get_array (array items) = some items
boost_get_array _ = none

abbrev boost_get_bytes : Variant → Option Bytes
boost_get_bytes (byte_array buf) = some buf
boost_get_bytes _ = none

-- `getArray` and `getByteArray`; `none` is the exception `boost::bad_get`.
unfoldable pub get_array : RedisValue → Option Values
get_array v = boost_get_array (data_of v)

unfoldable pub get_byte_array : RedisValue → Option Bytes
get_byte_array v = boost_get_bytes (data_of v)

-- `values.push_back(v)`
abbrev pub push_back : Values → RedisValue → Values
push_back nil v = cons v nil
push_back (cons x xs) v = cons x (push_back xs v)

-- `values.size()`
abbrev pub size : Values → ℕ
size nil = 0
size (cons x xs) = suc (size xs)

-- `values[i]`; `none` is a read out of bounds.
abbrev pub get_elem? : Values → ℕ → Option RedisValue
get_elem? nil i = none
get_elem? (cons x xs) zero = some x
get_elem? (cons x xs) (suc i) = get_elem? xs i

abbrev pub append : Values → Values → Values
append nil ys = ys
append (cons x xs) ys = cons x (append xs ys)
