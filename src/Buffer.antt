-- ===== src/Buffer.antt =====
-- src/redisclient/redisbuffer.h, the struct `RedisBuffer`, and from
-- src/redisclient/impl/redisclientimpl.cpp the functions `bufferAppend` and `makeCommand`, which
-- print a command as a RESP array of strings.
pub mod Command
pub mod Tests
use redisclient.Base.{ℕ, List, [], ◌∷◌, ◌++◌, length, Bytes}
use redisclient.Decimal.{decimal}

-- boost::variant<std::string, std::vector<char>>
pub data RedisBuffer : Type 0 where
  from_string : Bytes → RedisBuffer
  from_vector : Bytes → RedisBuffer

-- The constructors from a pointer and a size, and from a C string (its bytes up to the null byte).
abbrev pub from_ptr : Bytes → RedisBuffer
from_ptr bytes = from_vector bytes

abbrev pub from_chars : Bytes → RedisBuffer
from_chars s = from_string s

-- `RedisBuffer::size`
unfoldable pub size : RedisBuffer → ℕ
size (from_string s) = length s
size (from_vector buf) = length buf

-- The overloads of `bufferAppend`: for a byte string (`std::string`, `std::vector<char>`, a C string
-- and a fixed array), for one `char`, and for a `RedisBuffer`.
abbrev append_bytes : Bytes → Bytes → Bytes
append_bytes vec s = vec ++ s

abbrev append_char : Bytes → ℕ → Bytes
append_char vec c = vec ++ c ∷ []

abbrev append_buffer : Bytes → RedisBuffer → Bytes
append_buffer vec (from_string s) = append_bytes vec s
append_buffer vec (from_vector buf) = append_bytes vec buf

abbrev crlf : Bytes
crlf = b'\r' ∷ b'\n' ∷ []

-- one round of the loop over the items
append_item : Bytes → RedisBuffer → Bytes
append_item result item =
    let sized = append_bytes (append_char result b'$') (decimal (size item)) in
    append_bytes (append_buffer (append_bytes sized crlf) item) crlf

append_items : Bytes → List RedisBuffer → Bytes
append_items result [] = result
append_items result (item ∷ items) = append_items (append_item result item) items

-- `RedisClientImpl::makeCommand`
unfoldable pub make_command : List RedisBuffer → Bytes
unfolding append_item append_items
make_command items =
    append_items (append_bytes (append_bytes (append_char [] b'*') (decimal (length items))) crlf)
      items
