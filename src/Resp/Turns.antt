-- ===== src/Resp/Turns.antt =====
-- What one byte does at the begin and at the end of a value.
use redisclient.Base.{ℕ, suc, ◌≡◌, refl, [], ◌∷◌, arith}
use redisclient.Base.Int.{ℤ, pos, negsuc}
use redisclient.Value.{nil, array_value, bytes_value, error_value, int_value, null_value}
use redisclient.Parser.{
  start, start_array, string, string_lf, error_string, error_lf, integer, integer_lf, bulk_size,
  bulk_size_lf, bulk_cr, bulk_lf, array_size, array_size_lf, RedisParser, continues, turn, switch,
  end_turn, store_value, end_value,
}
use redisclient.Parser.Number.{buf_to_long}

-- The turns at the first byte of a reply.
pub begin_status :
    (p : RedisParser) → turn start b'+' [] p ≡ continues string (record p { buf = [] }) 0
unfolding turn switch end_turn
begin_status p = refl

pub begin_failure :
    (p : RedisParser) → turn start b'-' [] p ≡ continues error_string (record p { buf = [] }) 0
unfolding turn switch end_turn
begin_failure p = refl

pub begin_integer :
    (p : RedisParser) → turn start b':' [] p ≡ continues integer (record p { buf = [] }) 0
unfolding turn switch end_turn
begin_integer p = refl

pub begin_bulk :
    (p : RedisParser)
    → turn start b'$' [] p ≡ continues bulk_size (record p { buf = []; bulk_size = pos 0 }) 0
unfolding turn switch end_turn
begin_bulk p = refl

pub begin_array :
    (p : RedisParser) → turn start b'*' [] p ≡ continues array_size (record p { buf = [] }) 0
unfolding turn switch end_turn
begin_array p = refl

pub string_lf-value :
    (p : RedisParser)
    → turn string_lf b'\n' [] p
      ≡ end_value 0 (store_value (record p { redis_value = bytes_value p.buf }))
unfolding turn switch end_turn
string_lf-value p = refl

pub error_lf-value :
    (p : RedisParser)
    → turn error_lf b'\n' [] p
      ≡ end_value 0 (store_value (record p { redis_value = error_value p.buf }))
unfolding turn switch end_turn
error_lf-value p = refl

pub integer_lf-value :
    (p : RedisParser) (z : ℤ)
    → buf_to_long p.buf ≡ z
    → turn integer_lf b'\n' [] p
      ≡ end_value 0 (store_value (record p { buf = []; redis_value = int_value z }))
unfolding turn switch end_turn
integer_lf-value p z e = rw e refl

pub bulk_lf-value :
    (p : RedisParser)
    → turn bulk_lf b'\n' [] p
      ≡ end_value 0 (store_value (record p { redis_value = bytes_value p.buf }))
unfolding turn switch end_turn
bulk_lf-value p = refl

pub bulk_size_lf-null :
    (p : RedisParser)
    → buf_to_long p.buf ≡ negsuc 0
    → turn bulk_size_lf b'\n' [] p
      ≡ end_value 0
          (store_value (record p { bulk_size = negsuc 0; buf = []; redis_value = null_value }))
unfolding turn switch end_turn
bulk_size_lf-null p e = rw e refl

pub array_size_lf-null :
    (p : RedisParser)
    → buf_to_long p.buf ≡ negsuc 0
    → turn array_size_lf b'\n' [] p
      ≡ end_value 0 (store_value (record p { redis_value = null_value }))
unfolding turn switch end_turn
array_size_lf-null p e = rw e refl

pub array_size_lf-empty :
    (p : RedisParser)
    → buf_to_long p.buf ≡ pos 0
    → turn array_size_lf b'\n' [] p
      ≡ end_value 0 (store_value (record p { redis_value = array_value nil }))
unfolding turn switch end_turn
array_size_lf-empty p e = rw e refl

pub bulk_size_lf-empty :
    (p : RedisParser)
    → buf_to_long p.buf ≡ pos 0
    → turn bulk_size_lf b'\n' [] p ≡ continues bulk_cr (record p { bulk_size = pos 0; buf = [] }) 0
unfolding turn switch end_turn
bulk_size_lf-empty p e = rw e refl

pub bulk_cr-cr : (p : RedisParser) → turn bulk_cr b'\r' [] p ≡ continues bulk_lf p 0
unfolding turn switch end_turn
bulk_cr-cr p = refl

pub array_size_lf-pos :
    (p : RedisParser) (n : ℕ)
    → buf_to_long p.buf ≡ pos (suc n)
    → turn array_size_lf b'\n' [] p
      ≡ continues start_array
          (record p {
            array_sizes = pos (suc n) ∷ p.array_sizes;
            array_values = array_value nil ∷ p.array_values;
          })
          0
unfolding turn switch end_turn
array_size_lf-pos p n e = ground arith

-- An item begins as a value does.
pub turn_start_array : (c : ℕ) (p : RedisParser) → turn start_array c [] p ≡ turn start c [] p
unfolding turn switch
turn_start_array c p = refl
