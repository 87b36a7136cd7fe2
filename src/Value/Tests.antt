-- ===== src/Value/Tests.antt =====
-- Runs of `inspect` and `==`, and the theorems on `RedisValue` at concrete values.
use redisclient.Base.{◌≡◌, refl, ◌↔◌, true, false, ◌++◌, codes}
use redisclient.Base.Int.{pos, negsuc}
use redisclient.Decimal.{decimal_ℤ, decimal, digits}
use redisclient.Value.{
  RedisValue, nil, cons, null_value, int_value, bytes_value, error_value, array_value, to_string,
  to_byte_array, redis_value, array,
}
use redisclient.Value.{
  get_array, is_array, to_array, get_byte_array, is_byte_array, is_int, to_int, is_null,
}
use redisclient.Value.Accessors.{rebuild, accessors}
use redisclient.Base.{if◌then◌else◌, some, none, [], false}
use redisclient.Value.Inspect.{inspect, joined, inspect-joined}
use redisclient.Value.Equality.{equal, erase, equal_iff}

abbrev sample : RedisValue
sample =
    array_value
      (cons (int_value (negsuc 6)) (cons (error_value (codes "ERR")) (cons null_value nil)))

inspect_runs : inspect sample ≡ codes "[-7, error: ERR, (null)]"
unfolding inspect to_string to_byte_array decimal_ℤ decimal digits
inspect_runs = refl

error_flag_ignored : equal (error_value (codes "OK")) (bytes_value (codes "OK")) ≡ true
unfolding equal
error_flag_ignored = refl

inspect-joined_example :
    inspect (redis_value (array (cons null_value (cons sample nil))) false)
    ≡ codes "[" ++ joined null_value (cons sample nil) ++ codes "]"
inspect-joined_example = inspect-joined null_value (cons sample nil)

equal_iff_example :
    (equal sample (int_value (pos 3)) ≡ true) ↔ (erase sample ≡ erase (int_value (pos 3)))
equal_iff_example = equal_iff sample (int_value (pos 3))

accessors_example :
    (rebuild sample ≡ sample)
    × (get_array sample ≡ (if is_array sample then some (to_array sample) else none))
    × (get_byte_array sample ≡ (if is_byte_array sample then some (to_byte_array sample) else none))
    × (is_array sample ≡ false → to_array sample ≡ nil)
    × (is_byte_array sample ≡ false → to_byte_array sample ≡ [])
    × (is_int sample ≡ false → to_int sample ≡ pos 0)
    × (is_null sample ≡ true
        → (is_array sample ≡ false) × (is_byte_array sample ≡ false) × (is_int sample ≡ false))
accessors_example = accessors sample
