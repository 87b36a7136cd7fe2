-- ===== src/Value/Accessors.antt =====
-- The type tests and the accessors of `RedisValue`, against one another.
use redisclient.Base.{◌≡◌, refl, true, false, none, some, [], if◌then◌else◌}
use redisclient.Base.Int.{pos}
use redisclient.Value.{
  RedisValue, redis_value, null_tag, int64, byte_array, array, nil, is_null, is_int, is_byte_array,
  is_array, to_array, to_byte_array, to_int, get_array, get_byte_array, is_error,
}

-- What the tests say determines the value, with what the accessors return.
abbrev pub rebuild : RedisValue → RedisValue
rebuild v =
    redis_value
      (if is_array v
        then array (to_array v)
        else if is_byte_array v
        then byte_array (to_byte_array v)
        else if is_int v
        then int64 (to_int v)
        else null_tag)
      (is_error v)

-- Nothing is lost by the accessors; each returns the empty value where its test fails, and `getArray`
-- and `getByteArray` throw exactly there.
pub accessors :
    (v : RedisValue)
    → (rebuild v ≡ v)
      × (get_array v ≡ (if is_array v then some (to_array v) else none))
      × (get_byte_array v ≡ (if is_byte_array v then some (to_byte_array v) else none))
      × (is_array v ≡ false → to_array v ≡ nil)
      × (is_byte_array v ≡ false → to_byte_array v ≡ [])
      × (is_int v ≡ false → to_int v ≡ pos 0)
      × (is_null v ≡ true → (is_array v ≡ false) × (is_byte_array v ≡ false) × (is_int v ≡ false))
unfolding is_null is_int is_byte_array is_array to_array to_byte_array to_int get_array
    get_byte_array is_error
accessors (redis_value null_tag e) =
    (refl, refl, refl, λ h. refl, λ h. refl, λ h. refl, λ h. (refl, refl, refl))
accessors (redis_value (int64 i) e) = (refl, refl, refl, λ h. refl, λ h. refl, λ h. cc, λ h. cc)
accessors (redis_value (byte_array b) e) =
    (refl, refl, refl, λ h. refl, λ h. cc, λ h. refl, λ h. cc)
accessors (redis_value (array xs) e) = (refl, refl, refl, λ h. cc, λ h. refl, λ h. refl, λ h. cc)
