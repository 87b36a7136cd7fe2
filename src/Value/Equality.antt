-- ===== src/Value/Equality.antt =====
-- `RedisValue::operator ==` and `!=`: the comparison of the variants, which does not look at the
-- flag `error`, at any depth.
use redisclient.Base.{◌≡◌, refl, ap, ◌↔◌, Bool, true, false, not, ◌&&◌, [], ◌∷◌, ◌==◌, Bytes, arith}
use redisclient.Base.Int.{ℤ, ◌==ℤ◌}
use redisclient.Value.{
  RedisValue, Variant, Values, redis_value, null_tag, int64, byte_array, array, nil, cons,
}

-- `==` of `std::vector<char>`
abbrev pub equal_bytes : Bytes → Bytes → Bool
equal_bytes [] [] = true
equal_bytes (x ∷ xs) (y ∷ ys) = x == y && equal_bytes xs ys
equal_bytes _ _ = false

unfoldable mutual
  pub equal : RedisValue → RedisValue → Bool
  equal (redis_value v e) (redis_value w f) = equal_variant v w

  -- `==` of `boost::variant`: the same alternative, and equal values
  pub equal_variant : Variant → Variant → Bool
  equal_variant null_tag null_tag = true
  equal_variant (int64 i) (int64 j) = i ==ℤ j
  equal_variant (byte_array a) (byte_array b) = equal_bytes a b
  equal_variant (array xs) (array ys) = equal_values xs ys
  equal_variant _ _ = false

  -- `==` of `std::vector<RedisValue>`
  pub equal_values : Values → Values → Bool
  equal_values nil nil = true
  equal_values (cons x xs) (cons y ys) = equal x y && equal_values xs ys
  equal_values _ _ = false

unfoldable pub not_equal : RedisValue → RedisValue → Bool
unfolding equal
not_equal (redis_value v e) (redis_value w f) = not (equal_variant v w)

-- The value with no error flag set, at any depth.
abbrev mutual
  pub erase : RedisValue → RedisValue
  erase (redis_value v e) = redis_value (erase_variant v) false

  pub erase_variant : Variant → Variant
  erase_variant null_tag = null_tag
  erase_variant (int64 i) = int64 i
  erase_variant (byte_array a) = byte_array a
  erase_variant (array xs) = array (erase_values xs)

  pub erase_values : Values → Values
  erase_values nil = nil
  erase_values (cons x xs) = cons (erase x) (erase_values xs)

pub equal_bytes_iff : (a b : Bytes) → (equal_bytes a b ≡ true) ↔ (a ≡ b)
equal_bytes_iff (x ∷ a) (y ∷ b) = ground (arith, equal_bytes_iff a b)
equal_bytes_iff _ _ = ground arith

==ℤ_iff : (i j : ℤ) → ((i ==ℤ j) ≡ true) ↔ (i ≡ j)
==ℤ_iff i j = ground arith

mutual
  unfolding equal

  equal→erase : (x y : RedisValue) → equal x y ≡ true → erase x ≡ erase y
  equal→erase (redis_value v e) (redis_value w f) h =
      ap (λ u. redis_value u false) (equal_variant→erase v w h)

  equal_variant→erase :
      (v w : Variant) → equal_variant v w ≡ true → erase_variant v ≡ erase_variant w
  equal_variant→erase null_tag null_tag h = refl
  equal_variant→erase (int64 i) (int64 j) h = ap int64 ((==ℤ_iff i j).0 h)
  equal_variant→erase (byte_array a) (byte_array b) h = ap byte_array ((equal_bytes_iff a b).0 h)
  equal_variant→erase (array xs) (array ys) h = ap array (equal_values→erase xs ys h)
  equal_variant→erase _ _ h = cc

  equal_values→erase :
      (xs ys : Values) → equal_values xs ys ≡ true → erase_values xs ≡ erase_values ys
  equal_values→erase nil nil h = refl
  equal_values→erase (cons x xs) (cons y ys) h =
      ground (arith, equal→erase x y, equal_values→erase xs ys)
  equal_values→erase _ _ h = cc

mutual
  unfolding equal

  erase→equal : (x y : RedisValue) → erase x ≡ erase y → equal x y ≡ true
  erase→equal (redis_value v e) (redis_value w f) h = erase_variant→equal v w (cc)

  erase_variant→equal :
      (v w : Variant) → erase_variant v ≡ erase_variant w → equal_variant v w ≡ true
  erase_variant→equal null_tag null_tag h = refl
  erase_variant→equal (int64 i) (int64 j) h = (==ℤ_iff i j).1 (cc)
  erase_variant→equal (byte_array a) (byte_array b) h = (equal_bytes_iff a b).1 (cc)
  erase_variant→equal (array xs) (array ys) h = erase_values→equal xs ys (cc)
  erase_variant→equal _ _ h = cc

  erase_values→equal :
      (xs ys : Values) → erase_values xs ≡ erase_values ys → equal_values xs ys ≡ true
  erase_values→equal nil nil h = refl
  erase_values→equal (cons x xs) (cons y ys) h =
      ground (arith, erase→equal x y, erase_values→equal xs ys)
  erase_values→equal _ _ h = cc

-- `==` holds of two values exactly when they differ in error flags at most: in the values and their
-- items at any depth.
pub equal_iff : (x y : RedisValue) → (equal x y ≡ true) ↔ (erase x ≡ erase y)
equal_iff x y = (equal→erase x y, erase→equal x y)
