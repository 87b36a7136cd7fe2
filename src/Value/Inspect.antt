-- ===== src/Value/Inspect.antt =====
-- `RedisValue::inspect`.
use redisclient.Base.{
  ℕ, zero, suc, ◌+◌, ◌-◌, ◌≡◌, refl, sym, ap, ◌∙◌, Bool, true, false, [], ◌∷◌, ◌++◌, append_assoc,
  length, length-append, take, if◌then◌else◌, Bytes, codes, arith,
}
use redisclient.Decimal.{decimal_ℤ}
use redisclient.Value.{
  RedisValue, Variant, Values, redis_value, null_tag, int64, byte_array, array, nil, cons,
  to_string,
}

-- `result.resize(n)` for `n` up to the size
abbrev resize : Bytes → ℕ → Bytes
resize s n = take n s

-- `s[i] = c`
abbrev set : Bytes → ℕ → ℕ → Bytes
set [] i c = []
set (x ∷ s) zero c = c ∷ s
set (x ∷ s) (suc i) c = x ∷ set s i c

-- behind the loop: the last ", " becomes "]"
abbrev close_items : Bytes → Bytes
close_items result =
    let shorter = resize result (length result - 1) in set shorter (length shorter - 1) b']'

abbrev is_nil : Values → Bool
is_nil nil = true
is_nil (cons x xs) = false

-- The variant's other alternatives, once `isError()` is false.
unfoldable mutual
  pub inspect : RedisValue → Bytes
  inspect (redis_value v e) =
      let plain = inspect_variant v in
      if e then codes "error: " ++ to_string (redis_value v e) else plain

  pub inspect_variant : Variant → Bytes
  inspect_variant null_tag = codes "(null)"
  inspect_variant (int64 i) = decimal_ℤ i
  inspect_variant (byte_array buf) = buf
  inspect_variant (array xs) =
      let whole = close_items (inspect_items (codes "[") xs) in
      if is_nil xs then codes "[" ++ codes "]" else whole

  -- the loop over the items
  pub inspect_items : Bytes → Values → Bytes
  inspect_items result nil = result
  inspect_items result (cons x xs) = inspect_items (result ++ inspect x ++ codes ", ") xs

-- The items' texts, with ", " between them.
pub joined : RedisValue → Values → Bytes
unfolding inspect
joined x nil = inspect x
joined x (cons y ys) = inspect x ++ (codes ", " ++ joined y ys)

inspect_items-joined :
    (xs : Values) (x : RedisValue) (result : Bytes)
    → inspect_items result (cons x xs) ≡ result ++ (joined x xs ++ codes ", ")
unfolding inspect joined
inspect_items-joined nil x result = append_assoc result (inspect x) (codes ", ")
inspect_items-joined (cons y ys) x result =
    inspect_items-joined ys y (result ++ inspect x ++ codes ", ") ∙ simp append_assoc

take_last : (s : Bytes) (a b : ℕ) → take (length s + 1) (s ++ a ∷ b ∷ []) ≡ s ++ a ∷ []
take_last [] a b = refl
take_last (x ∷ s) a b =
    let next : length (x ∷ s) + 1 ≡ suc (length s + 1) = omega arith in
    rw next (ap (◌∷◌ x) (take_last s a b))

set_last : (s : Bytes) (a c : ℕ) → set (s ++ a ∷ []) (length s) c ≡ s ++ c ∷ []
set_last [] a c = refl
set_last (x ∷ s) a c = ap (◌∷◌ x) (set_last s a c)

close_items-append : (s : Bytes) → close_items (s ++ codes ", ") ≡ s ++ codes "]"
close_items-append s =
    let longer : length (s ++ codes ", ") - 1 ≡ length s + 1 =
      omega (arith, length-append s (codes ", ")) in
    let last : length (s ++ codes ",") - 1 ≡ length s =
      omega (arith, length-append s (codes ",")) in
    rw (longer, take_last s b',' b' ', last) (set_last s b',' b']')

-- An array that is not empty and no error is shown as its items' texts with ", " between them, in
-- square brackets.
pub inspect-joined :
    (x : RedisValue) (xs : Values)
    → inspect (redis_value (array (cons x xs)) false) ≡ codes "[" ++ joined x xs ++ codes "]"
unfolding inspect
inspect-joined x xs =
    ap close_items (
      inspect_items-joined xs x (codes "[")
      ∙ sym (append_assoc (codes "[") (joined x xs) (codes ", ")))
    ∙ close_items-append (codes "[" ++ joined x xs)
