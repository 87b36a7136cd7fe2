-- ===== src/Parser/Number/Laws.antt =====
-- `bufToLong` reads back what `std::to_string` prints, on all of `int64_t`.
use redisclient.Base.{
  ℕ, subst, suc, ◌+◌, ◌*◌, ◌/◌, ◌%◌, ◌^◌, ◌<◌, ◌≤◌, ◌≡◌, refl, ap, true, ◌∙◌, [], ◌∷◌, ◌++◌, Bytes,
  arith,
}
use redisclient.Base.Int.{
  ℤ, pos, negsuc, wrap64, add64, mul64, neg64, sub_ℕ, IsInt64, mul64_ten, neg64-wrap64,
}
use redisclient.Decimal.{
  decimal, decimal_ℤ, decimal-induction, is_digit, IsDigits, decimal-IsDigits, decimal-cons,
}
use redisclient.Parser.Number.{char_value, scan, scan_minus, scan_signed, buf_to_long}

wrap64-IsInt64 : (z : ℤ) → IsInt64 (wrap64 z)
unfolding wrap64
wrap64-IsInt64 z = ground arith

scan-IsInt64 : (str : Bytes) (value : ℤ) → IsInt64 value → IsInt64 (scan value str)
unfolding scan
scan-IsInt64 [] value h = h
scan-IsInt64 (c ∷ str) value h =
    scan-IsInt64 str (add64 (mul64 value (pos 10)) (char_value c))
      (unfold add64 in wrap64-IsInt64 (sub_ℕ _ _))

neg64-IsInt64 : (z : ℤ) → IsInt64 (neg64 z)
unfolding neg64
neg64-IsInt64 z = wrap64-IsInt64 (sub_ℕ _ _)

scan_minus-IsInt64 : (str : Bytes) → IsInt64 (scan_minus str)
unfolding scan_minus
scan_minus-IsInt64 [] = omega arith
scan_minus-IsInt64 (c ∷ str) = neg64-IsInt64 (scan (pos 0) (c ∷ str))

-- The result is always in the range of the type.
pub buf_to_long-IsInt64 : (str : Bytes) → IsInt64 (buf_to_long str)
unfolding buf_to_long scan_signed
buf_to_long-IsInt64 [] = omega arith
buf_to_long-IsInt64 (c ∷ str) =
    ground (arith, scan_minus-IsInt64 str, scan-IsInt64 (c ∷ str) (pos 0) (omega arith))

scan-append : (a b : Bytes) (value : ℤ) → scan value (a ++ b) ≡ scan (scan value a) b
unfolding scan
scan-append [] b value = refl
scan-append (c ∷ a) b value = scan-append a b (add64 (mul64 value (pos 10)) (char_value c))

char_value_digit : (d : ℕ) → d < 10 → char_value (b'0' + d) ≡ pos d
unfolding char_value
char_value_digit d h = ground arith

-- one more digit, with no overflow before the last addition
scan_digit :
    (n d : ℕ)
    → d < 10
    → n * 10 + d ≤ 2 ^ 63
    → add64 (mul64 (wrap64 (pos n)) (pos 10)) (pos d) ≡ wrap64 (pos (n * 10 + d))
scan_digit n d h k =
    let small : wrap64 (pos n) ≡ pos n = unfold wrap64 in ground arith in
    rw (small, mul64_ten n (omega arith)) (unfold add64 in ground arith)

scan-decimal : (n : ℕ) → n ≤ 2 ^ 63 → scan (pos 0) (decimal n) ≡ wrap64 (pos n)
unfolding scan
scan-decimal =
    decimal-induction (λ n ds. n ≤ 2 ^ 63 → scan (pos 0) ds ≡ wrap64 (pos n))
      (λ n h k. rw (char_value_digit n h) (unfold add64 mul64 in ground arith))
      λ n ds h ih k.
        scan-append ds _ (pos 0)
        ∙ rw (ih (omega arith), char_value_digit (n % 10) (omega arith))
            (scan_digit (n / 10) (n % 10) (omega arith) (omega arith)
              ∙ ap (λ m. wrap64 (pos m)) (omega arith))

-- A digit is no sign.
scan_signed-is_digit :
    (c : ℕ) (ds : Bytes) → is_digit c ≡ true → scan_signed c ds ≡ scan (pos 0) (c ∷ ds)
unfolding scan_signed is_digit
scan_signed-is_digit c ds h = ground arith

buf_to_long-IsDigits :
    (n : ℕ) (c : ℕ) (ds : Bytes)
    → decimal n ≡ c ∷ ds
    → buf_to_long (decimal n) ≡ scan (pos 0) (decimal n)
unfolding buf_to_long
buf_to_long-IsDigits n c ds e =
    let digits : IsDigits (c ∷ ds) = subst IsDigits e (decimal-IsDigits n) in
    rw e (scan_signed-is_digit c ds digits.0)

pub buf_to_long-decimal : (n : ℕ) → n < 2 ^ 63 → buf_to_long (decimal n) ≡ pos n
buf_to_long-decimal n h =
    let (c, ds, e) = decimal-cons n in
    buf_to_long-IsDigits n c ds e ∙ scan-decimal n (omega arith) ∙ unfold wrap64 in ground arith

-- `bufToLong` reads every `int64_t` back from its decimal print, the least one included (with
-- wrapping arithmetic).
pub buf_to_long-decimal_ℤ : (z : ℤ) → IsInt64 z → buf_to_long (decimal_ℤ z) ≡ z
unfolding decimal_ℤ buf_to_long scan_signed scan_minus
buf_to_long-decimal_ℤ (pos n) h = buf_to_long-decimal n h
buf_to_long-decimal_ℤ (negsuc n) h =
    let (c, ds, e) = decimal-cons (suc n) in
    let read : scan (pos 0) (c ∷ ds) ≡ wrap64 (pos (suc n)) =
      rw (← e) (scan-decimal (suc n) (omega arith)) in
    rw (e, scan_minus, read) (neg64-wrap64 n h)
