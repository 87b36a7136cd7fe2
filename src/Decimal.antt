-- ===== src/Decimal.antt =====
-- `std::to_string` on `size_t` and `int64_t`, which redisclientimpl.cpp and redisvalue.cpp call:
-- the decimal digits, the most significant first, with a sign in front of a negative number.
use redisclient.Base.{
  ℕ, zero, suc, ◌+◌, ◌/◌, ◌%◌, ◌<◌, ◌≤◌, ◌≡◌, refl, Bool, true, false, [], ◌∷◌, ◌++◌, ltb, leb,
  ◌&&◌, Bytes, codes, All, All-append, arith, Bool-cases, inl, inr,
}
use redisclient.Base.Int.{ℤ, pos, negsuc}

-- `isdigit` in the "C" locale.
unfoldable pub is_digit : ℕ → Bool
is_digit c = leb b'0' c && leb c b'9'

-- A quotient by ten is smaller, so `suc n` rounds are enough for `n`.
unfoldable pub digits : ℕ → ℕ → Bytes
digits zero n = []
digits (suc fuel) n = elim (ltb n 10) [
  | true ↦ (b'0' + n) ∷ []
  | false ↦ digits fuel (n / 10) ++ (b'0' + n % 10) ∷ []
]

unfoldable pub decimal : ℕ → Bytes
unfolding digits
decimal n = digits (suc n) n

unfoldable pub decimal_ℤ : ℤ → Bytes
decimal_ℤ (pos n) = decimal n
decimal_ℤ (negsuc n) = b'-' ∷ decimal (suc n)

abbrev pub IsDigits : Bytes → Type 0
IsDigits = All (λ c. is_digit c ≡ true)

pub digits-induction {ℓ} :
    (P : ℕ → Bytes → Type ℓ)
    → ((n : ℕ) → n < 10 → P n ((b'0' + n) ∷ []))
    → ((n : ℕ) (ds : Bytes) → 10 ≤ n → P (n / 10) ds → P n (ds ++ (b'0' + n % 10) ∷ []))
    → (fuel n : ℕ) → n < fuel
    → P n (digits fuel n)
unfolding digits
digits-induction P one more zero n h = elim h [ ]
digits-induction P one more (suc fuel) n h = elim (Bool-cases (ltb n 10)) [
  | inl small ↦ rw (small, digits) (one n (ground arith))
  | inr large ↦
      rw (large, digits)
        (more n (digits fuel (n / 10)) (ground arith)
          (digits-induction P one more fuel (n / 10) (ground arith)))
]

pub decimal-induction {ℓ} :
    (P : ℕ → Bytes → Type ℓ)
    → ((n : ℕ) → n < 10 → P n ((b'0' + n) ∷ []))
    → ((n : ℕ) (ds : Bytes) → 10 ≤ n → P (n / 10) ds → P n (ds ++ (b'0' + n % 10) ∷ []))
    → (n : ℕ) → P n (decimal n)
unfolding decimal
decimal-induction P one more n = digits-induction P one more (suc n) n (omega arith)

pub decimal-IsDigits : (n : ℕ) → IsDigits (decimal n)
unfolding is_digit
decimal-IsDigits =
    decimal-induction (λ n ds. IsDigits ds) (λ n h. (ground arith, tt))
      λ n ds h ih. All-append _ ds _ ih (ground arith, tt)

pub decimal-cons : (n : ℕ) → (c : ℕ) × (ds : Bytes) × (decimal n ≡ c ∷ ds)
decimal-cons =
    decimal-induction (λ n ds. (c : ℕ) × (r : Bytes) × (ds ≡ c ∷ r)) (λ n h. (_, _, refl))
      λ n ds h ih. (ih.0, ih.1 ++ (b'0' + n % 10) ∷ [], rw ih.2)

decimal_runs : (decimal 0 ≡ codes "0") × (decimal_ℤ (negsuc 1204) ≡ codes "-1205")
unfolding decimal_ℤ decimal
decimal_runs = (refl, refl)
