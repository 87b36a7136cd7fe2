-- ===== src/Parser/Number.antt =====
-- `RedisParser::bufToLong`. `long int` has 64 bits; a result out of its range wraps around (the C++
-- standard leaves that undefined). The assertion on the digits is not part of the model.
pub mod Laws
use redisclient.Base.{ℕ, ◌+◌, ◌-◌, ◌^◌, ◌≡◌, refl, [], ◌∷◌, ◌==◌, ltb, if◌then◌else◌, Bytes, codes}
use redisclient.Base.Int.{ℤ, pos, negsuc, sub_ℕ, add64, mul64, neg64}

-- `c - '0'` on a signed `char`
unfoldable pub char_value : ℕ → ℤ
char_value c = if ltb c 128 then sub_ℕ c b'0' else sub_ℕ c (b'0' + 256)

-- the loop over the characters
unfoldable pub scan : ℤ → Bytes → ℤ
scan value [] = value
scan value (c ∷ str) = scan (add64 (mul64 value (pos 10)) (char_value c)) str

-- what follows a sign
unfoldable pub scan_minus : Bytes → ℤ
scan_minus [] = pos 0
scan_minus (d ∷ ds) = neg64 (scan (pos 0) (d ∷ ds))

-- `if( *str == '-' )`
unfoldable pub scan_signed : ℕ → Bytes → ℤ
scan_signed c str = if c == b'-' then scan_minus str else scan (pos 0) (c ∷ str)

unfoldable pub buf_to_long : Bytes → ℤ
buf_to_long [] = pos 0
buf_to_long (c ∷ str) = scan_signed c str

buf_to_long_runs :
    (buf_to_long (codes "-9223372036854775808") ≡ negsuc (2 ^ 63 - 1))
    × (buf_to_long (codes "1-2") ≡ pos 72)
unfolding buf_to_long scan_signed scan_minus scan mul64 add64 neg64 char_value
buf_to_long_runs = (refl, refl)
