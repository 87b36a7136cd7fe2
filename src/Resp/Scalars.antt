-- ===== src/Resp/Scalars.antt =====
-- The parser on a printed reply that is no array, and on the size of an array.
use redisclient.Base.{
  ℕ, suc, ◌+◌, ◌^◌, ◌<◌, ◌≡◌, ◌≢◌, refl, ◌∙◌, true, [], ◌∷◌, ◌++◌, length, Bytes, arith, All,
  length-append,
}
use redisclient.Base.Int.{ℤ, pos, negsuc, mul64, add64, neg64, IsInt64}
use redisclient.Decimal.{is_digit, decimal, decimal_ℤ}
use redisclient.Value.{
  RedisValue, Values, nil, array_value, bytes_value, error_value, int_value, null_value,
}
use redisclient.Parser.{
  State, start, start_array, string_lf, error_lf, integer_lf, bulk_size_lf, bulk, bulk_cr, bulk_lf,
  array_size_lf, RedisParser, turn, store_value, end_value,
}
use redisclient.Parser.Number.{buf_to_long, scan_signed, scan_minus, scan, char_value}
use redisclient.Parser.Number.Laws.{buf_to_long-decimal, buf_to_long-decimal_ℤ}
use redisclient.Parser.Bytewise.{feed, turn_bulk_size_one}
use redisclient.Resp.{crlf_then, is_text}
use redisclient.Resp.Lines.{
  deliver, feed_step, feed-string, feed-error_string, feed-integer, feed-bulk_size, feed-array_size,
  feed-bulk_bytes, is_number, decimal_ℤ-number, decimal-number,
}
use redisclient.Resp.Turns.{
  begin_status, begin_failure, begin_integer, begin_bulk, begin_array, string_lf-value,
  error_lf-value, integer_lf-value, bulk_lf-value, bulk_size_lf-null, array_size_lf-null,
  array_size_lf-empty, bulk_size_lf-empty, bulk_cr-cr, array_size_lf-pos,
}

-- The parser with value `v`, and whatever is left in the buffer and in the string's size.
abbrev pub with_value : RedisParser → Bytes → ℤ → RedisValue → RedisParser
with_value p b z v = record p { buf = b; bulk_size = z; redis_value = v }

-- From state `s` and parser `p` the loop takes `text` up to `rest`, and completes the value `v` in
-- parser `q`.
abbrev pub DeliversTo : State → RedisParser → RedisParser → ℕ → Bytes → Bytes → RedisValue → Type 0
DeliversTo s p q n text rest v =
    (b : Bytes) × (z : ℤ) × (m : ℕ) × (feed s p n text ≡ deliver (with_value q b z v) m rest)
    × (m + length rest ≡ n + length text)

abbrev pub Delivers : RedisParser → ℕ → Bytes → Bytes → RedisValue → Type 0
Delivers p = DeliversTo start p p

-- The turn at the last byte of a value.
feed_value :
    (s : State) (p q : RedisParser) (n c : ℕ) (rest : Bytes)
    → turn s c [] p ≡ end_value 0 (store_value q)
    → feed s p n (c ∷ rest) ≡ deliver q (n + 1) rest
unfolding deliver
feed_value s p q n c rest e = feed_step s p n c rest _ e

pub status-Delivers :
    (t rest : Bytes) (p : RedisParser) (n : ℕ)
    → All (λ c. is_text c ≡ true) t
    → Delivers p n (b'+' ∷ (t ++ crlf_then rest)) rest (bytes_value t)
status-Delivers t rest p n h = (
  t,
  p.bulk_size,
  n + 1 + length t + 1 + 1,
  feed_step start p n b'+' _ _ (begin_status p)
      ∙ feed-string t _ _ (n + 1) h
      ∙ feed_value string_lf _ _ _ b'\n' rest (string_lf-value _),
  omega (arith, length-append t (crlf_then rest)),
)

pub failure-Delivers :
    (t rest : Bytes) (p : RedisParser) (n : ℕ)
    → All (λ c. is_text c ≡ true) t
    → Delivers p n (b'-' ∷ (t ++ crlf_then rest)) rest (error_value t)
failure-Delivers t rest p n h = (
  t,
  p.bulk_size,
  n + 1 + length t + 1 + 1,
  feed_step start p n b'-' _ _ (begin_failure p)
      ∙ feed-error_string t _ _ (n + 1) h
      ∙ feed_value error_lf _ _ _ b'\n' rest (error_lf-value _),
  omega (arith, length-append t (crlf_then rest)),
)

pub integer-Delivers :
    (z : ℤ) (rest : Bytes) (p : RedisParser) (n : ℕ)
    → IsInt64 z
    → Delivers p n (b':' ∷ (decimal_ℤ z ++ crlf_then rest)) rest (int_value z)
integer-Delivers z rest p n h =
    let (c, ds, e, number) = decimal_ℤ-number z in
    let read : buf_to_long (c ∷ ds) ≡ z = rw (← e) (buf_to_long-decimal_ℤ z h) in
    rw e (
      [],
      p.bulk_size,
      n + 1 + length (c ∷ ds) + 1 + 1,
      feed_step start p n b':' _ _ (begin_integer p)
          ∙ feed-integer c ds _ _ (n + 1) refl number
          ∙ feed_value integer_lf _ _ _ b'\n' rest (integer_lf-value _ z read),
      omega (arith, length-append ds (crlf_then rest)),
    )

-- After the size of a string: its bytes, and the line's end.
feed_string :
    (t rest : Bytes) (p : RedisParser) (n : ℕ)
    → p.buf ≡ []
    → p.bulk_size ≡ pos (length t)
    → length t < 2 ^ 63
    → t ≢ []
    → feed bulk p n (t ++ crlf_then rest)
      ≡ deliver (with_value p t (pos 0) (bytes_value t)) (n + length t + 1 + 1) rest
feed_string [] rest p n b e h ne = absurd (ne refl)
feed_string (c ∷ t) rest p n b e h ne =
    feed-bulk_bytes c t _ p n e h
    ∙ feed_step bulk_cr _ _ b'\r' _ _ (bulk_cr-cr _)
    ∙ feed_value bulk_lf _ _ _ b'\n' rest (bulk_lf-value _)
    ∙ ground (arith, b)

minus_one : All (λ d. is_number d ≡ true) (b'-' ∷ b'1' ∷ [])
unfolding is_digit
minus_one = (refl, (refl, tt))

minus_one_value : buf_to_long (b'-' ∷ b'1' ∷ []) ≡ negsuc 0
unfolding buf_to_long scan_signed scan_minus scan mul64 add64 neg64 char_value
minus_one_value = refl

pub null_bulk-Delivers :
    (rest : Bytes) (p : RedisParser) (n : ℕ)
    → Delivers p n (b'$' ∷ b'-' ∷ b'1' ∷ crlf_then rest) rest null_value
null_bulk-Delivers rest p n = (
  [],
  negsuc 0,
  n + 1 + 2 + 1 + 1,
  feed_step start p n b'$' _ _ (begin_bulk p)
      ∙ feed-bulk_size b'-' (b'1' ∷ []) _ _ (n + 1) refl minus_one
      ∙ feed_value bulk_size_lf _ _ _ b'\n' rest (bulk_size_lf-null _ minus_one_value),
  omega arith,
)

pub null_array-Delivers :
    (rest : Bytes) (p : RedisParser) (n : ℕ)
    → Delivers p n (b'*' ∷ b'-' ∷ b'1' ∷ crlf_then rest) rest null_value
null_array-Delivers rest p n = (
  b'-' ∷ b'1' ∷ [],
  p.bulk_size,
  n + 1 + 2 + 1 + 1,
  feed_step start p n b'*' _ _ (begin_array p)
      ∙ feed-array_size b'-' (b'1' ∷ []) _ _ (n + 1) refl minus_one
      ∙ feed_value array_size_lf _ _ _ b'\n' rest (array_size_lf-null _ minus_one_value),
  omega arith,
)

-- The bytes behind a string's size, the empty string's too.
feed_bulk_size :
    (t rest : Bytes) (p : RedisParser) (n : ℕ)
    → buf_to_long p.buf ≡ pos (length t)
    → length t < 2 ^ 63
    → feed bulk_size_lf p n (b'\n' ∷ (t ++ crlf_then rest))
      ≡ deliver (with_value p t (pos 0) (bytes_value t)) (n + 1 + length t + 1 + 1) rest
feed_bulk_size [] rest p n e h =
    feed_step bulk_size_lf p n b'\n' _ _ (bulk_size_lf-empty p e)
    ∙ feed_step bulk_cr _ _ b'\r' _ _ (bulk_cr-cr _)
    ∙ feed_value bulk_lf _ _ _ b'\n' rest (bulk_lf-value _)
    ∙ ground arith
feed_bulk_size (c ∷ t) rest p n e h =
    feed_step bulk_size_lf p n b'\n' _ _ (turn_bulk_size_one p (length t) e h)
    ∙ feed_string (c ∷ t) rest _ (n + 1) refl refl h (λ x. cc)

pub bulk-Delivers :
    (t rest : Bytes) (p : RedisParser) (n : ℕ)
    → length t < 2 ^ 63
    → Delivers p n
        (b'$' ∷ (decimal (length t) ++ crlf_then (t ++ crlf_then rest)))
        rest
        (bytes_value t)
bulk-Delivers t rest p n h =
    let (c, ds, e, number) = decimal-number (length t) in
    let read : buf_to_long (c ∷ ds) ≡ pos (length t) =
      rw (← e) (buf_to_long-decimal (length t) h) in
    rw e (
      t,
      pos 0,
      n + 1 + length (c ∷ ds) + 1 + 1 + length t + 1 + 1,
      feed_step start p n b'$' _ _ (begin_bulk p)
          ∙ feed-bulk_size c ds _ _ (n + 1) refl number
          ∙ feed_bulk_size t rest _ _ read h,
      omega (
        arith,
        length-append ds (crlf_then (t ++ crlf_then rest)),
        length-append t (crlf_then rest),
      ),
    )

pub empty_array-Delivers :
    (rest : Bytes) (p : RedisParser) (n : ℕ)
    → Delivers p n (b'*' ∷ (decimal 0 ++ crlf_then rest)) rest (array_value nil)
empty_array-Delivers rest p n =
    let (c, ds, e, number) = decimal-number 0 in
    let read : buf_to_long (c ∷ ds) ≡ pos 0 = rw (← e) (buf_to_long-decimal 0 (omega arith)) in
    rw e (
      c ∷ ds,
      p.bulk_size,
      n + 1 + length (c ∷ ds) + 1 + 1,
      feed_step start p n b'*' _ _ (begin_array p)
          ∙ feed-array_size c ds _ _ (n + 1) refl number
          ∙ feed_value array_size_lf _ _ _ b'\n' rest (array_size_lf-empty _ read),
      omega (arith, length-append ds (crlf_then rest)),
    )

-- The loop inside an array that waits for `k` items more, with the items `acc` so far.
abbrev pub inside : RedisParser → ℕ → Values → RedisParser
inside p k acc = record p {
  array_sizes = pos k ∷ p.array_sizes;
  array_values = array_value acc ∷ p.array_values;
}

pub feed_array :
    (k : ℕ) (rest : Bytes) (p : RedisParser) (n : ℕ)
    → suc k < 2 ^ 63
    → (b : Bytes) × (m : ℕ) × (feed start p n (b'*' ∷ (decimal (suc k) ++ crlf_then rest))
        ≡ feed start_array (inside (record p { buf = b }) (suc k) nil) m rest)
      × (m + length rest ≡ n + length (b'*' ∷ (decimal (suc k) ++ crlf_then rest)))
feed_array k rest p n h =
    let (c, ds, e, number) = decimal-number (suc k) in
    let read : buf_to_long (c ∷ ds) ≡ pos (suc k) = rw (← e) (buf_to_long-decimal (suc k) h) in
    rw e (
      c ∷ ds,
      n + 1 + length (c ∷ ds) + 1 + 1,
      feed_step start p n b'*' _ _ (begin_array p)
          ∙ feed-array_size c ds _ _ (n + 1) refl number
          ∙ feed_step array_size_lf _ _ b'\n' rest _ (array_size_lf-pos _ k read),
      omega (arith, length-append ds (crlf_then rest)),
    )
