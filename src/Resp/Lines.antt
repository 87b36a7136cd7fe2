-- ===== src/Resp/Lines.antt =====
-- The parser on the pieces of a printed reply: a line of text, a number, the bytes of a string. Each
-- lemma runs it over one piece, with any `rest` behind.
use redisclient.Base.{
  ℕ, suc, ◌+◌, ◌^◌, ◌<◌, ◌≡◌, refl, subst, ◌∙◌, Bool, true, Option, none, some, [], ◌∷◌, ◌++◌,
  append-nil, append_assoc, length, Bytes, arith, ◌==◌, All, ◌||◌,
}
use redisclient.Base.Int.{ℤ, pos, negsuc}
use redisclient.Decimal.{is_digit, decimal, decimal_ℤ, IsDigits, decimal-IsDigits, decimal-cons}
use redisclient.Parser.{
  State, start, string, string_lf, error_string, error_lf, integer, integer_lf, bulk_size,
  bulk_size_lf, bulk, bulk_cr, array_size, array_size_lf, RedisParser, is_char, is_control, Turn,
  errors, breaks, continues, turn, switch, end_turn, store_value, end_value,
}
use redisclient.Parser.Loop.{Exit, returns, leaves}
use redisclient.Parser.Bytewise.{feed, turn_bulk}
use redisclient.Resp.{is_text}

-- The loop behind a round.
abbrev pub feed_turn : Turn → ℕ → Bytes → Option Exit
feed_turn (errors q) n rest = some (returns q n)
feed_turn (breaks q k) n rest = some (leaves start q n)
feed_turn (continues t q k) n rest = feed t q n rest
feed_turn Turn.faults n rest = none

-- The loop behind a complete value.
unfoldable pub deliver : RedisParser → ℕ → Bytes → Option Exit
deliver p n rest = feed_turn (end_value 0 (store_value p)) n rest

pub feed_step :
    (s : State) (p : RedisParser) (n c : ℕ) (rest : Bytes) (w : Turn)
    → turn s c [] p ≡ w
    → feed s p n (c ∷ rest) ≡ feed_turn w (n + 1) rest
unfolding feed
feed_step s p n c rest (errors q) e = rw (e, feed) refl
feed_step s p n c rest _ e = rw (e, feed) refl

-- A state in which a byte is kept.
abbrev pub Keeps : State → (ℕ → Bool) → Type 0
Keeps s good =
    (c : ℕ) (p : RedisParser)
    → good c ≡ true
    → turn s c [] p ≡ continues s (record p { buf = p.buf ++ c ∷ [] }) 0

pub string-Keeps : Keeps string is_text
unfolding turn switch end_turn is_text is_char is_control
string-Keeps c p h = ground arith

pub error_string-Keeps : Keeps error_string is_text
unfolding turn switch end_turn is_text is_char is_control
error_string-Keeps c p h = ground arith

abbrev pub is_number : ℕ → Bool
is_number c = is_digit c || c == b'-'

pub integer-Keeps : Keeps integer is_number
unfolding turn switch end_turn is_digit
integer-Keeps c p h = ground arith

pub bulk_size-Keeps : Keeps bulk_size is_number
unfolding turn switch end_turn is_digit
bulk_size-Keeps c p h = ground arith

pub array_size-Keeps : Keeps array_size is_number
unfolding turn switch end_turn is_digit
array_size-Keeps c p h = ground arith

abbrev pub keep_all : RedisParser → Bytes → RedisParser
keep_all p text = record p { buf = p.buf ++ text }

feed-Keeps :
    (s : State) (good : ℕ → Bool) (text rest : Bytes) (p : RedisParser) (n : ℕ)
    → Keeps s good
    → All (λ c. good c ≡ true) text
    → feed s p n (text ++ rest) ≡ feed s (keep_all p text) (n + length text) rest
feed-Keeps s good [] rest p n k h = ground (arith, append-nil p.buf)
feed-Keeps s good (c ∷ text) rest p n k h =
    feed_step s p n c (text ++ rest) _ (k c p h.0)
    ∙ feed-Keeps s good text rest (record p { buf = p.buf ++ c ∷ [] }) (n + 1) k h.1
    ∙ ground (arith, append_assoc p.buf (c ∷ []) text)

pub string-cr : (p : RedisParser) → turn string b'\r' [] p ≡ continues string_lf p 0
unfolding turn switch end_turn
string-cr p = refl

pub error_string-cr : (p : RedisParser) → turn error_string b'\r' [] p ≡ continues error_lf p 0
unfolding turn switch end_turn
error_string-cr p = refl

-- A line of text: the bytes up to the line feed.
abbrev ReadsText : State → State → Type 0
ReadsText s lf =
    (text rest : Bytes) (p : RedisParser) (n : ℕ)
    → All (λ c. is_text c ≡ true) text
    → feed s p n (text ++ b'\r' ∷ rest) ≡ feed lf (keep_all p text) (n + length text + 1) rest

pub feed-string : ReadsText string string_lf
feed-string text rest p n h =
    feed-Keeps string is_text text (b'\r' ∷ rest) p n string-Keeps h
    ∙ feed_step string _ _ b'\r' rest _ (string-cr (keep_all p text))

pub feed-error_string : ReadsText error_string error_lf
feed-error_string text rest p n h =
    feed-Keeps error_string is_text text (b'\r' ∷ rest) p n error_string-Keeps h
    ∙ feed_step error_string _ _ b'\r' rest _ (error_string-cr (keep_all p text))

-- A number: its first byte and the others, up to the carriage return.
abbrev ReadsNumber : State → State → Type 0
ReadsNumber s lf =
    (c : ℕ) (ds rest : Bytes) (p : RedisParser) (n : ℕ)
    → p.buf ≡ []
    → All (λ d. is_number d ≡ true) (c ∷ ds)
    → feed s p n ((c ∷ ds) ++ b'\r' ∷ rest)
      ≡ feed lf (record p { buf = c ∷ ds }) (n + length (c ∷ ds) + 1) rest

abbrev Ends : State → State → Type 0
Ends s lf =
    (p : RedisParser) (c : ℕ) (ds : Bytes)
    → p.buf ≡ []
    → turn s b'\r' [] (keep_all p (c ∷ ds)) ≡ continues lf (record p { buf = c ∷ ds }) 0

integer-Ends : Ends integer integer_lf
unfolding turn switch end_turn
integer-Ends p c ds e = ground arith

bulk_size-Ends : Ends bulk_size bulk_size_lf
unfolding turn switch end_turn
bulk_size-Ends p c ds e = ground arith

array_size-Ends : Ends array_size array_size_lf
unfolding turn switch end_turn
array_size-Ends p c ds e = ground arith

feed_number : (s lf : State) → Keeps s is_number → Ends s lf → ReadsNumber s lf
feed_number s lf k ends c ds rest p n e h =
    feed-Keeps s is_number (c ∷ ds) (b'\r' ∷ rest) p n k h
    ∙ feed_step s _ _ b'\r' rest (continues lf _ 0) (ends p c ds e)

pub feed-integer : ReadsNumber integer integer_lf
feed-integer = feed_number integer integer_lf integer-Keeps integer-Ends

pub feed-bulk_size : ReadsNumber bulk_size bulk_size_lf
feed-bulk_size = feed_number bulk_size bulk_size_lf bulk_size-Keeps bulk_size-Ends

pub feed-array_size : ReadsNumber array_size array_size_lf
feed-array_size = feed_number array_size array_size_lf array_size-Keeps array_size-Ends

abbrev missing : RedisParser → ℕ → ℕ → RedisParser
missing p c n = record p { buf = p.buf ++ c ∷ []; bulk_size = pos n }

bulk_more :
    (c : ℕ) (p : RedisParser) (n : ℕ)
    → p.bulk_size ≡ pos (suc (suc n))
    → suc (suc n) < 2 ^ 63
    → turn bulk c [] p ≡ continues bulk (missing p c (suc n)) 0
bulk_more c p n e h = turn_bulk c [] p (suc n) e h ∙ ground arith

-- The bytes of a string that is not empty.
pub feed-bulk_bytes :
    (c : ℕ) (text rest : Bytes) (p : RedisParser) (n : ℕ)
    → p.bulk_size ≡ pos (length (c ∷ text))
    → length (c ∷ text) < 2 ^ 63
    → feed bulk p n ((c ∷ text) ++ rest)
      ≡ feed bulk_cr
          (record p { buf = p.buf ++ c ∷ text; bulk_size = pos 0 })
          (n + length (c ∷ text))
          rest
feed-bulk_bytes c [] rest p n e h =
    feed_step bulk p n c rest _ (turn_bulk c [] p 0 e h) ∙ ground arith
feed-bulk_bytes c (d ∷ text) rest p n e h =
    feed_step bulk p n c ((d ∷ text) ++ rest) _ (bulk_more c p (length text) e h)
    ∙ feed-bulk_bytes d text rest (missing p c (suc (length text))) (n + 1) refl (omega arith)
    ∙ ground (arith, append_assoc p.buf (c ∷ []) (d ∷ text))

digits-number : (ds : Bytes) → IsDigits ds → All (λ d. is_number d ≡ true) ds
digits-number [] h = tt
digits-number (c ∷ ds) h = (ground arith, digits-number ds h.1)

-- A printed number is not empty, and made of the bytes that the parser takes for one.
pub decimal_ℤ-number :
    (z : ℤ)
    → (c : ℕ) × (ds : Bytes) × (decimal_ℤ z ≡ c ∷ ds) × All (λ d. is_number d ≡ true) (c ∷ ds)
unfolding decimal_ℤ is_digit
decimal_ℤ-number (pos n) =
    let (c, ds, e) = decimal-cons n in
    (c, ds, e, digits-number (c ∷ ds) (subst IsDigits e (decimal-IsDigits n)))
decimal_ℤ-number (negsuc n) =
    (b'-', decimal (suc n), refl, (refl, digits-number _ (decimal-IsDigits (suc n))))

pub decimal-number :
    (n : ℕ) → (c : ℕ) × (ds : Bytes) × (decimal n ≡ c ∷ ds) × All (λ d. is_number d ≡ true) (c ∷ ds)
decimal-number n = unfold decimal_ℤ in decimal_ℤ-number (pos n)
