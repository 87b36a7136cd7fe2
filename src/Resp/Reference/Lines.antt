-- ===== src/Resp/Reference/Lines.antt =====
-- The state machine on a line of text and on a number, against `take_line` and `take_number`.
use redisclient.Base.{
  ℕ, suc, ◌+◌, ◌≡◌, refl, sym, ap, subst, ◌∙◌, Bool, true, false, ◌&&◌, inl, inr, Bool-cases,
  Option, some, [], ◌∷◌, ◌++◌, append_assoc, append-nil, ◌==◌, length, Bytes, arith,
}
use redisclient.Parser.{
  State, string, string_lf, error_string, error_lf, integer, integer_lf, bulk_size_lf, array_size,
  array_size_lf, RedisParser, is_empty, is_start, is_char, is_control, errors, continues, turn,
  switch, end_turn,
}
use redisclient.Parser.Loop.{Exit, returns, leaves}
use redisclient.Parser.Bytewise.{feed}
use redisclient.Resp.{is_text}
use redisclient.Resp.Lines.{
  Keeps, keep_all, feed_step, is_number, string-Keeps, error_string-Keeps, integer-Keeps,
  bulk_size-Keeps, array_size-Keeps, string-cr, error_string-cr,
}
use redisclient.Decimal.{is_digit}
use redisclient.Resp.Reference.{Line, ended, cut, bad, cons_line, take_line, take_number}

-- The loop has come to the end of the bytes within a value; or it has returned an error.
abbrev pub CutsOff : Option Exit → Type 0
CutsOff o =
    (s : State) × (q : RedisParser) × (m : ℕ) × (o ≡ some (leaves s q m))
    × ((is_empty q.array_sizes && is_start s) ≡ false)

abbrev pub Refuses : Option Exit → Type 0
Refuses o = (q : RedisParser) × (m : ℕ) × (o ≡ some (returns q m))

-- A line that has ended is in the buffer, and the loop is in state `lf`.
abbrev pub LineAgrees : Line → State → RedisParser → ℕ → Option Exit → Type 0
LineAgrees (ended text rest) lf p total o =
    (m : ℕ) × (o ≡ feed lf (keep_all p text) m rest) × (m + length rest ≡ total)
LineAgrees cut lf p total o = CutsOff o
LineAgrees bad lf p total o = Refuses o

-- A state that reads a line, with what it asks of the buffer at the carriage return.
pub record LineState (s lf : State) (good : ℕ → Bool) (Fine : Bytes → Type 0) : Type 0 where
  keeps : Keeps s good
  ends : (p : RedisParser) → Fine p.buf → turn s b'\r' [] p ≡ continues lf p 0
  refuses :
      (c : ℕ) (p : RedisParser)
      → (c == b'\r') ≡ false
      → good c ≡ false
      → turn s c [] p ≡ errors (record p { states = [] })
  stays : (buf : Bytes) (c : ℕ) → Fine (buf ++ c ∷ [])
  not_start : is_start s ≡ false

is_cr : (c : ℕ) → (c == b'\r') ≡ true → c ≡ b'\r'
is_cr c h = ground (arith, h)

abbrev begins_cr : Bytes → Bool
begins_cr [] = false
begins_cr (c ∷ rest) = c == b'\r'

cons_line-agrees :
    (x : Line) (lf : State) (p : RedisParser) (c total : ℕ) (o : Option Exit)
    → LineAgrees x lf (keep_all p (c ∷ [])) total o
    → LineAgrees (cons_line c x) lf p total o
cons_line-agrees (ended text rest) lf p c total o (m, e, l) =
    (m, e ∙ ap (λ b. feed lf (record p { buf = b }) m rest) (append_assoc p.buf (c ∷ []) text), l)
cons_line-agrees cut lf p c total o h = h
cons_line-agrees bad lf p c total o h = h

module _ (s lf : State) (good : ℕ → Bool) (Fine : Bytes → Type 0)
    (state : LineState s lf good Fine) where
  -- The end of the bytes, in the middle of the line
  cut_line : (p : RedisParser) (n : ℕ) → CutsOff (feed s p n [])
  unfolding feed
  cut_line p n = (s, p, n, refl, ground (arith, state.not_start))

  pub feed-take_line :
      (text : Bytes) (p : RedisParser) (n : ℕ)
      → (begins_cr text ≡ true → Fine p.buf)
      → LineAgrees (take_line good text) lf p (n + length text) (feed s p n text)
  unfolding take_line
  feed-take_line [] p n fine = cut_line p n
  feed-take_line (c ∷ rest) p n fine = elim (Bool-cases (c == b'\r')) [
    | inl cr ↦
        let first : turn s c [] p ≡ continues lf p 0 =
          ap (λ c. turn s c [] p) (is_cr c cr) ∙ state.ends p (fine cr) in
        rw cr (
          n + 1,
          feed_step s p n c rest (continues lf p 0) first
              ∙ ap (λ b. feed lf (record p { buf = b }) (n + 1) rest) (sym (append-nil p.buf)),
          omega arith,
        )
    | inr other ↦ elim (Bool-cases (good c)) [
      | inl fits ↦
          let step = feed_step s p n c rest _ (state.keeps c p fits) in
          let later =
            feed-take_line rest (keep_all p (c ∷ [])) (n + 1) (λ cr. state.stays p.buf c) in
          let total : n + 1 + length rest ≡ n + suc (length rest) = omega arith in
          rw (other, fits)
            (subst (LineAgrees (cons_line c (take_line good rest)) lf p (n + suc (length rest)))
              (sym step)
              (cons_line-agrees (take_line good rest) lf p c (n + suc (length rest)) _ (
                subst
                  (λ t.
                    LineAgrees (take_line good rest) lf (keep_all p (c ∷ [])) t
                      (feed s (keep_all p (c ∷ [])) (n + 1) rest))
                  total later)))
      | inr unfit ↦
          let q = record p { states = [] } in
          let step = feed_step s p n c rest (errors q) (state.refuses c p other unfit) in
          rw (other, unfit) (q, n + 1, step)
    ]
  ]

-- The states that read text
abbrev pub AnyBuffer : Bytes → Type 0
AnyBuffer buf = Unit

pub string-LineState : LineState string string_lf is_text AnyBuffer
unfolding turn switch end_turn is_text is_char is_control
string-LineState = record {
  keeps = string-Keeps;
  ends = λ p fine. string-cr p;
  refuses = λ c p other unfit. ground (arith, other, unfit);
  stays = λ buf c. tt;
  not_start = refl;
}

pub error_string-LineState : LineState error_string error_lf is_text AnyBuffer
unfolding turn switch end_turn is_text is_char is_control
error_string-LineState = record {
  keeps = error_string-Keeps;
  ends = λ p fine. error_string-cr p;
  refuses = λ c p other unfit. ground (arith, other, unfit);
  stays = λ buf c. tt;
  not_start = refl;
}

-- The states that read a number
abbrev pub SomeBuffer : Bytes → Type 0
SomeBuffer buf = is_empty buf ≡ false

snoc-SomeBuffer : (buf : Bytes) (c : ℕ) → SomeBuffer (buf ++ c ∷ [])
snoc-SomeBuffer [] c = refl
snoc-SomeBuffer (b ∷ buf) c = refl

pub integer-LineState : LineState integer integer_lf is_number SomeBuffer
unfolding turn switch end_turn is_digit
integer-LineState = record {
  keeps = integer-Keeps;
  ends = λ p fine. rw fine refl;
  refuses = λ c p other unfit. ground (arith, other, unfit);
  stays = snoc-SomeBuffer;
  not_start = refl;
}

pub bulk_size-LineState : LineState State.bulk_size bulk_size_lf is_number SomeBuffer
unfolding turn switch end_turn is_digit
bulk_size-LineState = record {
  keeps = bulk_size-Keeps;
  ends = λ p fine. rw fine refl;
  refuses = λ c p other unfit. ground (arith, other, unfit);
  stays = snoc-SomeBuffer;
  not_start = refl;
}

pub array_size-LineState : LineState array_size array_size_lf is_number SomeBuffer
unfolding turn switch end_turn is_digit
array_size-LineState = record {
  keeps = array_size-Keeps;
  ends = λ p fine. rw fine refl;
  refuses = λ c p other unfit. ground (arith, other, unfit);
  stays = snoc-SomeBuffer;
  not_start = refl;
}

-- A number, from an empty buffer
pub feed-take_number :
    (s lf : State) (text : Bytes) (p : RedisParser) (n : ℕ)
    → LineState s lf is_number SomeBuffer
    → ((q : RedisParser) → q.buf ≡ [] → turn s b'\r' [] q ≡ errors (record q { states = [] }))
    → p.buf ≡ []
    → LineAgrees (take_number text) lf p (n + length text) (feed s p n text)
unfolding take_number
feed-take_number s lf [] p n state none_read empty = cut_line s lf is_number SomeBuffer state p n
feed-take_number s lf (c ∷ rest) p n state none_read empty = elim (Bool-cases (c == b'\r')) [
  | inl cr ↦
      let q = record p { states = [] } in
      let first : turn s c [] p ≡ errors q =
        ap (λ c. turn s c [] p) (is_cr c cr) ∙ none_read p empty in
      rw cr (q, n + 1, feed_step s p n c rest (errors q) first)
  | inr other ↦
      let line =
        feed-take_line s lf is_number SomeBuffer state (c ∷ rest) p n
          (λ cr. absurd (ground (arith, cr, other))) in
      rw other (
        subst (λ x. LineAgrees x lf p (n + length (c ∷ rest)) (feed s p n (c ∷ rest)))
          (unfold take_line in rw other refl) line)
]
