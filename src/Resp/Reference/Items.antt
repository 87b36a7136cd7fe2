-- ===== src/Resp/Reference/Items.antt =====
-- The state machine at the begin of a value and within an array, against `begin_value` and
-- `read_items`.
use redisclient.Base.{
  ℕ, zero, suc, ◌+◌, ◌≤◌, ◌≡◌, refl, sym, ap, subst, true, false, inl, inr, Bool-cases, [], ◌∷◌,
  ◌==◌, length, Bytes, arith,
}
use redisclient.Base.Int.{ℤ, pos, negsuc, IsInt64}
use redisclient.Value.{int_value, bytes_value, error_value}
use redisclient.Parser.{
  start, array_size, array_size_lf, RedisParser, errors, turn, switch, end_turn,
}
use redisclient.Parser.Number.{buf_to_long}
use redisclient.Parser.Number.Laws.{buf_to_long-IsInt64}
use redisclient.Parser.Bytewise.{feed}
use redisclient.Resp.{is_text}
use redisclient.Resp.Lines.{feed_step, feed_turn, deliver}
use redisclient.Resp.Turns.{begin_array, array_size_lf-null, array_size_lf-empty, array_size_lf-pos}
use redisclient.Resp.Reference.{
  Answer, done, behind_line, take_line, take_number, string_of, array_of, begin_value,
}
use redisclient.Resp.Reference.Rest.{take_number-LineAtMost}
use redisclient.Resp.Reference.Lines.{feed-take_number, array_size-LineState}
use redisclient.Resp.Reference.Strings.{Agrees, behind_line-Agrees}
use redisclient.Resp.Reference.Scalars.{
  same, array_size_lf-Waits, array_size-Nonempty, status-Agrees, failure-Agrees, number-Agrees,
  string-Agrees, ItemsAgree,
}

array_size_lf-negative :
    (p : RedisParser) (k : ℕ)
    → buf_to_long p.buf ≡ negsuc (suc k)
    → turn array_size_lf b'\n' [] p ≡ errors (record p { states = [] })
unfolding turn switch end_turn
array_size_lf-negative p k e = ground arith

array_of-Agrees :
    (items : ℕ → Bytes → Answer) (z : ℤ) (text rest : Bytes) (p : RedisParser) (m limit total : ℕ)
    → buf_to_long text ≡ z
    → IsInt64 z
    → m + 1 + length rest ≡ total
    → length rest ≤ limit
    → ItemsAgree items p limit total
    → Agrees
        (array_of items z rest)
        p
        total
        (feed_turn (turn array_size_lf b'\n' [] (record p { buf = text })) (m + 1) rest)
unfolding deliver
array_of-Agrees items (pos zero) text rest p m limit total read small count short agree = (
  text,
  p.bulk_size,
  m + 1,
  ap (λ w. feed_turn w (m + 1) rest) (array_size_lf-empty (record p { buf = text }) read),
  count,
)
array_of-Agrees items (pos (suc k)) text rest p m limit total read small count short agree =
    subst (λ w. Agrees (items k rest) p total (feed_turn w (m + 1) rest))
      (sym (array_size_lf-pos (record p { buf = text }) k read))
      (agree k text rest m small count short)
array_of-Agrees items (negsuc zero) text rest p m limit total read small count short agree = (
  text,
  p.bulk_size,
  m + 1,
  ap (λ w. feed_turn w (m + 1) rest) (array_size_lf-null (record p { buf = text }) read),
  count,
)
array_of-Agrees items (negsuc (suc k)) text rest p m limit total read small count short agree = (
  _,
  m + 1,
  ap (λ w. feed_turn w (m + 1) rest) (array_size_lf-negative (record p { buf = text }) k read),
)

array-Agrees :
    (items : ℕ → Bytes → Answer) (rest : Bytes) (p : RedisParser) (n : ℕ)
    → ItemsAgree items p (length rest) (n + 1 + length rest)
    → Agrees
        (behind_line (take_number rest) (λ text behind. array_of items (buf_to_long text) behind))
        p
        (n + 1 + length rest)
        (feed start p n (b'*' ∷ rest))
array-Agrees items rest p n agree =
    let q = record p { buf = [] } in
    let line =
      feed-take_number array_size array_size_lf rest q (n + 1) array_size-LineState
        array_size-Nonempty refl in
    subst
      (Agrees
        (behind_line (take_number rest) (λ text behind. array_of items (buf_to_long text) behind)) p
        (n + 1 + length rest))
      (sym (feed_step start p n b'*' rest _ (begin_array p)))
      (behind_line-Agrees (take_number rest) array_size_lf q p (length rest) (n + 1 + length rest) _
        (λ text behind. array_of items (buf_to_long text) behind) array_size_lf-Waits
        (take_number-LineAtMost rest) line
        (λ text behind m count short.
          array_of-Agrees items (buf_to_long text) text behind p m (length rest)
            (n + 1 + length rest) refl (buf_to_long-IsInt64 text) count short agree))

no_begin :
    (c : ℕ) (p : RedisParser)
    → (c == b'+') ≡ false
    → (c == b'-') ≡ false
    → (c == b':') ≡ false
    → (c == b'$') ≡ false
    → (c == b'*') ≡ false
    → turn start c [] p ≡ errors (record p { buf = [] })
unfolding turn switch end_turn
no_begin c p e1 e2 e3 e4 e5 = rw (e1, e2, e3, e4, e5) refl

at_byte :
    (x : Answer) (p : RedisParser) (n c wanted : ℕ) (rest : Bytes)
    → (c == wanted) ≡ true
    → Agrees x p (n + 1 + length rest) (feed start p n (wanted ∷ rest))
    → Agrees x p (n + 1 + length rest) (feed start p n (c ∷ rest))
at_byte x p n c wanted rest h agree =
    subst (λ c. Agrees x p (n + 1 + length rest) (feed start p n (c ∷ rest)))
      (sym (same c wanted h)) agree

pub begin_value-Agrees :
    (items : ℕ → Bytes → Answer) (c : ℕ) (rest : Bytes) (p : RedisParser) (n : ℕ)
    → ItemsAgree items p (length rest) (n + 1 + length rest)
    → Agrees (begin_value c rest items) p (n + 1 + length rest) (feed start p n (c ∷ rest))
begin_value-Agrees items c rest p n agree = elim (Bool-cases (c == b'+')) [
  | inl plus ↦ rw plus (
      at_byte (behind_line (take_line is_text rest) (λ text behind. done (bytes_value text) behind))
        p n c b'+' rest plus (status-Agrees rest p n))
  | inr e1 ↦ elim (Bool-cases (c == b'-')) [
    | inl minus ↦
        rw (e1, minus)
          (at_byte
            (behind_line (take_line is_text rest) (λ text behind. done (error_value text) behind)) p
            n c b'-' rest minus (failure-Agrees rest p n))
    | inr e2 ↦ elim (Bool-cases (c == b':')) [
      | inl colon ↦
          rw (e1, e2, colon)
            (at_byte
              (behind_line (take_number rest)
                (λ text behind. done (int_value (buf_to_long text)) behind))
              p n c b':' rest colon (number-Agrees rest p n))
      | inr e3 ↦ elim (Bool-cases (c == b'$')) [
        | inl dollar ↦
            rw (e1, e2, e3, dollar)
              (at_byte
                (behind_line (take_number rest)
                  (λ text behind. string_of (buf_to_long text) behind))
                p n c b'$' rest dollar (string-Agrees rest p n))
        | inr e4 ↦ elim (Bool-cases (c == b'*')) [
          | inl star ↦
              rw (e1, e2, e3, e4, star)
                (at_byte
                  (behind_line (take_number rest)
                    (λ text behind. array_of items (buf_to_long text) behind))
                  p n c b'*' rest star (array-Agrees items rest p n agree))
          | inr e5 ↦
              rw (e1, e2, e3, e4, e5)
                (
                  record p { buf = [] },
                  n + 1,
                  feed_step start p n c rest _ (no_begin c p e1 e2 e3 e4 e5),
                )
        ]
      ]
    ]
  ]
]
