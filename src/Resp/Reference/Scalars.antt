-- ===== src/Resp/Reference/Scalars.antt =====
-- The state machine at the begin of a status, an error, a number or a string, against `begin_value`.
use redisclient.Base.{
  ℕ, suc, ◌+◌, ◌^◌, ◌<◌, ◌≤◌, ◌≡◌, refl, sym, ap, subst, true, [], ◌∷◌, ◌==◌, length, Bytes, arith,
}
use redisclient.Base.Int.{pos}
use redisclient.Value.{nil, int_value, bytes_value, error_value}
use redisclient.Parser.{
  State, start, start_array, string, string_lf, error_string, error_lf, integer, integer_lf,
  bulk_size_lf, array_size, array_size_lf, RedisParser, errors, turn, switch, end_turn,
}
use redisclient.Parser.Number.{buf_to_long}
use redisclient.Parser.Number.Laws.{buf_to_long-IsInt64}
use redisclient.Parser.Bytewise.{feed}
use redisclient.Resp.{is_text}
use redisclient.Resp.Lines.{feed_step, feed_turn, deliver}
use redisclient.Resp.Scalars.{inside}
use redisclient.Resp.Turns.{
  begin_status, begin_failure, begin_integer, begin_bulk, string_lf-value, error_lf-value,
  integer_lf-value,
}
use redisclient.Resp.Reference.{Answer, done, behind_line, take_line, take_number, string_of}
use redisclient.Resp.Reference.Rest.{take_line-LineAtMost, take_number-LineAtMost}
use redisclient.Resp.Reference.Lines.{
  AnyBuffer, feed-take_line, feed-take_number, string-LineState, error_string-LineState,
  integer-LineState, bulk_size-LineState,
}
use redisclient.Resp.Reference.Strings.{
  Agrees, Agrees-with_value, Waits, behind_line-Agrees, bulk_size_lf-Waits, string_of-Agrees,
}

pub same : (c wanted : ℕ) → (c == wanted) ≡ true → c ≡ wanted
same c wanted h = ground (arith, h)

string_lf-Waits : Waits string_lf b'\n'
unfolding turn switch end_turn
string_lf-Waits = record { refuses = λ c p other. rw other refl; not_start = refl }

error_lf-Waits : Waits error_lf b'\n'
unfolding turn switch end_turn
error_lf-Waits = record { refuses = λ c p other. rw other refl; not_start = refl }

integer_lf-Waits : Waits integer_lf b'\n'
unfolding turn switch end_turn
integer_lf-Waits = record { refuses = λ c p other. rw other refl; not_start = refl }

pub array_size_lf-Waits : Waits array_size_lf b'\n'
unfolding turn switch end_turn
array_size_lf-Waits = record { refuses = λ c p other. rw other refl; not_start = refl }

-- A number wants a byte.
abbrev Nonempty : State → Type 0
Nonempty s = (q : RedisParser) → q.buf ≡ [] → turn s b'\r' [] q ≡ errors (record q { states = [] })

integer-Nonempty : Nonempty integer
unfolding turn switch end_turn
integer-Nonempty q e = rw e refl

bulk_size-Nonempty : Nonempty State.bulk_size
unfolding turn switch end_turn
bulk_size-Nonempty q e = rw e refl

pub array_size-Nonempty : Nonempty array_size
unfolding turn switch end_turn
array_size-Nonempty q e = rw e refl

-- The status, the error and the number behind their first bytes
pub status-Agrees :
    (rest : Bytes) (p : RedisParser) (n : ℕ)
    → Agrees
        (behind_line (take_line is_text rest) (λ text behind. done (bytes_value text) behind))
        p
        (n + 1 + length rest)
        (feed start p n (b'+' ∷ rest))
unfolding deliver
status-Agrees rest p n =
    let q = record p { buf = [] } in
    let line =
      feed-take_line string string_lf is_text AnyBuffer string-LineState rest q (n + 1)
        (λ cr. tt) in
    subst
      (Agrees (behind_line (take_line is_text rest) (λ text behind. done (bytes_value text) behind))
        p (n + 1 + length rest))
      (sym (feed_step start p n b'+' rest _ (begin_status p)))
      (behind_line-Agrees (take_line is_text rest) string_lf q p (length rest) (n + 1 + length rest)
        _ (λ text behind. done (bytes_value text) behind) string_lf-Waits
        (take_line-LineAtMost is_text rest) line
        (λ text behind m count short. (
          text,
          p.bulk_size,
          m + 1,
          ap (λ w. feed_turn w (m + 1) behind) (string_lf-value (record q { buf = text })),
          count,
        )))

pub failure-Agrees :
    (rest : Bytes) (p : RedisParser) (n : ℕ)
    → Agrees
        (behind_line (take_line is_text rest) (λ text behind. done (error_value text) behind))
        p
        (n + 1 + length rest)
        (feed start p n (b'-' ∷ rest))
unfolding deliver
failure-Agrees rest p n =
    let q = record p { buf = [] } in
    let line =
      feed-take_line error_string error_lf is_text AnyBuffer error_string-LineState rest q (n + 1)
        (λ cr. tt) in
    subst
      (Agrees (behind_line (take_line is_text rest) (λ text behind. done (error_value text) behind))
        p (n + 1 + length rest))
      (sym (feed_step start p n b'-' rest _ (begin_failure p)))
      (behind_line-Agrees (take_line is_text rest) error_lf q p (length rest) (n + 1 + length rest)
        _ (λ text behind. done (error_value text) behind) error_lf-Waits
        (take_line-LineAtMost is_text rest) line
        (λ text behind m count short. (
          text,
          p.bulk_size,
          m + 1,
          ap (λ w. feed_turn w (m + 1) behind) (error_lf-value (record q { buf = text })),
          count,
        )))

pub number-Agrees :
    (rest : Bytes) (p : RedisParser) (n : ℕ)
    → Agrees
        (behind_line (take_number rest) (λ text behind. done (int_value (buf_to_long text)) behind))
        p
        (n + 1 + length rest)
        (feed start p n (b':' ∷ rest))
unfolding deliver
number-Agrees rest p n =
    let q = record p { buf = [] } in
    let line =
      feed-take_number integer integer_lf rest q (n + 1) integer-LineState integer-Nonempty refl in
    subst
      (Agrees
        (behind_line (take_number rest) (λ text behind. done (int_value (buf_to_long text)) behind))
        p (n + 1 + length rest))
      (sym (feed_step start p n b':' rest _ (begin_integer p)))
      (behind_line-Agrees (take_number rest) integer_lf q p (length rest) (n + 1 + length rest) _
        (λ text behind. done (int_value (buf_to_long text)) behind) integer_lf-Waits
        (take_number-LineAtMost rest) line
        (λ text behind m count short. (
          [],
          p.bulk_size,
          m + 1,
          ap (λ w. feed_turn w (m + 1) behind)
              (integer_lf-value (record q { buf = text }) (buf_to_long text) refl),
          count,
        )))

pub string-Agrees :
    (rest : Bytes) (p : RedisParser) (n : ℕ)
    → Agrees
        (behind_line (take_number rest) (λ text behind. string_of (buf_to_long text) behind))
        p
        (n + 1 + length rest)
        (feed start p n (b'$' ∷ rest))
string-Agrees rest p n =
    let q = record p { buf = []; bulk_size = pos 0 } in
    let line =
      feed-take_number State.bulk_size bulk_size_lf rest q (n + 1) bulk_size-LineState
        bulk_size-Nonempty refl in
    subst
      (Agrees (behind_line (take_number rest) (λ text behind. string_of (buf_to_long text) behind))
        p (n + 1 + length rest))
      (sym (feed_step start p n b'$' rest _ (begin_bulk p)))
      (behind_line-Agrees (take_number rest) bulk_size_lf q p (length rest) (n + 1 + length rest) _
        (λ text behind. string_of (buf_to_long text) behind) bulk_size_lf-Waits
        (take_number-LineAtMost rest) line
        (λ text behind m count short.
          Agrees-with_value (string_of (buf_to_long text) behind) p text (pos 0) p.redis_value
            (n + 1 + length rest) _
            (string_of-Agrees (buf_to_long text) behind (record q { buf = text }) (m + 1)
              (n + 1 + length rest) refl (buf_to_long-IsInt64 text) count)))

-- What the items come to, in the loop within an array of `k` items and one more
abbrev pub ItemsAgree : (ℕ → Bytes → Answer) → RedisParser → ℕ → ℕ → Type 0
ItemsAgree items p limit total =
    (k : ℕ) (b rest : Bytes) (m : ℕ)
    → suc k < 2 ^ 63
    → m + 1 + length rest ≡ total
    → length rest ≤ limit
    → Agrees (items k rest) p total
        (feed start_array (inside (record p { buf = b }) (suc k) nil) (m + 1) rest)
