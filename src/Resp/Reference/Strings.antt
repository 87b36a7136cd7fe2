-- ===== src/Resp/Reference/Strings.antt =====
-- The state machine behind a line: the line feed, and the bytes of a string, against `behind_line`
-- and `string_of`.
use redisclient.Base.{
  ℕ, zero, suc, ◌+◌, ◌-◌, ◌^◌, ◌<◌, ◌≤◌, ◌≡◌, refl, sym, ap, subst, ◌∙◌, true, false, inl, inr,
  Bool-cases, Option, [], ◌∷◌, ◌++◌, ◌==◌, ltb, length, take, drop, length-drop, min, Bytes, arith,
}
use redisclient.Base.Int.{ℤ, pos, negsuc, IsInt64}
use redisclient.Value.{RedisValue, bytes_value}
use redisclient.Parser.{
  State, bulk, bulk_cr, bulk_lf, bulk_size_lf, RedisParser, is_start, errors, turn, switch,
  end_turn,
}
use redisclient.Parser.Number.{buf_to_long}
use redisclient.Parser.Loop.{Exit}
use redisclient.Parser.Bytewise.{feed, turn_bulk_size_one, feed-bulk, bulk_state, bulk_read}
use redisclient.Resp.Lines.{feed_step, feed_turn, deliver}
use redisclient.Resp.Scalars.{with_value}
use redisclient.Resp.Turns.{bulk_cr-cr, bulk_lf-value, bulk_size_lf-null, bulk_size_lf-empty}
use redisclient.Resp.Reference.{
  Answer, done, wants_more, refused, exhausted, Line, ended, cut, bad, behind_lf, behind_line,
  end_string, take_string, string_of,
}
use redisclient.Resp.Reference.Rest.{LineAtMost}
use redisclient.Resp.Reference.Lines.{CutsOff, Refuses, LineAgrees}

-- What the loop has come to, from a parser with the stacks of `p`: a value is complete, with the
-- bytes behind it left; or the bytes have ended; or there was an error.
abbrev pub Agrees : Answer → RedisParser → ℕ → Option Exit → Type 0
Agrees (done v rest) p total o =
    (b : Bytes) × (z : ℤ) × (m : ℕ) × (o ≡ deliver (with_value p b z v) m rest)
    × (m + length rest ≡ total)
Agrees wants_more p total o = CutsOff o
Agrees refused p total o = Refuses o
Agrees exhausted p total o = ⊥

-- What is in the buffer, the string's size and the value do not matter.
pub Agrees-with_value :
    (x : Answer) (p : RedisParser) (b : Bytes) (z : ℤ) (v : RedisValue) (total : ℕ)
    (o : Option Exit)
    → Agrees x (with_value p b z v) total o
    → Agrees x p total o
Agrees-with_value (done w rest) p b z v total o h = h
Agrees-with_value wants_more p b z v total o h = h
Agrees-with_value refused p b z v total o h = h
Agrees-with_value exhausted p b z v total o h = h

-- A state that waits for one byte
pub record Waits (s : State) (wanted : ℕ) : Type 0 where
  pub refuses :
      (c : ℕ) (p : RedisParser)
      → (c == wanted) ≡ false
      → turn s c [] p ≡ errors (record p { states = [] })
  pub not_start : is_start s ≡ false

pub cut_off : (s : State) (p : RedisParser) (n : ℕ) → is_start s ≡ false → CutsOff (feed s p n [])
unfolding feed
cut_off s p n h = (s, p, n, refl, ground (arith, h))

pub refused_at :
    (s : State) (wanted c : ℕ) (rest : Bytes) (p : RedisParser) (n : ℕ)
    → Waits s wanted
    → (c == wanted) ≡ false
    → Refuses (feed s p n (c ∷ rest))
refused_at s wanted c rest p n waits other =
    let q = record p { states = [] } in
    (q, n + 1, feed_step s p n c rest (errors q) (waits.refuses c p other))

same_byte : (c wanted : ℕ) → (c == wanted) ≡ true → c ≡ wanted
same_byte c wanted h = ground (arith, h)

-- The line feed, with what is behind it
pub behind_lf-Agrees :
    (s : State) (p q : RedisParser) (n total : ℕ) (rest : Bytes) (next : Bytes → Answer)
    → Waits s b'\n'
    → n + length rest ≡ total
    → ((behind : Bytes)
        → n + 1 + length behind ≡ total
        → Agrees (next behind) q total (feed_turn (turn s b'\n' [] p) (n + 1) behind))
    → Agrees (behind_lf rest next) q total (feed s p n rest)
behind_lf-Agrees s p q n total [] next waits count goes = cut_off s p n waits.not_start
behind_lf-Agrees s p q n total (c ∷ rest) next waits count goes = elim (Bool-cases (c == b'\n')) [
  | inl lf ↦
      let at : c ≡ b'\n' = same_byte c b'\n' lf in
      let step : feed s p n (c ∷ rest) ≡ feed_turn (turn s b'\n' [] p) (n + 1) rest =
        ap (λ c. feed s p n (c ∷ rest)) at ∙ feed_step s p n b'\n' rest _ refl in
      rw lf (subst (Agrees (next rest) q total) (sym step) (goes rest (omega (arith, count))))
  | inr other ↦ rw other (refused_at s b'\n' c rest p n waits other)
]

-- A line, and what is behind it, of at most `k` bytes
pub behind_line-Agrees :
    (x : Line) (lf : State) (p q : RedisParser) (k total : ℕ) (o : Option Exit)
    (next : Bytes → Bytes → Answer)
    → Waits lf b'\n'
    → LineAtMost k x
    → LineAgrees x lf p total o
    → ((text behind : Bytes) (m : ℕ)
        → m + 1 + length behind ≡ total
        → length behind ≤ k
        → Agrees
            (next text behind)
            q
            total
            (feed_turn (turn lf b'\n' [] (record p { buf = p.buf ++ text })) (m + 1) behind))
    → Agrees (behind_line x next) q total o
behind_line-Agrees (ended text rest) lf p q k total o next waits short (m, e, count) goes =
    subst (Agrees (behind_lf rest (next text)) q total) (sym e) (
      behind_lf-Agrees lf (record p { buf = p.buf ++ text }) q m total rest (next text) waits count
        (λ behind at. goes text behind m at (omega (arith, at, count, short))))
behind_line-Agrees cut lf p q k total o next waits short h goes = h
behind_line-Agrees bad lf p q k total o next waits short h goes = h

bulk_cr-Waits : Waits bulk_cr b'\r'
unfolding turn switch end_turn
bulk_cr-Waits = record { refuses = λ c p other. rw other refl; not_start = refl }

bulk_lf-Waits : Waits bulk_lf b'\n'
unfolding turn switch end_turn
bulk_lf-Waits = record { refuses = λ c p other. rw other refl; not_start = refl }

pub bulk_size_lf-Waits : Waits bulk_size_lf b'\n'
unfolding turn switch end_turn
bulk_size_lf-Waits = record { refuses = λ c p other. rw other refl; not_start = refl }

-- The end of a string that is in the buffer
end_string-Agrees :
    (s rest : Bytes) (p : RedisParser) (n total : ℕ)
    → p.buf ≡ s
    → n + length rest ≡ total
    → Agrees (end_string s rest) p total (feed bulk_cr p n rest)
unfolding deliver
end_string-Agrees s [] p n total is count = cut_off bulk_cr p n refl
end_string-Agrees s (c ∷ rest) p n total is count = elim (Bool-cases (c == b'\r')) [
  | inl cr ↦
      let at : c ≡ b'\r' = same_byte c b'\r' cr in
      let step : feed bulk_cr p n (c ∷ rest) ≡ feed bulk_lf p (n + 1) rest =
        ap (λ c. feed bulk_cr p n (c ∷ rest)) at
        ∙ feed_step bulk_cr p n b'\r' rest _ (bulk_cr-cr p) in
      rw cr (
        subst (Agrees (behind_lf rest (λ behind. done (bytes_value s) behind)) p total) (sym step) (
          behind_lf-Agrees bulk_lf p p (n + 1) total rest (λ behind. done (bytes_value s) behind)
            bulk_lf-Waits (omega (arith, count))
            (λ behind count. (
              p.buf,
              p.bulk_size,
              n + 1 + 1,
              ap (λ w. feed_turn w (n + 1 + 1) behind) (bulk_lf-value p)
                  ∙ ap
                      (λ b.
                        deliver (with_value p p.buf p.bulk_size (bytes_value b)) (n + 1 + 1) behind)
                      is,
              count,
            ))))
  | inr other ↦ rw other (refused_at bulk_cr b'\r' c rest p n bulk_cr-Waits other)
]

not_below_zero : (a : ℕ) → ltb a 0 ≡ false
not_below_zero a = ground arith

ltb_below : (a b : ℕ) → ltb a b ≡ true → a < b
ltb_below a b h = ground (arith, h)

ltb_not : (a b : ℕ) → ltb a b ≡ false → b ≤ a
ltb_not a b h = ground (arith, h)

drop_short : (n : ℕ) (xs : Bytes) → length xs ≤ n → drop n xs ≡ []
drop_short zero [] h = refl
drop_short zero (x ∷ xs) h = absurd (omega arith)
drop_short (suc n) [] h = refl
drop_short (suc n) (x ∷ xs) h = drop_short n xs (omega arith)

-- The bytes of a string that is not empty
bulk-Agrees :
    (k : ℕ) (rest : Bytes) (p : RedisParser) (n total : ℕ)
    → p.buf ≡ []
    → p.bulk_size ≡ pos (suc k)
    → suc k < 2 ^ 63
    → n + length rest ≡ total
    → Agrees (take_string (suc k) rest) p total (feed bulk p n rest)
bulk-Agrees k rest p n total empty size small count =
    let read = min (suc k) (length rest) in
    let ran = feed-bulk rest p k n size small in
    elim (Bool-cases (ltb (length rest) (suc k))) [
      | inl short ↦
          let all : read ≡ length rest = omega (arith, ltb_below (length rest) (suc k) short) in
          let none_left : drop read rest ≡ [] = drop_short read rest (omega (arith, all)) in
          let at : bulk_state (suc k) rest ≡ bulk = rw short refl in
          rw short (
            subst CutsOff
              (sym (
                ran
                ∙ ap (λ s. feed s (bulk_read p (suc k) rest) (n + read) (drop read rest)) at
                ∙ ap (λ l. feed bulk (bulk_read p (suc k) rest) (n + read) l) none_left))
              (cut_off bulk (bulk_read p (suc k) rest) (n + read) refl))
      | inr enough ↦
          let below = ltb_not (length rest) (suc k) enough in
          let all : read ≡ suc k = omega (arith, below) in
          let at : bulk_state (suc k) rest ≡ bulk_cr = rw enough refl in
          let q = record p { buf = p.buf ++ take (suc k) rest; bulk_size = pos (suc k - suc k) } in
          let string_is : q.buf ≡ take (suc k) rest = ap (λ l. l ++ take (suc k) rest) empty in
          rw enough (
            subst (Agrees (end_string (take (suc k) rest) (drop (suc k) rest)) p total)
              (sym (
                ran
                ∙ ap (λ s. feed s (bulk_read p (suc k) rest) (n + read) (drop read rest)) at
                ∙ ap
                    (λ j.
                      feed bulk_cr
                        (record p { buf = p.buf ++ take j rest; bulk_size = pos (suc k - j) })
                        (n + j) (drop j rest))
                    all))
              (Agrees-with_value (end_string (take (suc k) rest) (drop (suc k) rest)) p q.buf
                q.bulk_size p.redis_value total _
                (end_string-Agrees (take (suc k) rest) (drop (suc k) rest) q (n + suc k) total
                  string_is (omega (arith, length-drop (suc k) rest, below, count)))))
    ]

bulk_size_lf-negative :
    (p : RedisParser) (k : ℕ)
    → buf_to_long p.buf ≡ negsuc (suc k)
    → turn bulk_size_lf b'\n' [] p
      ≡ errors (record p { states = []; buf = []; bulk_size = negsuc (suc k) })
unfolding turn switch end_turn
bulk_size_lf-negative p k e = ground arith

-- The size of a string has been read.
pub string_of-Agrees :
    (z : ℤ) (rest : Bytes) (p : RedisParser) (n total : ℕ)
    → buf_to_long p.buf ≡ z
    → IsInt64 z
    → n + length rest ≡ total
    → Agrees (string_of z rest) p total (feed_turn (turn bulk_size_lf b'\n' [] p) n rest)
unfolding deliver
string_of-Agrees (pos zero) rest p n total read small count =
    let q = record p { bulk_size = pos 0; buf = [] } in
    subst (λ w. Agrees (take_string 0 rest) p total (feed_turn w n rest))
      (sym (bulk_size_lf-empty p read))
      (rw (not_below_zero (length rest)) (
        Agrees-with_value (end_string [] rest) p [] (pos 0) p.redis_value total _
          (end_string-Agrees [] rest q n total refl count)))
string_of-Agrees (pos (suc k)) rest p n total read small count =
    subst (λ w. Agrees (take_string (suc k) rest) p total (feed_turn w n rest))
      (sym (turn_bulk_size_one p k read small))
      (Agrees-with_value (take_string (suc k) rest) p [] (pos (suc k)) p.redis_value total _ (
        bulk-Agrees k rest (record p { buf = []; bulk_size = pos (suc k) }) n total refl refl small
          count))
string_of-Agrees (negsuc zero) rest p n total read small count =
    ([], negsuc 0, n, ap (λ w. feed_turn w n rest) (bulk_size_lf-null p read), count)
string_of-Agrees (negsuc (suc k)) rest p n total read small count =
    (_, n, ap (λ w. feed_turn w n rest) (bulk_size_lf-negative p k read))
