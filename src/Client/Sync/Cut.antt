-- ===== src/Client/Sync/Cut.antt =====
-- A text that is cut in two, and the value that it begins with.
use redisclient.Base.{
  some-injective, ℕ, ◌+◌, ◌<◌, ◌≡◌, ◌≢◌, refl, ap, sym, subst, ◌∙◌, ◌⊎◌, inl, inr, Option, none,
  some, [], ◌∷◌, ◌++◌, append-nil, length, Bytes, arith, ◌>>=◌,
}
use redisclient.Parser.{RedisParser, completed, incompleted, error}
use redisclient.Parser.Loop.{Parsed, parse}
use redisclient.Parser.Invariant.Loop.{IsReady, ParseResult-cases, ResultSays, parse-IsValid}
use redisclient.Parser.Chunks.{parse_rest, later, parse-append}

incompleted≢completed : incompleted ≢ completed
incompleted≢completed h = cc

error≢completed : error ≢ completed
error≢completed h = cc

pub later-inv :
    (k : ℕ) (x : Option Parsed) {o : Parsed}
    → (x >>= later k) ≡ some o
    → (q : Parsed) × (x ≡ some q) × (o ≡ record q { position = k + q.position })
later-inv k none h = cc
later-inv k (some q) h = (q, refl, cc)

-- A text that is cut off inside a value is not empty behind the cut.
rest-some :
    (p : RedisParser) (text rest : Bytes) (r o : Parsed)
    → parse p (text ++ rest) ≡ some o
    → o.result ≡ completed
    → parse p text ≡ some r
    → r.result ≡ incompleted
    → 0 < length rest
rest-some p text [] r o whole done first e =
    let same = sym first ∙ subst (λ t. parse p t ≡ some o) (append-nil text) whole in
    absurd
      (incompleted≢completed (sym e ∙ ap (λ (x : Parsed). x.result) (some-injective same) ∙ done))
rest-some p text (b ∷ rest) r o whole done first e = omega arith

-- Where a whole value ends in two pieces of a text: in the first, or in the second.
pub value-cases :
    (p : RedisParser) (b : ℕ) (bs rest : Bytes) (o : Parsed)
    → IsReady p
    → parse p ((b ∷ bs) ++ rest) ≡ some o
    → o.result ≡ completed
    → (parse p (b ∷ bs) ≡ some o)
      ⊎ ((r q : Parsed) × (parse p (b ∷ bs) ≡ some r)
          × (r.result ≡ incompleted)
          × IsReady r.parser
          × (r.position ≡ length (b ∷ bs))
          × (0 < length rest)
          × (parse r.parser rest ≡ some q)
          × (o ≡ record q { position = length (b ∷ bs) + q.position }))
value-cases p b bs rest o prepared whole done =
    let (r, first, valid) = parse-IsValid p (b ∷ bs) prepared in
    let split = sym (parse-append p b bs rest prepared first) ∙ whole in
    elim (ParseResult-cases r.result) [
      | inl e ↦ inl (first ∙ rw (e, parse_rest) at split)
      | inr (inl e) ↦
          let (q, second, same) =
            later-inv (length (b ∷ bs)) (parse r.parser rest) (rw (e, parse_rest) at split) in
          inr (
            r,
            q,
            first,
            e,
            valid.ready,
            subst (λ x. ResultSays x (b ∷ bs) r) e valid.says,
            rest-some p (b ∷ bs) rest r o whole done first e,
            second,
            same,
          )
      | inr (inr e) ↦ absurd (
          error≢completed (
            sym e
            ∙ ap (λ (x : Parsed). x.result) (some-injective (rw (e, parse_rest) at split))
            ∙ done))
    ]
