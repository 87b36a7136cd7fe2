-- ===== src/Client/Messages/Wire.antt =====
-- From bytes to messages: `asyncRead` on printed replies is `doProcessMessage` on their values.
use redisclient.Base.{
  All, ℕ, zero, suc, ◌+◌, ◌<◌, ◌≤◌, ◌≡◌, refl, sym, ap, subst, ◌∙◌, some, List, [], ◌∷◌, ◌++◌, map,
  append_assoc, length, length-append, drop, Bytes, arith,
}
use redisclient.Decimal.{decimal, decimal_ℤ}
use redisclient.Value.{RedisValue}
use redisclient.Parser.{RedisParser, completed}
use redisclient.Parser.Loop.{Parsed, parse, result_of}
use redisclient.Parser.Invariant.{IsIdle}
use redisclient.Resp.{
  Reply, Replies, none_left, more, status, failure, integer, bulk, null_bulk, null_array, array,
  count, crlf_then, print, print_all, value_of, ArePrintable,
}
use redisclient.Resp.RoundTrip.{Reads, parse-print}
use redisclient.Client.{Client, Run, returns, throws, ◌>>>◌, Ends, Env, no_error, process_message}
use redisclient.Client.Messages.Safety.{IsPolite, do_process_message-Ends}
use redisclient.Client.Messages.{
  do_process_message, read_parsed, read_round, read_messages, async_read,
}

-- A reply's bytes stand in front of what follows.
crlf_then-append : (s rest : Bytes) → s ++ crlf_then rest ≡ (s ++ crlf_then []) ++ rest
crlf_then-append s rest = sym (append_assoc s (crlf_then []) rest)

mutual
  unfolding print

  print-append : (r : Reply) (rest : Bytes) → print r rest ≡ print r [] ++ rest
  print-append (status s) rest = ap (◌∷◌ b'+') (crlf_then-append s rest)
  print-append (failure s) rest = ap (◌∷◌ b'-') (crlf_then-append s rest)
  print-append (integer z) rest = ap (◌∷◌ b':') (crlf_then-append (decimal_ℤ z) rest)
  print-append (bulk s) rest =
      ap (λ t. b'$' ∷ (decimal (length s) ++ crlf_then t)) (crlf_then-append s rest)
      ∙ ap (◌∷◌ b'$') (sym (append_assoc (decimal (length s)) _ rest))
  print-append null_bulk rest = refl
  print-append null_array rest = refl
  print-append (array rs) rest =
      ap (λ t. b'*' ∷ (decimal (count rs) ++ crlf_then t)) (print_all-append rs rest)
      ∙ ap (◌∷◌ b'*') (sym (append_assoc (decimal (count rs)) _ rest))

  print_all-append : (rs : Replies) (rest : Bytes) → print_all rs rest ≡ print_all rs [] ++ rest
  print_all-append none_left rest = refl
  print_all-append (more r rs) rest =
      print-append r (print_all rs rest)
      ∙ ap (λ t. print r [] ++ t) (print_all-append rs rest)
      ∙ sym (append_assoc (print r []) (print_all rs []) rest)
      ∙ ap (λ t. t ++ rest) (sym (print-append r (print_all rs [])))

pub length-print : (r : Reply) (rest : Bytes) → 0 < length (print r rest)
unfolding print
length-print (status s) rest = omega arith
length-print (failure s) rest = omega arith
length-print (integer z) rest = omega arith
length-print (bulk s) rest = omega arith
length-print null_bulk rest = omega arith
length-print null_array rest = omega arith
length-print (array rs) rest = omega arith

drop-append : (n : ℕ) (xs ys : Bytes) → n ≡ length xs → drop n (xs ++ ys) ≡ ys
drop-append n [] ys h = rw h refl
drop-append zero (x ∷ xs) ys h = absurd (omega arith)
drop-append (suc n) (x ∷ xs) ys h = drop-append n xs ys (omega arith)

-- The bytes behind a reply that has been read.
pub drop-print :
    (r : Reply) (rest : Bytes) (n : ℕ)
    → n + length rest ≡ length (print r rest)
    → drop n (print r rest) ≡ rest
drop-print r rest n h =
    let whole = print-append r rest in
    let n_is : n ≡ length (print r []) =
      omega (arith, h, ap length whole, length-append (print r []) rest) in
    ap (drop n) whole ∙ drop-append n (print r []) rest n_is

pub >>>_cong :
    {A B : Type 0} (m : Run A) (f g : A → Client → Run B)
    → ((a : A) (d : Client) → m ≡ returns a d → f a d ≡ g a d)
    → (m >>> f) ≡ (m >>> g)
>>>_cong (returns a d) f g h = h a d refl
>>>_cong (throws s d) f g h = refl
>>>_cong Run.faults f g h = refl

-- `doProcessMessage` on each value, with the parser that has read it, and `processMessage` at last.
unfoldable pub process_all : Env → List RedisParser → Client → Run Unit
process_all env [] c = returns tt (process_message c)
process_all env (q ∷ qs) c =
    do_process_message env (result_of q) (record c { redis_parser = q }) >>> λ u d.
    process_all env qs d

-- With polite functions no message's processing changes the parser.
pub do_process_message-parser :
    (env : Env) (v : RedisValue) (c d : Client)
    → IsPolite env
    → do_process_message env v c ≡ returns tt d
    → d.redis_parser ≡ c.redis_parser
do_process_message-parser env v c d polite ran =
    let q = c.redis_parser in
    subst (Ends (λ (e : Client). e.redis_parser ≡ q)) ran
      (do_process_message-Ends (λ p. p ≡ q) env (polite q) v c refl)

-- A round of the loop that completes a value.
pub read_messages-completed :
    (fuel : ℕ) (env : Env) (bytes : Bytes) (c : Client) (r : Parsed)
    → 0 < length bytes
    → parse c.redis_parser bytes ≡ some r
    → r.result ≡ completed
    → read_messages (suc fuel) env bytes c ≡ (
        do_process_message env (result_of r.parser) (record c { redis_parser = r.parser })
        >>> λ u d. read_messages fuel env (drop r.position bytes) d)
unfolding read_messages read_round read_parsed
read_messages-completed fuel env [] c r h e k = absurd (omega arith)
read_messages-completed fuel env (b ∷ bytes) c r h e k = rw (e, k) refl

abbrev pub list_of : Replies → List RedisValue
list_of none_left = []
list_of (more r rs) = value_of r ∷ list_of rs

length-print_more : (r : Reply) (rest : Bytes) → length rest < length (print r rest)
length-print_more r rest =
    omega
      (arith, ap length (print-append r rest), length-append (print r []) rest, length-print r [])

-- A reply, and then the rest of the input.
read_messages-more :
    (fuel : ℕ) (env : Env) (r : Reply) (text : Bytes) (c : Client) (o : Parsed)
    (qs : List RedisParser)
    → IsPolite env
    → parse c.redis_parser (print r text) ≡ some o
    → Reads c.redis_parser (print r text) text (value_of r) o
    → length (print r text) ≤ fuel
    → ((fuel : ℕ) (d : Client)
        → d.redis_parser ≡ o.parser
        → length text ≤ fuel
        → read_messages fuel env text d ≡ process_all env qs d)
    → read_messages fuel env (print r text) c ≡ process_all env (o.parser ∷ qs) c
unfolding process_all
read_messages-more zero env r text c o qs polite parsed reads enough later =
    absurd (omega (arith, length-print_more r text))
read_messages-more (suc fuel) env r text c o qs polite parsed reads enough later =
    read_messages-completed fuel env (print r text) c o (length-print r text) parsed reads.result_is
    ∙ >>>_cong (do_process_message env (result_of o.parser) (record c { redis_parser = o.parser }))
        _ _
        (λ u d ran.
          ap (λ bytes. read_messages fuel env bytes d)
            (drop-print r text o.position reads.position_is)
          ∙ later fuel d (do_process_message-parser env _ _ d polite ran)
              (omega (arith, length-print_more r text, enough)))

read_messages-print :
    (rs : Replies) (env : Env) (p : RedisParser)
    → IsPolite env
    → ArePrintable rs
    → IsIdle p
    → (qs : List RedisParser) × (map result_of qs ≡ list_of rs)
      × All IsIdle qs
      × ((fuel : ℕ) (c : Client)
          → c.redis_parser ≡ p
          → length (print_all rs []) ≤ fuel
          → read_messages fuel env (print_all rs []) c ≡ process_all env qs c)
unfolding print
read_messages-print none_left env p polite h idle =
    ([], refl, tt, λ fuel c e l. unfold read_messages process_all in refl)
read_messages-print (more r rs) env p polite h idle =
    let text = print_all rs [] in
    let (o, parsed, reads) = parse-print r text p h.0 idle in
    let (qs, values, idles, later) = read_messages-print rs env o.parser polite h.1 reads.idle in
    (
      o.parser ∷ qs,
      ap (◌∷◌ (result_of o.parser)) values ∙ ap (λ v. v ∷ list_of rs) reads.value_is,
      (reads.idle, idles),
      λ fuel c e enough.
          read_messages-more fuel env r text c o qs polite
            (subst (λ q. parse q (print r text) ≡ some o) (sym e) parsed)
            (subst (λ q. Reads q (print r text) text (value_of r) o) (sym e) reads) enough later,
    )

pub async_read-bytes :
    (env : Env) (bytes : Bytes) (c : Client)
    → 0 < length bytes
    → async_read env no_error bytes c ≡ read_messages (length bytes) env bytes c
unfolding async_read
async_read-bytes env [] c h = absurd (omega arith)
async_read-bytes env (b ∷ bytes) c h = refl

-- `asyncRead` on printed replies, with the parsers that it goes through.
pub async_read-parsers :
    (r : Reply) (rs : Replies) (env : Env) (c : Client)
    → IsPolite env
    → ArePrintable (more r rs)
    → IsIdle c.redis_parser
    → (qs : List RedisParser) × (map result_of qs ≡ value_of r ∷ list_of rs)
      × All IsIdle qs
      × (async_read env no_error (print_all (more r rs) []) c ≡ process_all env qs c)
async_read-parsers r rs env c polite h idle =
    let (qs, values, idles, reads) =
      read_messages-print (more r rs) env c.redis_parser polite h idle in
    let text = print_all (more r rs) [] in
    (
      qs,
      values,
      idles,
      async_read-bytes env text c (unfold print in length-print r (print_all rs []))
          ∙ reads (length text) c refl (omega arith),
    )

-- With an idle parser and polite functions of the user, `asyncRead` on the bytes of one printable
-- reply or more, and nothing else, is `doProcessMessage` on their values, one after the other (up
-- to an exception), and then the start of the next read.
pub async_read-print :
    (r : Reply) (rs : Replies) (env : Env) (c : Client)
    → IsPolite env
    → ArePrintable (more r rs)
    → IsIdle c.redis_parser
    → (qs : List RedisParser) × (map result_of qs ≡ value_of r ∷ list_of rs)
      × (async_read env no_error (print_all (more r rs) []) c ≡ process_all env qs c)
async_read-print r rs env c polite h idle =
    let (qs, values, idles, reads) = async_read-parsers r rs env c polite h idle in
    (qs, values, reads)
