-- ===== src/Client/Messages/Chunks/Reads.antt =====
-- One call of `asyncRead` on a part of a stream of replies.
use redisclient.Base.{
  ℕ, zero, suc, ◌+◌, ◌<◌, ◌≤◌, ◌≡◌, refl, sym, ap, subst, ◌∙◌, inl, inr, true, false, some, List,
  [], ◌∷◌, ◌++◌, map, leb, length, length-append, length-drop, drop, Bytes, arith,
}
use redisclient.Parser.{RedisParser, completed, incompleted}
use redisclient.Parser.Loop.{Parsed, parse, result_of}
use redisclient.Parser.Invariant.{IsIdle}
use redisclient.Parser.Invariant.Loop.{IsReady, parse-ParsedIsValid}
use redisclient.Resp.{Reply, Replies, none_left, more, print_all, print, value_of, ArePrintable}
use redisclient.Resp.RoundTrip.{IsIdle-IsReady, parse-print}
use redisclient.Client.{Client, returns, Env, process_message}
use redisclient.Client.Sync.Cut.{value-cases}
use redisclient.Client.Sync.Response.{drop-append}
use redisclient.Client.Sync.Rounds.{drop-later}
use redisclient.Client.Messages.{do_process_message, read_parsed, read_round, read_messages}
use redisclient.Client.Messages.Safety.{IsPolite}
use redisclient.Client.Messages.Wire.{
  drop-print, length-print, >>>_cong, do_process_message-parser, read_messages-completed,
}
use redisclient.Client.Messages.Chunks.{values_within, left_after, process_read}

-- The bytes to come are the rest of a reply, and the replies behind it.
pub record Due (p : RedisParser) (todo : Bytes) (r : Reply) (rs : Replies) : Type 0 where
  pub outcome : Parsed
  pub ready : IsReady p
  pub parsed : parse p todo ≡ some outcome
  pub result_is : outcome.result ≡ completed
  pub value_is : result_of outcome.parser ≡ value_of r
  pub idle : IsIdle outcome.parser
  pub behind : drop outcome.position todo ≡ print_all rs []
  pub position_is : outcome.position + length (print_all rs []) ≡ length todo
  pub starts : 0 < outcome.position

abbrev pub Stream : RedisParser → Bytes → Replies → Type 0
Stream p todo none_left = (todo ≡ []) × IsIdle p
Stream p todo (more r rs) = Due p todo r rs

pub print_all-Stream :
    (p : RedisParser) (rs : Replies) → ArePrintable rs → IsIdle p → Stream p (print_all rs []) rs
unfolding print
print_all-Stream p none_left printable idle = (refl, idle)
print_all-Stream p (more r rs) printable idle =
    let text = print_all rs [] in
    let (o, parsed, reads) = parse-print r text p printable.0 idle in
    record {
      outcome = o;
      ready = IsIdle-IsReady p idle;
      parsed = parsed;
      result_is = reads.result_is;
      value_is = reads.value_is;
      idle = reads.idle;
      behind = drop-print r text o.position reads.position_is;
      position_is = reads.position_is;
      starts =
          (parse-ParsedIsValid p (print r text) (IsIdle-IsReady p idle) parsed).progress
            (length-print r text);
    }

-- A read of some bytes, with others to come.
pub record IsRead (env : Env) (p : RedisParser) (chunk rest : Bytes) (rs : Replies) : Type 0 where
  pub messages : List RedisParser
  pub parser : RedisParser
  pub values_are : map result_of messages ≡ values_within rs (length rest)
  pub stream : Stream parser rest (left_after rs (length rest))
  pub runs :
      (fuel : ℕ) (c : Client)
      → c.redis_parser ≡ p
      → length chunk ≤ fuel
      → read_messages fuel env chunk c ≡ process_read env messages parser c

-- There is nothing left to read.
nothing-runs :
    (env : Env) (p : RedisParser) (fuel : ℕ) (c : Client)
    → c.redis_parser ≡ p
    → read_messages fuel env [] c ≡ process_read env [] p c
unfolding read_messages process_read
nothing-runs env p fuel c same =
    subst
      (λ q.
        returns tt (process_message c)
        ≡ returns tt (process_message (record c { redis_parser = q })))
      same refl

-- A value is not complete at the end of the bytes.
part-runs :
    (env : Env) (p : RedisParser) (b : ℕ) (bs : Bytes) (r : Parsed) (fuel : ℕ) (c : Client)
    → parse p (b ∷ bs) ≡ some r
    → r.result ≡ incompleted
    → c.redis_parser ≡ p
    → length (b ∷ bs) ≤ fuel
    → read_messages fuel env (b ∷ bs) c ≡ process_read env [] r.parser c
unfolding read_messages read_round read_parsed process_read
part-runs env p b bs r zero c parsed part same enough = absurd (omega arith)
part-runs env p b bs r (suc fuel) c parsed part same enough =
    let here = subst (λ q. parse q (b ∷ bs) ≡ some r) (sym same) parsed in rw (here, part) refl

-- A value is complete, and the bytes behind it are read.
whole-runs :
    (env : Env) (p : RedisParser) (b : ℕ) (bs : Bytes) (o : Parsed) (qs : List RedisParser)
    (e : RedisParser) (fuel : ℕ) (c : Client)
    → IsPolite env
    → parse p (b ∷ bs) ≡ some o
    → o.result ≡ completed
    → 0 < o.position
    → ((fuel : ℕ) (d : Client)
        → d.redis_parser ≡ o.parser
        → length (drop o.position (b ∷ bs)) ≤ fuel
        → read_messages fuel env (drop o.position (b ∷ bs)) d ≡ process_read env qs e d)
    → c.redis_parser ≡ p
    → length (b ∷ bs) ≤ fuel
    → read_messages fuel env (b ∷ bs) c ≡ process_read env (o.parser ∷ qs) e c
unfolding process_read
whole-runs env p b bs o qs e zero c polite parsed done starts later same enough =
    absurd (omega arith)
whole-runs env p b bs o qs e (suc fuel) c polite parsed done starts later same enough =
    read_messages-completed fuel env (b ∷ bs) c o (omega arith)
      (subst (λ q. parse q (b ∷ bs) ≡ some o) (sym same) parsed) done
    ∙ >>>_cong (do_process_message env (result_of o.parser) (record c { redis_parser = o.parser }))
        _ _
        (λ u d ran.
          later fuel d (do_process_message-parser env _ _ d polite ran)
            (omega (arith, length-drop o.position (b ∷ bs), starts, enough)))

-- All the bytes have been read, and the next reply is not whole.
Due-IsRead :
    (env : Env) (p : RedisParser) (rest : Bytes) (r : Reply) (rs : Replies)
    → Due p rest r rs
    → IsRead env p [] rest (more r rs)
Due-IsRead env p rest r rs due =
    let L = length (print_all rs []) in
    let not_whole : leb (length rest) L ≡ false = ground (arith, due.position_is, due.starts) in
    record {
      messages = [];
      parser = p;
      values_are = rw not_whole refl;
      stream = rw not_whole due;
      runs = λ fuel c same enough. nothing-runs env p fuel c same;
    }

module _ (env : Env) (p : RedisParser) (b : ℕ) (bs rest : Bytes) (r : Reply) (rs : Replies)
    (due : Due p ((b ∷ bs) ++ rest) r rs) where
  abbrev o : Parsed
  o = due.outcome

  -- The reply ends in the chunk.
  whole-IsRead :
      IsPolite env
      → parse p (b ∷ bs) ≡ some o
      → ((chunk : Bytes) → Stream o.parser (chunk ++ rest) rs → IsRead env o.parser chunk rest rs)
      → ArePrintable rs
      → IsRead env p (b ∷ bs) rest (more r rs)
  whole-IsRead polite now later printable =
      let valid = parse-ParsedIsValid p (b ∷ bs) due.ready now in
      let left = drop o.position (b ∷ bs) in
      let behind : left ++ rest ≡ print_all rs [] =
        drop-append o.position (b ∷ bs) rest valid.within ∙ due.behind in
      let next = later left (
        subst (λ text. Stream o.parser text rs) (sym behind)
          (print_all-Stream o.parser rs printable due.idle)) in
      let is_whole : leb (length rest) (length (print_all rs [])) ≡ true =
        ground (arith, due.position_is, valid.within, length-append (b ∷ bs) rest) in
      record {
        messages = o.parser ∷ next.messages;
        parser = next.parser;
        values_are = rw is_whole (
            ap (◌∷◌ (result_of o.parser)) next.values_are
            ∙ ap (λ v. v ∷ values_within rs (length rest)) due.value_is);
        stream = rw is_whole next.stream;
        runs = λ fuel c same enough.
            whole-runs env p b bs o next.messages next.parser fuel c polite now due.result_is
              due.starts next.runs same enough;
      }

  -- The reply ends behind the chunk.
  part-IsRead :
      (t q : Parsed)
      → parse p (b ∷ bs) ≡ some t
      → t.result ≡ incompleted
      → IsReady t.parser
      → 0 < length rest
      → parse t.parser rest ≡ some q
      → o ≡ record q { position = length (b ∷ bs) + q.position }
      → IsRead env p (b ∷ bs) rest (more r rs)
  part-IsRead t q first part again more_to_come second same =
      let n = length (b ∷ bs) in
      let position = ap (λ (x : Parsed). x.position) same in
      let parser = ap (λ (x : Parsed). x.parser) same in
      let starts = (parse-ParsedIsValid t.parser rest again second).progress more_to_come in
      let count = length-append (b ∷ bs) rest in
      let not_whole : leb (length rest) (length (print_all rs [])) ≡ false =
        ground (arith, due.position_is, position, starts, count) in
      record {
        messages = [];
        parser = t.parser;
        values_are = rw not_whole refl;
        stream = rw not_whole (record {
          outcome = q;
          ready = again;
          parsed = second;
          result_is = sym (ap (λ (x : Parsed). x.result) same) ∙ due.result_is;
          value_is = sym (ap result_of parser) ∙ due.value_is;
          idle = subst IsIdle parser due.idle;
          behind =
              sym (drop-later n q.position (b ∷ bs) rest refl)
              ∙ ap (λ k. drop k ((b ∷ bs) ++ rest)) (sym position)
              ∙ due.behind;
          position_is = omega (arith, due.position_is, position, count);
          starts = starts;
        });
        runs = λ fuel c same enough. part-runs env p b bs t fuel c first part same enough;
      }

pub chunk-IsRead :
    (env : Env) (rs : Replies) (p : RedisParser) (chunk rest : Bytes)
    → IsPolite env
    → ArePrintable rs
    → Stream p (chunk ++ rest) rs
    → IsRead env p chunk rest rs
chunk-IsRead env none_left p [] rest polite printable stream = record {
  messages = [];
  parser = p;
  values_are = refl;
  stream = stream;
  runs = λ fuel c same enough. nothing-runs env p fuel c same;
}
chunk-IsRead env none_left p (b ∷ bs) rest polite printable (empty, idle) = cc
chunk-IsRead env (more r rs) p [] rest polite printable due = Due-IsRead env p rest r rs due
chunk-IsRead env (more r rs) p (b ∷ bs) rest polite printable due =
    elim (value-cases p b bs rest due.outcome due.ready due.parsed due.result_is) [
      | inl now ↦
          whole-IsRead env p b bs rest r rs due polite now
            (λ chunk stream.
              chunk-IsRead env rs due.outcome.parser chunk rest polite printable.1 stream)
            printable.1
      | inr (t, q, first, part, again, taken, more_to_come, second, same) ↦
          part-IsRead env p b bs rest r rs due t q first part again more_to_come second same
    ]
