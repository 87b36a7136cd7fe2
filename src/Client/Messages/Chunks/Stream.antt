-- ===== src/Client/Messages/Chunks/Stream.antt =====
-- Calls of `asyncRead` on a stream of replies that is cut up in any way.
use redisclient.Base.{
  ℕ, ◌<◌, ◌≡◌, refl, sym, ap, subst, ◌∙◌, List, [], ◌∷◌, map, All, length, Bytes, arith,
}
use redisclient.Parser.{RedisParser}
use redisclient.Parser.Loop.{result_of}
use redisclient.Parser.Invariant.{IsIdle}
use redisclient.Resp.{Replies, none_left, more, print_all, ArePrintable}
use redisclient.Socket.Writing.{joined}
use redisclient.Client.{Client, Run, returns, throws, ◌>>>◌, Env}
use redisclient.Client.Messages.{do_process_message}
use redisclient.Client.Messages.Safety.{IsPolite}
use redisclient.Client.Messages.Wire.{>>>_cong, async_read-bytes}
use redisclient.Client.Messages.Chunks.{
  left_after, values_by, Read, process_read, process_reads, read_all,
}
use redisclient.Client.Messages.Chunks.Reads.{Stream, print_all-Stream, chunk-IsRead}

>>>-returns :
    {A B : Type 0} (m : Run A) (f : A → Client → Run B) (b : B) (d : Client)
    → (m >>> f) ≡ returns b d
    → (a : A) × (e : Client) × (f a e ≡ returns b d)
>>>-returns (returns a e) f b d ran = (a, e, ran)
>>>-returns (throws s e) f b d ran = cc
>>>-returns Run.faults f b d ran = cc

process_read-parser :
    (env : Env) (qs : List RedisParser) (e : RedisParser) (c d : Client)
    → process_read env qs e c ≡ returns tt d
    → d.redis_parser ≡ e
unfolding process_read
process_read-parser env [] e c d ran = cc
process_read-parser env (q ∷ qs) e c d ran =
    let m = do_process_message env (result_of q) (record c { redis_parser = q }) in
    let (u, between, later) = >>>-returns m (λ u d. process_read env qs e d) tt d ran in
    process_read-parser env qs e between d later

left_after-ArePrintable : (rs : Replies) (n : ℕ) → ArePrintable rs → ArePrintable (left_after rs n)
left_after-ArePrintable none_left n printable = printable
left_after-ArePrintable (more r rs) n printable =
    ground (arith, left_after-ArePrintable rs n printable.1)

abbrev pub last_parser : RedisParser → List Read → RedisParser
last_parser p [] = p
last_parser p (g ∷ gs) = last_parser g.parser gs

read_all-Stream :
    (env : Env) (chunks : List Bytes) (rs : Replies) (p : RedisParser)
    → IsPolite env
    → ArePrintable rs
    → All (λ chunk. 0 < length chunk) chunks
    → Stream p (joined chunks) rs
    → (gs : List Read) × (map (λ (g : Read). map result_of g.messages) gs ≡ values_by rs chunks)
      × IsIdle (last_parser p gs)
      × ((c : Client) → c.redis_parser ≡ p → read_all env chunks c ≡ process_reads env gs c)
unfolding read_all process_reads
read_all-Stream env [] none_left p polite printable full stream =
    ([], refl, stream.1, λ c same. refl)
read_all-Stream env [] (more r rs) p polite printable full due =
    absurd (omega (arith, due.position_is, due.starts))
read_all-Stream env (chunk ∷ chunks) rs p polite printable full stream =
    let read = chunk-IsRead env rs p chunk (joined chunks) polite printable stream in
    let n = length (joined chunks) in
    let (gs, values, idle, runs) =
      read_all-Stream env chunks (left_after rs n) read.parser polite
        (left_after-ArePrintable rs n printable) full.1 read.stream in
    (
      record { messages = read.messages; parser = read.parser } ∷ gs,
      ap (◌∷◌ (map result_of read.messages)) values
          ∙ ap (λ vs. vs ∷ values_by (left_after rs n) chunks) read.values_are,
      idle,
      λ c same.
          ap (λ run. run >>> λ u d. read_all env chunks d)
            (async_read-bytes env chunk c full.0 ∙ read.runs (length chunk) c same (omega arith))
          ∙ >>>_cong (process_read env read.messages read.parser c) _ _
              (λ u d ran. runs d (process_read-parser env read.messages read.parser c d ran)),
    )

-- With an idle parser and polite functions of the user, for printable replies whose bytes, and
-- nothing else, come in reads of one byte or more, cut up in any way: `asyncRead` on each read
-- without an error, one after the other (up to an exception), is `doProcessMessage` on the values
-- of exactly those replies whose last byte comes with the read, in order, and then the start of
-- the next read; behind all of them the parser is idle.
pub read_all-print :
    (env : Env) (chunks : List Bytes) (rs : Replies) (c : Client)
    → IsPolite env
    → ArePrintable rs
    → All (λ chunk. 0 < length chunk) chunks
    → joined chunks ≡ print_all rs []
    → IsIdle c.redis_parser
    → (gs : List Read) × (map (λ (g : Read). map result_of g.messages) gs ≡ values_by rs chunks)
      × IsIdle (last_parser c.redis_parser gs)
      × (read_all env chunks c ≡ process_reads env gs c)
read_all-print env chunks rs c polite printable full cut idle =
    let stream =
      subst (λ text. Stream c.redis_parser text rs) (sym cut)
        (print_all-Stream c.redis_parser rs printable idle) in
    let (gs, values, last, runs) =
      read_all-Stream env chunks rs c.redis_parser polite printable full stream in
    (gs, values, last, runs c refl)
