-- ===== src/Client/Messages/Chunks.antt =====
-- What `asyncRead`, one call after the other, does with replies that are cut up in any way: which
-- of them come whole with which read. The theorem is in Client.Messages.Chunks.Stream.
pub mod Reads
pub mod Stream
use redisclient.Base.{
  ℕ, zero, suc, ◌+◌, ◌<◌, ◌≤◌, ◌≡◌, refl, sym, ap, subst, ◌∙◌, inl, inr, true, false, some, List,
  [], ◌∷◌, ◌++◌, map, append-nil, leb, if◌then◌else◌, All, length, length-append, length-drop, drop,
  Bytes, arith,
}
use redisclient.Value.{RedisValue}
use redisclient.Parser.{RedisParser, completed, incompleted}
use redisclient.Parser.Loop.{Parsed, parse, result_of}
use redisclient.Parser.Invariant.{IsIdle}
use redisclient.Parser.Invariant.Loop.{IsReady, parse-ParsedIsValid}
use redisclient.Resp.{
  Reply, Replies, none_left, more, print_all, print, value_of, IsPrintable, ArePrintable,
}
use redisclient.Resp.RoundTrip.{IsIdle-IsReady, parse-print}
use redisclient.Socket.Writing.{joined}
use redisclient.Client.{Client, Run, returns, throws, ◌>>>◌, Env, no_error, process_message}
use redisclient.Client.Sync.Cut.{value-cases}
use redisclient.Client.Sync.Response.{drop-append}
use redisclient.Client.Sync.Rounds.{drop-later}
use redisclient.Client.Messages.{
  do_process_message, read_parsed, read_round, read_messages, async_read,
}
use redisclient.Client.Messages.Safety.{IsPolite}
use redisclient.Client.Messages.Wire.{
  drop-print, length-print, >>>_cong, do_process_message-parser, read_messages-completed,
  async_read-bytes,
}

-- The values of the replies that have come whole when `n` bytes of them all are still to come, and
-- the replies that have not.
abbrev pub values_within : Replies → ℕ → List RedisValue
values_within none_left n = []
values_within (more r rs) n =
    let later = values_within rs n in
    if leb n (length (print_all rs [])) then value_of r ∷ later else []

abbrev pub left_after : Replies → ℕ → Replies
left_after none_left n = none_left
left_after (more r rs) n =
    let later = left_after rs n in if leb n (length (print_all rs [])) then later else more r rs

-- The values that come with each chunk
abbrev pub values_by : Replies → List Bytes → List (List RedisValue)
values_by rs [] = []
values_by rs (chunk ∷ chunks) =
    let n = length (joined chunks) in values_within rs n ∷ values_by (left_after rs n) chunks

-- What a read comes to: the parsers that have read its messages, and the parser that it leaves.
pub record Read : Type 0 where
  pub messages : List RedisParser
  pub parser : RedisParser

-- `doProcessMessage` on each message, and `processMessage` at last.
unfoldable pub process_read : Env → List RedisParser → RedisParser → Client → Run Unit
process_read env [] e c = returns tt (process_message (record c { redis_parser = e }))
process_read env (q ∷ qs) e c =
    do_process_message env (result_of q) (record c { redis_parser = q }) >>> λ u d.
    process_read env qs e d

unfoldable pub process_reads : Env → List Read → Client → Run Unit
process_reads env [] c = returns tt c
process_reads env (g ∷ gs) c =
    process_read env g.messages g.parser c >>> λ u d. process_reads env gs d

-- One read after the other, each without an error.
unfoldable pub read_all : Env → List Bytes → Client → Run Unit
read_all env [] c = returns tt c
read_all env (chunk ∷ chunks) c = async_read env no_error chunk c >>> λ u d. read_all env chunks d
