-- ===== src/Resp/Tests.antt =====
-- The theorems on the parser and on `makeCommand` at concrete replies, chunks and commands.
use redisclient.Base.{◌^◌, ◌≡◌, refl, ◌-◌, ◌++◌, [], ◌∷◌, some, codes, arith}
use redisclient.Base.Int.{pos, negsuc, sub64, mul64, add64}
use redisclient.Decimal.{decimal_ℤ}
use redisclient.Value.{get_array}
use redisclient.Parser.{
  new_parser, start, bulk, incompleted, error, turn, end_turn, end_value, switch, store_value,
  push_if_open, push_top, close_arrays, close_top,
}
use redisclient.Parser.Number.{buf_to_long, scan_signed, scan, char_value}
use redisclient.Parser.Number.Laws.{buf_to_long-decimal_ℤ}
use redisclient.Parser.Loop.{Parsed, parse, read_loop}
use redisclient.Parser.Invariant.{new_parser-IsIdle}
use redisclient.Parser.Invariant.Loop.{IsReady}
use redisclient.Parser.Bytewise.{feed}
use redisclient.Parser.Bytewise.Loop.{read_loop-feed}
use redisclient.Parser.Chunks.{parse_rest, parse-append}
use redisclient.Resp.{
  Reply, status, failure, integer, null_bulk, array, none_left, more, print, value_of, IsPrintable,
  is_text,
}
use redisclient.Resp
use redisclient.Resp.RoundTrip.{Reads, parse-print}
use redisclient.Resp.Recovery.{bad_array, parse_after_error}

new_parser-IsReady : IsReady new_parser
new_parser-IsReady = new_parser-IsIdle.valid

buf_to_long-decimal_ℤ_example : buf_to_long (decimal_ℤ (negsuc (2 ^ 63 - 1))) ≡ negsuc (2 ^ 63 - 1)
buf_to_long-decimal_ℤ_example = buf_to_long-decimal_ℤ (negsuc (2 ^ 63 - 1)) (omega arith)

read_loop-feed_example :
    read_loop 20 start new_parser 0 (codes "$4\r\nabcd\r\n")
    ≡ feed start new_parser 0 (codes "$4\r\nabcd\r\n")
read_loop-feed_example =
    read_loop-feed 20 start new_parser 0 (codes "$4\r\nabcd\r\n") (omega arith) new_parser-IsReady

-- "$4\r\nab" read from a new parser
abbrev half : Parsed
half = record {
  position = 6;
  result = incompleted;
  parser = record new_parser { states = bulk ∷ []; bulk_size = pos 2; buf = codes "ab" };
}

half_read : parse new_parser (codes "$4\r\nab") ≡ some half
unfolding parse turn end_turn end_value switch store_value push_if_open push_top get_array
    close_arrays close_top sub64 buf_to_long scan_signed scan mul64 add64 char_value
half_read = refl

parse-append_example :
    parse new_parser (codes "$4\r\nab" ++ codes "cd\r\n+OK") ≡ parse_rest 6 (codes "cd\r\n+OK") half
parse-append_example =
    parse-append new_parser b'$' (codes "4\r\nab") (codes "cd\r\n+OK") new_parser-IsReady half_read

abbrev sample : Reply
sample = array (
    more (integer (negsuc 4))
      (more (array (more null_bulk none_left)) (more (Resp.bulk (codes "a\r\nb")) none_left)))

sample-IsPrintable : IsPrintable sample
sample-IsPrintable = omega arith

parse-print_example :
    (o : Parsed) × (parse new_parser (print sample (codes "+OK")) ≡ some o)
    × Reads new_parser (print sample (codes "+OK")) (codes "+OK") (value_of sample) o
parse-print_example =
    parse-print sample (codes "+OK") new_parser sample-IsPrintable new_parser-IsIdle

parse_after_error_example :
    (e o : Parsed) × (parse new_parser (bad_array 1 b'x') ≡ some e)
    × (e.result ≡ error)
    × (parse e.parser (print sample []) ≡ some o)
    × (o.result ≡ incompleted)
parse_after_error_example =
    parse_after_error sample 1 b'x' new_parser sample-IsPrintable (omega arith) refl
      new_parser-IsIdle
