-- ===== src/Parser/Loop.antt =====
-- `RedisParser::parseChunk`, `parse` and `result`: the loop over a chunk.
use redisclient.Base.{
  ℕ, zero, suc, ◌+◌, ◌&&◌, Option, none, some, List, [], ◌∷◌, if◌then◌else◌, ◌>>=◌, length, drop,
  Bytes,
}
use redisclient.Value.{RedisValue}
use redisclient.Parser.{
  State, start, ParseResult, completed, incompleted, error, RedisParser, is_empty, is_start, Turn,
  errors, breaks, continues, turn,
}

-- How the loop ends: `leaves` by its test or by `break`, with `position` and the state, `returns` by
-- the return with `Error`.
pub data Exit : Type 0 where
  returns : RedisParser → ℕ → Exit
  leaves : State → RedisParser → ℕ → Exit

-- `while(position < size)`. A round reads a byte, so the chunk's size is enough fuel
-- (`read_loop-feed` in Parser.Bytewise).
unfoldable pub read_loop : ℕ → State → RedisParser → ℕ → Bytes → Option Exit
read_loop fuel s p position [] = some (leaves s p position)
read_loop zero s p position (c ∷ rest) = none
read_loop (suc fuel) s p position (c ∷ rest) = elim (turn s c rest p) [
  | errors q ↦ some (returns q (position + 1))
  | breaks q n ↦ some (leaves start q (position + 1 + n))
  | continues t q n ↦ read_loop fuel t q (position + 1 + n) (drop n rest)
  | Turn.faults ↦ none
]

-- What `parse` returns, with the parser that it leaves.
pub record Parsed : Type 0 where
  pub position : ℕ
  pub result : ParseResult
  pub parser : RedisParser

-- The return behind the loop.
unfoldable pub finish : Exit → Parsed
finish (returns p position) = record { position = position; result = error; parser = p }
finish (leaves s p position) =
    if is_empty p.array_sizes && is_start s
    then record { position = position; result = completed; parser = p }
    else record {
      position = position;
      result = incompleted;
      parser = record p { states = s ∷ p.states };
    }

-- The state to go on from, popped off `states`.
abbrev pub top_state : List State → State
top_state [] = start
top_state (s ∷ _) = s

abbrev pub pop_state : List State → List State
pop_state [] = []
pop_state (_ ∷ ss) = ss

abbrev pub resume_parser : RedisParser → RedisParser
resume_parser p = record p { states = pop_state p.states }

unfoldable pub parse_chunk : RedisParser → Bytes → Option Parsed
unfolding read_loop finish
parse_chunk p chunk =
    read_loop (length chunk) (top_state p.states) (resume_parser p) 0 chunk >>= λ e. some (finish e)

unfoldable pub parse : RedisParser → Bytes → Option Parsed
unfolding parse_chunk
parse p chunk = parse_chunk p chunk

-- `result()`; the member that is moved from is read again only after it has been assigned to.
abbrev pub result_of : RedisParser → RedisValue
result_of p = p.redis_value
