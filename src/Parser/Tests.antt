-- ===== src/Parser/Tests.antt =====
-- Runs of the parser on the inputs of tests/parsertest.cpp.
use redisclient.Base.{ℕ, ◌≡◌, refl, Option, some, ◌>>=◌, codes, String}
use redisclient.Base.Int.{pos, negsuc, sub64, mul64, add64, neg64}
use redisclient.Value.{
  RedisValue, nil, cons, null_value, int_value, bytes_value, error_value, array_value, get_array,
}
use redisclient.Parser.{
  ParseResult, completed, incompleted, error, new_parser, turn, end_turn, end_value, switch,
  store_value, push_if_open, push_top, close_arrays, close_top,
}
use redisclient.Parser.Number.{buf_to_long, scan_signed, scan_minus, scan, char_value}
use redisclient.Parser.Loop.{parse, result_of}

pub record Outcome : Type 0 where
  pub position : ℕ
  pub result : ParseResult
  pub value : RedisValue

run : String → Option Outcome
unfolding parse turn end_turn end_value switch store_value push_if_open push_top get_array
    close_arrays close_top sub64 buf_to_long scan_signed scan_minus scan mul64 add64 neg64
    char_value
run s = parse new_parser (codes s) >>= λ r.
    some (record { position = r.position; result = r.result; value = result_of r.parser })

abbrev done : ℕ → RedisValue → Option Outcome
done n v = some (record { position = n; result = completed; value = v })

test_string : run "+STRING\r\n" ≡ done 9 (bytes_value (codes "STRING"))
unfolding run
test_string = refl

test_error : run "-Error message\r\n" ≡ done 16 (error_value (codes "Error message"))
unfolding run
test_error = refl

test_integer : run ":-123456789\r\n" ≡ done 13 (int_value (negsuc 123456788))
unfolding run
test_integer = refl

test_bulk : run "$6\r\nfoobar\r\n" ≡ done 12 (bytes_value (codes "foobar"))
unfolding run
test_bulk = refl

test_null : run "$-1\r\n" ≡ done 5 null_value
unfolding run
test_null = refl

test_empty_array : run "*0\r\n" ≡ done 4 (array_value nil)
unfolding run
test_empty_array = refl

test_recursive_array :
    run "*2\r\n*2\r\n:1\r\n:2\r\n*2\r\n:3\r\n:4\r\n"
    ≡ done 28 (
        array_value (
          cons
            (array_value (cons (int_value (pos 1)) (cons (int_value (pos 2)) nil)))
            (cons (array_value (cons (int_value (pos 3)) (cons (int_value (pos 4)) nil))) nil)))
unfolding run
test_recursive_array = refl

test_incomplete :
    run "*1\r\n" ≡ some (record { position = 4; result = incompleted; value = null_value })
unfolding run
test_incomplete = refl

test_parser_error :
    run "*xx\r\n" ≡ some (record { position = 2; result = error; value = null_value })
unfolding run
test_parser_error = refl
