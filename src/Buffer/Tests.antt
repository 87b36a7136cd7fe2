-- ===== src/Buffer/Tests.antt =====
-- `makeCommand` on a command, and its theorem there.
use redisclient.Base.{◌≡◌, refl, ◌++◌, [], ◌∷◌, some, codes, arith}
use redisclient.Decimal.{decimal, digits}
use redisclient.Value.{array_value}
use redisclient.Parser.{new_parser}
use redisclient.Parser.Loop.{Parsed, parse}
use redisclient.Parser.Invariant.{new_parser-IsIdle}
use redisclient.Resp.RoundTrip.{Reads}
use redisclient.Buffer.{from_string, from_vector, make_command, size}
use redisclient.Buffer.Command.{parse-make_command, item_values}

make_command_runs :
    make_command (from_string (codes "GET") ∷ from_vector (codes "k 1") ∷ [])
    ≡ codes "*2\r\n$3\r\nGET\r\n$3\r\nk 1\r\n"
unfolding make_command size decimal digits
make_command_runs = refl

parse-make_command_example :
    (r : Parsed) × (parse new_parser
        (make_command (from_string (codes "GET") ∷ from_vector (codes "k") ∷ []) ++ [])
      ≡ some r)
    × Reads new_parser
        (make_command (from_string (codes "GET") ∷ from_vector (codes "k") ∷ []) ++ [])
        []
        (array_value (item_values (from_string (codes "GET") ∷ from_vector (codes "k") ∷ [])))
        r
parse-make_command_example =
    parse-make_command (from_string (codes "GET") ∷ from_vector (codes "k") ∷ []) [] new_parser
      (omega arith) (unfold size in omega arith) new_parser-IsIdle
