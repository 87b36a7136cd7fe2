-- ===== src/Buffer/Command.antt =====
-- `makeCommand` prints the array of the items' strings, so any RESP parser reads the items back.
use redisclient.Base.{
  suc, ◌^◌, ◌<◌, ◌≡◌, refl, ap, ◌∙◌, List, [], ◌∷◌, ◌++◌, append_assoc, length, Bytes, All, some,
}
use redisclient.Value.{Values, nil, cons, bytes_value, array_value}
use redisclient.Parser.{RedisParser}
use redisclient.Parser.Loop.{Parsed, parse}
use redisclient.Parser.Invariant.{IsIdle}
use redisclient.Resp.{
  Replies, bulk, array, none_left, more, count, print, print_all, values_of, ArePrintable,
}
use redisclient.Resp.RoundTrip.{Reads, parse-print}
use redisclient.Buffer.{
  RedisBuffer, from_string, from_vector, size, append_item, append_items, make_command,
}

-- The bytes of a buffer, whatever holds them.
abbrev pub bytes_of : RedisBuffer → Bytes
bytes_of (from_string s) = s
bytes_of (from_vector buf) = buf

abbrev pub bulks : List RedisBuffer → Replies
bulks [] = none_left
bulks (item ∷ items) = more (bulk (bytes_of item)) (bulks items)

-- The values that the server finds in the array.
abbrev pub item_values : List RedisBuffer → Values
item_values [] = nil
item_values (item ∷ items) = cons (bytes_value (bytes_of item)) (item_values items)

size-length : (item : RedisBuffer) → size item ≡ length (bytes_of item)
unfolding size
size-length (from_string s) = refl
size-length (from_vector buf) = refl

append_item-print :
    (result : Bytes) (item : RedisBuffer) (rest : Bytes)
    → append_item result item ++ rest ≡ result ++ print (bulk (bytes_of item)) rest
unfolding append_item print size
append_item-print result (from_string s) rest = simp append_assoc
append_item-print result (from_vector buf) rest = simp append_assoc

append_items-print :
    (items : List RedisBuffer) (result rest : Bytes)
    → append_items result items ++ rest ≡ result ++ print_all (bulks items) rest
unfolding append_items print
append_items-print [] result rest = refl
append_items-print (item ∷ items) result rest =
    append_items-print items (append_item result item) rest
    ∙ append_item-print result item (print_all (bulks items) rest)

count-bulks : (items : List RedisBuffer) → count (bulks items) ≡ length items
count-bulks [] = refl
count-bulks (item ∷ items) = ap suc (count-bulks items)

values_of-bulks : (items : List RedisBuffer) → values_of (bulks items) ≡ item_values items
values_of-bulks [] = refl
values_of-bulks (item ∷ items) = ap (cons (bytes_value (bytes_of item))) (values_of-bulks items)

-- `makeCommand` is the protocol's print of an array of strings.
pub make_command-print :
    (items : List RedisBuffer) (rest : Bytes)
    → make_command items ++ rest ≡ print (array (bulks items)) rest
unfolding make_command print
make_command-print items rest =
    append_items-print items _ rest ∙ rw (count-bulks items) (simp append_assoc)

ArePrintable-bulks :
    (items : List RedisBuffer) → All (λ item. size item < 2 ^ 63) items → ArePrintable (bulks items)
ArePrintable-bulks [] h = tt
ArePrintable-bulks (item ∷ items) h = (rw (← size-length item) h.0, ArePrintable-bulks items h.1)

-- An idle parser reads the items of a command, printed by `makeCommand`, back in order and byte by
-- byte as an array, and stops at the command's last byte, for fewer than 2^63 items, each shorter
-- than 2^63 bytes.
pub parse-make_command :
    (items : List RedisBuffer) (rest : Bytes) (p : RedisParser)
    → length items < 2 ^ 63
    → All (λ item. size item < 2 ^ 63) items
    → IsIdle p
    → (r : Parsed) × (parse p (make_command items ++ rest) ≡ some r)
      × Reads p (make_command items ++ rest) rest (array_value (item_values items)) r
parse-make_command items rest p n h idle =
    let whole =
      parse-print (array (bulks items)) rest p
        (rw (count-bulks items) n, ArePrintable-bulks items h) idle in
    rw (make_command-print items rest, ← values_of-bulks items) whole
