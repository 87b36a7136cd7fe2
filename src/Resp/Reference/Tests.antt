-- ===== src/Resp/Reference/Tests.antt =====
-- The reader of the protocol on whole, unfinished and malformed bytes.
use redisclient.Base.{◌≡◌, refl, codes}
use redisclient.Base.Int.{pos, add64, mul64, neg64}
use redisclient.Decimal.{is_digit}
use redisclient.Value.{nil, cons, int_value, bytes_value, array_value}
use redisclient.Parser.Number.{buf_to_long, scan_signed, scan_minus, scan, char_value}
use redisclient.Resp.Reference.{done, wants_more, refused, read_reply, take_number}

read_reply_runs :
    (read_reply (codes "*2\r\n:7\r\n$1\r\nx\r\n+")
      ≡ done
          (array_value (cons (int_value (pos 7)) (cons (bytes_value (codes "x")) nil)))
          (codes "+"))
    × (read_reply (codes "*2\r\n:7\r\n$1\r\nx") ≡ wants_more)
    × (read_reply (codes "*1\r\n:\r") ≡ refused)
    × (read_reply (codes "$-2\r\n") ≡ refused)
unfolding read_reply take_number is_digit buf_to_long scan_signed scan_minus scan add64 mul64 neg64
    char_value
read_reply_runs = (refl, refl, refl, refl)
