-- ===== src/Resp/Recovery.antt =====
-- The parser after an error. `parseChunk` drops the saved state, and keeps the arrays that are open.
use redisclient.Base.{
  ℕ, suc, ◌+◌, ◌^◌, ◌<◌, ◌≡◌, refl, ap, ◌∙◌, Bool, true, some, [], ◌∷◌, ◌++◌, Bytes, arith, ◌==◌,
  ◌>>=◌, ◌||◌, not,
}
use redisclient.Decimal.{decimal}
use redisclient.Value.{nil, push_back, is_array}
use redisclient.Parser.{
  start, incompleted, error, start_array, RedisParser, errors, turn, switch, end_turn,
}
use redisclient.Parser.Loop.{leaves, Parsed, parse, finish}
use redisclient.Parser.Invariant.{IsIdle}
use redisclient.Parser.Invariant.Loop.{IsReady}
use redisclient.Parser.Chunks.{parse-feed, finish_open, suspend}
use redisclient.Parser.Bytewise.{feed}
use redisclient.Resp.{Reply, crlf_then, print, value_of, IsPrintable}
use redisclient.Resp.Lines.{feed_step}
use redisclient.Resp.Scalars.{with_value, inside, feed_array}
use redisclient.Resp.RoundTrip.{deliver_more, print-Delivers, feed_begin, IsIdle-IsReady}

-- A byte that begins no reply.
abbrev pub begins_no_reply : ℕ → Bool
begins_no_reply c = not (c == b'+' || c == b'-' || c == b':' || c == b'$' || c == b'*')

turn_bad :
    (c : ℕ) (p : RedisParser)
    → begins_no_reply c ≡ true
    → turn start_array c [] p ≡ errors (record p { buf = [] })
unfolding turn switch end_turn
turn_bad c p h = ground arith

-- The begin of an array of `suc (suc k)` items, and then `c`.
abbrev pub bad_array : ℕ → ℕ → Bytes
bad_array k c = b'*' ∷ (decimal (suc (suc k)) ++ crlf_then (c ∷ []))

-- What the parser is left with: the array is open.
abbrev pub stale : RedisParser → Bytes → ℕ → RedisParser
stale p b k = inside (record p { buf = b }) (suc (suc k)) nil

parse-bad_array :
    (k c : ℕ) (p : RedisParser)
    → suc (suc k) < 2 ^ 63
    → begins_no_reply c ≡ true
    → IsIdle p
    → (m : ℕ) × (parse p (bad_array k c)
        ≡ some (record { position = m; result = error; parser = stale p [] k }))
parse-bad_array k c p h bad idle =
    let (b, m, fed, places) = feed_array (suc k) (c ∷ []) p 0 h in
    (
      m + 1,
      parse-feed p (bad_array k c) (IsIdle-IsReady p idle)
          ∙ ap (λ o. o >>= λ e. some (finish e))
              (feed_begin p (bad_array k c) idle.valid.no_states
                ∙ fed
                ∙ feed_step start_array _ m c [] _ (turn_bad c (stale p b k) bad))
          ∙ unfold finish in refl,
    )

stale-IsReady : (k : ℕ) (p : RedisParser) → suc (suc k) < 2 ^ 63 → IsIdle p → IsReady (stale p [] k)
unfolding is_array
stale-IsReady k p h idle = ground (arith, idle.valid)

-- A whole reply is taken for an item of the stale array.
parse-stale :
    (r : Reply) (k : ℕ) (p : RedisParser)
    → IsPrintable r
    → suc (suc k) < 2 ^ 63
    → IsIdle p
    → (o : Parsed) × (parse (stale p [] k) (print r []) ≡ some o) × (o.result ≡ incompleted)
parse-stale r k p h small idle =
    let q = stale p [] k in
    let (b, z, m, fed, places) = print-Delivers r h [] q 0 in
    let v = value_of r in
    let after = record (inside (with_value p b z v) (suc k) (push_back nil v)) {
      redis_value = v;
    } in
    let stored = deliver_more (with_value p b z v) v k nil m [] small in
    let ended : feed start after m [] ≡ some (leaves start after m) = unfold feed in refl in
    (
      record { position = m; result = incompleted; parser = suspend start after },
      parse-feed q (print r []) (stale-IsReady k p small idle)
          ∙ ap (λ o. o >>= λ e. some (finish e))
              (feed_begin q (print r []) idle.valid.no_states ∙ fed ∙ stored ∙ ended)
          ∙ ap some (finish_open start after m refl),
      refl,
    )

-- An idle parser reads the begin of an array of two items or more (fewer than 2^63), and then a
-- byte that begins no reply: `parse` reports the error, and on a next printable reply, though
-- whole and on a chunk of its own, it is incomplete.
pub parse_after_error :
    (r : Reply) (k c : ℕ) (p : RedisParser)
    → IsPrintable r
    → suc (suc k) < 2 ^ 63
    → begins_no_reply c ≡ true
    → IsIdle p
    → (e o : Parsed) × (parse p (bad_array k c) ≡ some e)
      × (e.result ≡ error)
      × (parse e.parser (print r []) ≡ some o)
      × (o.result ≡ incompleted)
parse_after_error r k c p h small bad idle =
    let (m, failed) = parse-bad_array k c p small bad idle in
    let (o, parsed, waits) = parse-stale r k p h small idle in
    (record { position = m; result = error; parser = stale p [] k }, o, failed, refl, parsed, waits)
