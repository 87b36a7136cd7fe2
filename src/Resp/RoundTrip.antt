-- ===== src/Resp/RoundTrip.antt =====
-- What a server prints is what the client gets: `parse` on a printed reply.
use redisclient.Base.{
  ℕ, suc, ◌+◌, ◌^◌, ◌<◌, ◌≡◌, refl, ap, ◌∙◌, some, [], length, Bytes, arith, ◌>>=◌, >>=_assoc,
}
use redisclient.Base.Int.{ℤ, pos, sub64_within}
use redisclient.Value.{RedisValue, Values, nil, cons, array_value, append, push_back, get_array}
use redisclient.Parser.{
  start, completed, start_array, RedisParser, store_value, end_value, push_if_open, push_top,
  close_arrays, close_top, put_stacks,
}
use redisclient.Parser.Loop.{leaves, Parsed, parse, result_of, finish, top_state, resume_parser}
use redisclient.Parser.Invariant.{IsIdle}
use redisclient.Parser.Invariant.Loop.{IsReady, parse-ParsedIsValid}
use redisclient.Parser.Chunks.{parse-feed, finish_closed}
use redisclient.Parser.Bytewise.{feed}
use redisclient.Resp.{
  Reply, status, failure, integer, bulk, null_bulk, null_array, array, Replies, none_left, more,
  count, print, print_all, value_of, values_of, IsPrintable, ArePrintable,
}
use redisclient.Resp.Lines.{feed_turn, deliver}
use redisclient.Resp.Turns.{turn_start_array}
use redisclient.Resp.Scalars.{
  with_value, DeliversTo, Delivers, status-Delivers, failure-Delivers, integer-Delivers,
  bulk-Delivers, null_bulk-Delivers, null_array-Delivers, empty_array-Delivers, inside, feed_array,
}

-- An item is stored, and others are still to come.
pub deliver_more :
    (p : RedisParser) (v : RedisValue) (k : ℕ) (acc : Values) (m : ℕ) (rest : Bytes)
    → suc (suc k) < 2 ^ 63
    → deliver (record (inside p (suc (suc k)) acc) { redis_value = v }) m rest
      ≡ feed start (record (inside p (suc k) (push_back acc v)) { redis_value = v }) m rest
unfolding deliver store_value push_if_open push_top get_array close_arrays end_value
deliver_more p v k acc m rest h = ground (arith, sub64_within (pos (suc (suc k))) 1)

-- The last item is stored: the array is complete.
pub deliver_last :
    (p : RedisParser) (v : RedisValue) (acc : Values) (m : ℕ) (rest : Bytes)
    → deliver (record (inside p 1 acc) { redis_value = v }) m rest
      ≡ deliver (record p { redis_value = array_value (push_back acc v) }) m rest
unfolding deliver store_value push_if_open push_top get_array close_arrays close_top
deliver_last p v acc m rest =
    let whole = array_value (push_back acc v) in
    rw (sub64_within (pos 1) 1 (omega arith) (omega arith) refl) (
      ap (λ o. feed_turn (end_value 0 o) m rest)
        (>>=_assoc (push_if_open whole p.array_sizes p.array_values)
          (λ values. close_arrays p.array_sizes values whole) (λ s. some (put_stacks p s))))

pub append-push_back :
    (acc : Values) (v : RedisValue) (ws : Values)
    → append (push_back acc v) ws ≡ append acc (cons v ws)
append-push_back nil v ws = refl
append-push_back (cons x acc) v ws = ap (cons x) (append-push_back acc v ws)

append_nil : (acc : Values) (v : RedisValue) → append acc (cons v nil) ≡ push_back acc v
append_nil nil v = refl
append_nil (cons x acc) v = ap (cons x) (append_nil acc v)

abbrev pub ReadsReply : Reply → Type 0
ReadsReply r =
    (rest : Bytes) (p : RedisParser) (n : ℕ) → Delivers p n (print r rest) rest (value_of r)

-- The items that are left are read into the array, which is completed.
abbrev pub ReadsItems : Replies → Type 0
ReadsItems rs =
    (acc : Values) (k : ℕ) (rest : Bytes) (p : RedisParser) (n : ℕ)
    → count rs ≡ suc k
    → suc k < 2 ^ 63
    → DeliversTo start (inside p (suc k) acc) p n (print_all rs rest) rest
        (array_value (append acc (values_of rs)))

item_last :
    (p : RedisParser) (b : Bytes) (z : ℤ) (v : RedisValue) (k : ℕ) (acc : Values) (m : ℕ)
    (rest : Bytes)
    → k ≡ 0
    → deliver (with_value (inside p (suc k) acc) b z v) m rest
      ≡ deliver (with_value p b z (array_value (append acc (cons v nil)))) m rest
item_last p b z v k acc m rest e =
    rw (e, append_nil) (deliver_last (with_value p b z v) v acc m rest)

item_more :
    (p : RedisParser) (b : Bytes) (z : ℤ) (v : RedisValue) (k j : ℕ) (acc : Values) (m : ℕ)
    (rest : Bytes)
    → k ≡ suc j
    → suc k < 2 ^ 63
    → deliver (with_value (inside p (suc k) acc) b z v) m rest
      ≡ feed start (inside (with_value p b z v) (suc j) (push_back acc v)) m rest
item_more p b z v k j acc m rest e h =
    rw e (deliver_more (with_value p b z v) v j acc m rest (omega arith))

read_items : (r : Reply) (rs : Replies) → ReadsReply r → ReadsItems rs → ReadsItems (more r rs)
unfolding print
read_items r none_left reply items acc k rest p n e h =
    let (b, z, m, fed, places) = reply rest (inside p (suc k) acc) n in
    (b, z, m, fed ∙ item_last p b z (value_of r) k acc m rest (omega arith), places)
read_items r (more s rs) reply items acc k rest p n e h =
    let (b, z, m, fed, places) = reply (print_all (more s rs) rest) (inside p (suc k) acc) n in
    let (b', z', m', fed', places') =
      items (push_back acc (value_of r)) (count rs) rest (with_value p b z (value_of r)) m refl
        (omega arith) in
    (
      b',
      z',
      m',
      fed
          ∙ item_more p b z (value_of r) k (count rs) acc m _ (omega arith) h
          ∙ fed'
          ∙ ap (λ a. deliver (with_value p b' z' (array_value a)) m' rest)
              (append-push_back acc (value_of r) (values_of (more s rs))),
      omega arith,
    )

-- An item begins as a value does.
print-start_array :
    (r : Reply) (rest : Bytes) (p : RedisParser) (n : ℕ)
    → feed start_array p n (print r rest) ≡ feed start p n (print r rest)
unfolding print feed
print-start_array (status s) rest p n = rw (turn_start_array b'+' p, feed) refl
print-start_array _ rest p n = rw (turn_start_array, feed) refl

read_array :
    (r : Reply) (rs : Replies)
    → count (more r rs) < 2 ^ 63
    → ReadsItems (more r rs)
    → ReadsReply (array (more r rs))
unfolding print
read_array r rs h items rest p n =
    let (b, m, fed, places) = feed_array (count rs) (print_all (more r rs) rest) p n h in
    let (b', z', m', fed', places') = items nil (count rs) rest (record p { buf = b }) m refl h in
    (b', z', m', fed ∙ print-start_array r (print_all rs rest) _ m ∙ fed', omega arith)

mutual
  unfolding print

  pub print-Delivers : (r : Reply) → IsPrintable r → ReadsReply r
  print-Delivers (status s) h = λ rest p n. status-Delivers s rest p n h
  print-Delivers (failure s) h = λ rest p n. failure-Delivers s rest p n h
  print-Delivers (integer z) h = λ rest p n. integer-Delivers z rest p n h
  print-Delivers (bulk s) h = λ rest p n. bulk-Delivers s rest p n h
  print-Delivers null_bulk h = λ rest p n. null_bulk-Delivers rest p n
  print-Delivers null_array h = λ rest p n. null_array-Delivers rest p n
  print-Delivers (array none_left) h = λ rest p n. empty_array-Delivers rest p n
  print-Delivers (array (more r rs)) h = read_array r rs h.0 (print_all-Delivers (more r rs) h.1)

  print_all-Delivers : (rs : Replies) → ArePrintable rs → ReadsItems rs
  print_all-Delivers none_left h = λ acc k rest p n e b. cc
  print_all-Delivers (more r rs) h =
      read_items r rs (print-Delivers r h.0) (print_all-Delivers rs h.1)

-- A complete value of a parser with no open array ends the loop.
pub deliver-idle :
    (p : RedisParser) (m : ℕ) (rest : Bytes)
    → p.array_sizes ≡ []
    → p.array_values ≡ []
    → deliver p m rest ≡ some (leaves start p m)
unfolding deliver store_value push_if_open close_arrays end_value
deliver-idle p m rest s v = ground arith

-- What `parse` returns for a whole reply: nothing of `rest` is read, and the parser is idle again.
pub record Reads (p : RedisParser) (text rest : Bytes) (v : RedisValue) (r : Parsed) : Type 0 where
  pub result_is : r.result ≡ completed
  pub position_is : r.position + length rest ≡ length text
  pub value_is : result_of r.parser ≡ v
  pub idle : IsIdle r.parser
  pub no_states : r.parser.states ≡ []

pub feed_begin :
    (p : RedisParser) (text : Bytes)
    → p.states ≡ []
    → feed (top_state p.states) (resume_parser p) 0 text ≡ feed start p 0 text
feed_begin p text e = ground arith

pub IsIdle-IsReady : (p : RedisParser) → IsIdle p → IsReady p
IsIdle-IsReady p idle = ground (arith, idle.valid)

parse_idle :
    (p q : RedisParser) (text : Bytes) (m : ℕ)
    → IsIdle p
    → q.array_sizes ≡ []
    → feed start p 0 text ≡ some (leaves start q m)
    → parse p text ≡ some (record { position = m; result = completed; parser = q })
parse_idle p q text m idle closed fed =
    parse-feed p text (IsIdle-IsReady p idle)
    ∙ ap (λ o. o >>= λ e. some (finish e)) (feed_begin p text idle.valid.no_states ∙ fed)
    ∙ ap some (finish_closed start q m (ground arith))

-- An idle parser reads a printed reply off the front of any input, whatever the reply's shape and
-- depth, if its texts have no control characters and its numbers and lengths fit in 64 bits:
-- `parse` completes with the reply's value at the reply's last byte, and the parser is idle again.
pub parse-print :
    (r : Reply) (rest : Bytes) (p : RedisParser)
    → IsPrintable r
    → IsIdle p
    → (o : Parsed) × (parse p (print r rest) ≡ some o) × Reads p (print r rest) rest (value_of r) o
parse-print r rest p h idle =
    let (b, z, m, fed, places) = print-Delivers r h rest p 0 in
    let q = with_value p b z (value_of r) in
    let done = deliver-idle q m rest idle.no_sizes idle.no_values in
    let parsed = parse_idle p q (print r rest) m idle idle.no_sizes (fed ∙ done) in
    let valid = parse-ParsedIsValid p (print r rest) (IsIdle-IsReady p idle) parsed in
    (
      _,
      parsed,
      record {
        result_is = refl;
        position_is = omega arith;
        value_is = refl;
        idle = valid.says;
        no_states = idle.valid.no_states;
      },
    )
