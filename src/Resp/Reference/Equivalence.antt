-- ===== src/Resp/Reference/Equivalence.antt =====
-- `RedisParser::parse` is the reader of the protocol, on every input.
use redisclient.Base.{
  ℕ, zero, suc, ◌+◌, ◌-◌, ◌*◌, ◌^◌, ◌<◌, ◌≤◌, ◌≡◌, refl, sym, ap, subst, ◌∙◌, false, ◌&&◌, Option,
  some, [], ◌∷◌, length, Bytes, arith, ◌>>=◌,
}
use redisclient.Value.{Values, nil, push_back}
use redisclient.Parser.{start, start_array, completed, incompleted, error, RedisParser, is_empty}
use redisclient.Parser.Loop.{Exit, Parsed, parse, result_of, finish}
use redisclient.Parser.Invariant.{IsIdle}
use redisclient.Parser.Bytewise.{feed}
use redisclient.Parser.Chunks.{parse-feed, finish_closed, finish_open}
use redisclient.Resp.Scalars.{with_value, inside}
use redisclient.Resp.Turns.{turn_start_array}
use redisclient.Resp.RoundTrip.{
  deliver_more, deliver_last, deliver-idle, feed_begin, IsIdle-IsReady,
}
use redisclient.Resp.Reference.{
  Answer, done, wants_more, refused, exhausted, behind_item, read_value, read_items, read_reply,
}
use redisclient.Resp.Reference.Rest.{LeavesAtMost, read_value-LeavesAtMost}
use redisclient.Resp.Reference.Strings.{Agrees, Agrees-with_value, cut_off}
use redisclient.Resp.Reference.Items.{begin_value-Agrees}

-- An item begins as a value does.
feed_start_array :
    (c : ℕ) (rest : Bytes) (p : RedisParser) (n : ℕ)
    → feed start_array p n (c ∷ rest) ≡ feed start p n (c ∷ rest)
unfolding feed
feed_start_array c rest p n = rw (turn_start_array c p, feed) refl

-- Behind an item: what the loop within the array has come to, for the parser around the array
behind_item-Agrees :
    (x : Answer) (k : ℕ) (acc : Values) (next : ℕ → Values → Bytes → Answer) (p : RedisParser)
    (limit total : ℕ) (o : Option Exit)
    → suc k < 2 ^ 63
    → LeavesAtMost limit x
    → ((j : ℕ) (more : Values) (rest : Bytes) (q : RedisParser) (m : ℕ)
        → suc j < 2 ^ 63
        → length rest ≤ limit
        → m + length rest ≡ total
        → Agrees (next j more rest) q total (feed start (inside q (suc j) more) m rest))
    → Agrees x (inside p (suc k) acc) total o
    → Agrees (behind_item x k acc next) p total o
behind_item-Agrees (done v rest) zero acc next p limit total o small left goes (b, z, m, e, count) =
    (b, z, m, e ∙ deliver_last (with_value p b z v) v acc m rest, count)
behind_item-Agrees (done v rest) (suc k) acc next p limit total o small left goes
      (b, z, m, e, count) =
    let q = with_value p b z v in
    subst (Agrees (next k (push_back acc v) rest) p total)
      (sym (e ∙ deliver_more q v k acc m rest small))
      (Agrees-with_value (next k (push_back acc v) rest) p b z v total _
        (goes k (push_back acc v) rest q m (omega (arith, small)) left count))
behind_item-Agrees wants_more k acc next p limit total o small left goes h = h
behind_item-Agrees refused k acc next p limit total o small left goes h = h
behind_item-Agrees exhausted k acc next p limit total o small left goes h = h

-- The first item: the loop is in the state StartArray.
first_item-Agrees :
    (fuel k : ℕ) (text : Bytes) (p : RedisParser) (b : Bytes) (n total : ℕ)
    → 0 < fuel
    → n + length text ≡ total
    → let q = record p { buf = b } in
      Agrees
        (read_items fuel k nil text)
        q
        (n + length text)
        (feed start (inside q (suc k) nil) n text)
      → Agrees (read_items fuel k nil text) p total (feed start_array (inside q (suc k) nil) n text)
unfolding read_value
first_item-Agrees zero k text p b n total some_fuel count agree = absurd (omega arith)
first_item-Agrees (suc fuel) k [] p b n total some_fuel count agree =
    cut_off start_array (inside (record p { buf = b }) (suc k) nil) n refl
first_item-Agrees (suc fuel) k (c ∷ rest) p b n total some_fuel count agree =
    let q = record p { buf = b } in
    let items = read_items (suc fuel) k nil (c ∷ rest) in
    subst (Agrees items p total) (sym (feed_start_array c rest (inside q (suc k) nil) n)) (
      Agrees-with_value items p b p.bulk_size p.redis_value total _ (
        subst (λ t. Agrees items q t (feed start (inside q (suc k) nil) n (c ∷ rest))) count agree))

mutual
  unfolding read_value feed

  read_value-Agrees :
      (fuel : ℕ) (text : Bytes) (p : RedisParser) (n : ℕ)
      → length text * 2 < fuel
      → (is_empty p.array_sizes && is_empty text) ≡ false
      → Agrees (read_value fuel text) p (n + length text) (feed start p n text)
  read_value-Agrees fuel [] p n enough within = (start, p, n, refl, ground (arith, within))
  read_value-Agrees zero (c ∷ rest) p n enough within = absurd (omega arith)
  read_value-Agrees (suc fuel) (c ∷ rest) p n enough within =
      let total : n + 1 + length rest ≡ n + suc (length rest) = omega arith in
      subst (λ t. Agrees (read_value (suc fuel) (c ∷ rest)) p t (feed start p n (c ∷ rest))) total
        (begin_value-Agrees (λ k behind. read_items fuel k nil behind) c rest p n
          (λ k b behind m small count short.
            first_item-Agrees fuel k behind p b (m + 1) (n + 1 + length rest)
              (omega (arith, enough)) count
              (read_items-Agrees fuel k nil behind (record p { buf = b }) (m + 1)
                (omega (arith, short, enough)) small)))

  read_items-Agrees :
      (fuel k : ℕ) (acc : Values) (text : Bytes) (p : RedisParser) (n : ℕ)
      → length text * 2 + 1 < fuel
      → suc k < 2 ^ 63
      → Agrees
          (read_items fuel k acc text)
          p
          (n + length text)
          (feed start (inside p (suc k) acc) n text)
  read_items-Agrees zero k acc text p n enough small = absurd (omega arith)
  read_items-Agrees (suc fuel) k acc [] p n enough small =
      (start, inside p (suc k) acc, n, refl, refl)
  read_items-Agrees (suc fuel) k acc (c ∷ rest) p n enough small =
      behind_item-Agrees (read_value fuel (c ∷ rest)) k acc
        (λ j more behind. read_items fuel j more behind) p (suc (length rest) - 1)
        (n + suc (length rest)) _ small (read_value-LeavesAtMost fuel (c ∷ rest))
        (λ j more behind q m fits short count.
          subst
            (λ t.
              Agrees (read_items fuel j more behind) q t
                (feed start (inside q (suc j) more) m behind))
            count (read_items-Agrees fuel j more behind q m (omega (arith, short, enough)) fits))
        (read_value-Agrees fuel (c ∷ rest) (inside p (suc k) acc) n (omega (arith, enough)) refl)

-- What `parse` returns for an answer of the reader
abbrev pub ParseAgrees : Answer → ℕ → Parsed → Type 0
ParseAgrees (done v rest) total r =
    (r.result ≡ completed) × (result_of r.parser ≡ v) × (r.position + length rest ≡ total)
ParseAgrees wants_more total r = r.result ≡ incompleted
ParseAgrees refused total r = r.result ≡ error
ParseAgrees exhausted total r = ⊥

-- The end of the loop, and the return
finish-Agrees :
    (x : Answer) (p : RedisParser) (total : ℕ) (o : Option Exit)
    → IsIdle p
    → Agrees x p total o
    → (r : Parsed) × ((o >>= λ e. some (finish e)) ≡ some r) × ParseAgrees x total r
finish-Agrees (done v rest) p total o idle (b, z, m, e, count) =
    let q = with_value p b z v in
    let last = e ∙ deliver-idle q m rest idle.no_sizes idle.no_values in
    (
      record { position = m; result = completed; parser = q },
      ap (λ o. o >>= λ e. some (finish e)) last
          ∙ ap some (finish_closed start q m (ground (arith, idle.no_sizes))),
      (refl, refl, count),
    )
finish-Agrees wants_more p total o idle (s, q, m, e, not_closed) =
    (_, ap (λ o. o >>= λ e. some (finish e)) e ∙ ap some (finish_open s q m not_closed), refl)
finish-Agrees refused p total o idle (q, m, e) = (
  record { position = m; result = error; parser = q },
  ap (λ o. o >>= λ e. some (finish e)) e ∙ ap some (unfold finish in refl),
  refl,
)
finish-Agrees exhausted p total o idle h = absurd h

pub parse-read_reply :
    (p : RedisParser) (c : ℕ) (text : Bytes)
    → IsIdle p
    → (r : Parsed) × (parse p (c ∷ text) ≡ some r)
      × ParseAgrees (read_reply (c ∷ text)) (length (c ∷ text)) r
unfolding read_reply
parse-read_reply p c text idle =
    let n = length (c ∷ text) in
    let agree = read_value-Agrees (n * 2 + 1) (c ∷ text) p 0 (omega arith) (ground arith) in
    let (r, parsed, same) =
      finish-Agrees (read_value (n * 2 + 1) (c ∷ text)) p (0 + n) _ idle agree in
    (
      r,
      parse-feed p (c ∷ text) (IsIdle-IsReady p idle)
          ∙ ap (λ o. o >>= λ e. some (finish e)) (feed_begin p (c ∷ text) idle.valid.no_states)
          ∙ parsed,
      subst (λ t. ParseAgrees (read_value (n * 2 + 1) (c ∷ text)) t r) (omega arith) same,
    )
