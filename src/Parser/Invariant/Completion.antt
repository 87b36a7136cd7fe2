-- ===== src/Parser/Invariant/Completion.antt =====
-- The invariant of the parser's stacks through the completion of values.
use redisclient.Base.{◌≡◌, refl, Option, none, some, List, [], ◌∷◌, arith, ◌>>=◌}
use redisclient.Base.Int.{ℤ, sub64_within}
use redisclient.Value.{RedisValue, is_array, get_array, redis_value, array}
use redisclient.Parser.{
  RedisParser, store_value, Stacks, push_top, push_if_open, close_top, close_arrays, put_stacks,
}
use redisclient.Parser.Invariant.{AreOpen}

abbrev ValuesOpen : List ℤ → Option (List RedisValue) → Type 0
ValuesOpen sizes none = ⊥
ValuesOpen sizes (some values) = AreOpen sizes values

push_top-AreOpen :
    (v : RedisValue) (sizes : List ℤ) (values : List RedisValue)
    → AreOpen sizes values
    → ValuesOpen sizes (push_if_open v sizes values)
unfolding push_if_open push_top get_array is_array
push_top-AreOpen v [] [] h = tt
push_top-AreOpen v (n ∷ sizes) (redis_value (array items) e ∷ values) h = (h.0, refl, h.2)
push_top-AreOpen v (n ∷ sizes) (redis_value _ e ∷ values) h = ground arith
push_top-AreOpen v _ _ h = absurd h

-- A push on open stacks succeeds.
pub push_if_open-total :
    (v : RedisValue) (sizes : List ℤ) (values : List RedisValue)
    → AreOpen sizes values
    → (pushed : List RedisValue) × (push_if_open v sizes values ≡ some pushed)
      × AreOpen sizes pushed
push_if_open-total v sizes values h = ValuesOpen-some _ (push_top-AreOpen v sizes values h)
  where
    ValuesOpen-some :
        (o : Option (List RedisValue))
        → ValuesOpen sizes o
        → (pushed : List RedisValue) × (o ≡ some pushed) × AreOpen sizes pushed
    ValuesOpen-some none h = absurd h
    ValuesOpen-some (some vs) h = (vs, refl, h)

abbrev StacksOpen : Option Stacks → Type 0
StacksOpen none = ⊥
StacksOpen (some s) = AreOpen s.sizes s.values

close_arrays-AreOpen :
    (sizes : List ℤ) (values : List RedisValue) (v : RedisValue)
    → AreOpen sizes values
    → StacksOpen (close_arrays sizes values v)
unfolding close_arrays close_top
close_arrays-AreOpen [] [] v h = tt
close_arrays-AreOpen (n ∷ sizes) (top ∷ below) v h =
    let (pushed, e, o) = push_if_open-total top sizes below h.2 in
    let rest = close_arrays-AreOpen sizes pushed top o in ground (arith, e, sub64_within n 1, rest)
close_arrays-AreOpen _ _ v h = absurd h

-- A complete value is stored without a fault; the open arrays stay so, and nothing else changes.
pub record Stored (p q : RedisParser) : Type 0 where
  pub are_open : AreOpen q.array_sizes q.array_values
  pub same_states : q.states ≡ p.states
  pub same_size : q.bulk_size ≡ p.bulk_size

put_stacks-Stored :
    (p : RedisParser) (o : Option Stacks)
    → StacksOpen o
    → (q : RedisParser) × ((o >>= λ s. some (put_stacks p s)) ≡ some q) × Stored p q
put_stacks-Stored p none h = absurd h
put_stacks-Stored p (some s) h =
    (put_stacks p s, refl, record { are_open = h; same_states = refl; same_size = refl })

pub store_value-Stored :
    (p : RedisParser)
    → AreOpen p.array_sizes p.array_values
    → (q : RedisParser) × (store_value p ≡ some q) × Stored p q
unfolding store_value
store_value-Stored p h =
    let (pushed, e, o) = push_if_open-total p.redis_value p.array_sizes p.array_values h in
    let closed = close_arrays-AreOpen p.array_sizes pushed p.redis_value o in
    rw (e, ◌>>=◌) (put_stacks-Stored p (close_arrays p.array_sizes pushed p.redis_value) closed)
