-- ===== src/AsyncClient/Trace/Invariant.antt =====
-- What holds in every run of a `RedisAsyncClient`, and that `doAsyncCommand`, `asyncWrite` and what
-- goes on beside the queues keep it.
use redisclient.Base.{
  ℕ, suc, ◌+◌, ◌≡◌, refl, sym, ap, subst, ◌∙◌, true, false, inl, inr, Bool-cases, List, [], ◌∷◌,
  ◌++◌, append_assoc, arith, if◌then◌else◌,
}
use redisclient.Parser.{is_empty}
use redisclient.Parser.Invariant.Loop.{IsReady}
use redisclient.Client.{
  Client, Run, returns, throws, Env, ErrorCode, is_error_code, Handler, report,
}
use redisclient.Client.Queue.{async_write, do_async_command, start_write}
use redisclient.Client.Queue.Order.{
  Command, sent, writes, buffs, functions, under_way, buffs-append, functions-append, append-snoc,
  enqueue, start_write-sent, start_write-writes, under_way_some, under_way-nil, under_way-snoc,
  do_async_command-sends, do_async_command-waits,
}
use redisclient.Client.Moves.{Moving, report-Moves, Leaves, Ends-Leaves, Beside}
use redisclient.AsyncClient.Trace.{Leads}

-- With the commands that the strand has run, and how many writes have ended, and failed.
pub record IsOrdered (cs : List Command) (ended failed : ℕ) (c : Client) : Type 0 where
  pub in_order : sent c.io ++ c.data_queued ≡ buffs cs
  pub waiting : (called : List Handler) × (called ++ c.handlers ≡ functions cs)
  pub at_most_one : writes c.io ≡ ended + under_way c.data_writed
  pub no_wait : failed ≡ 0 → is_empty c.data_writed ≡ true → is_empty c.data_queued ≡ true
  pub ready : IsReady c.redis_parser

pub Leaves-Leads :
    {A : Type 0} (P : Client → Type 0) (m : Run A) (d : Client) → Leaves P m → Leads m d → P d
Leaves-Leads P (returns a e) d h leads = subst P leads h
Leaves-Leads P (throws s e) d h leads = subst P leads h
Leaves-Leads P Run.faults d h leads = absurd leads

module _ (cs : List Command) (ended failed : ℕ) (c : Client) (i : IsOrdered cs ended failed c) where
  pub Beside-IsOrdered : (d : Client) → Beside c d → IsOrdered cs ended failed d
  Beside-IsOrdered d b =
      let (hs, left) = b.handlers_left in
      let (called, all_waiting) = i.waiting in
      record {
        in_order = rw (b.sent_same, b.queued_same) i.in_order;
        waiting = (
          called ++ hs,
          append_assoc called hs d.handlers ∙ ap (λ l. called ++ l) (sym left) ∙ all_waiting,
        );
        at_most_one = rw (b.writes_same, b.writed_same) i.at_most_one;
        no_wait = rw (b.writed_same, b.queued_same) i.no_wait;
        ready = b.ready_kept i.ready;
      }

  pub Leaves-IsOrdered :
      {A : Type 0} (m : Run A) → Leaves (Beside c) m → Leaves (IsOrdered cs ended failed) m
  Leaves-IsOrdered (returns a d) h = Beside-IsOrdered d h
  Leaves-IsOrdered (throws s d) h = Beside-IsOrdered d h
  Leaves-IsOrdered Run.faults h = tt

  -- A write that has ended, with nothing begun
  written-IsOrdered :
      (n : ℕ)
      → is_empty c.data_writed ≡ false
      → (n ≡ 0 → is_empty c.data_queued ≡ true)
      → IsOrdered cs (suc ended) n (record c { data_writed = [] })
  written-IsOrdered n busy left = record {
    in_order = i.in_order;
    waiting = i.waiting;
    at_most_one = omega (arith, under_way_some c.data_writed busy, i.at_most_one);
    no_wait = λ z u. left z;
    ready = i.ready;
  }

  -- A write that has ended, with all that waits in a new one
  rewritten-IsOrdered :
      is_empty c.data_writed ≡ false
      → is_empty c.data_queued ≡ false
      → IsOrdered cs (suc ended) failed (start_write c)
  rewritten-IsOrdered busy waits = record {
    in_order = start_write-sent c ∙ i.in_order;
    waiting = i.waiting;
    at_most_one = omega (
      arith,
      start_write-writes c,
      under_way_some c.data_writed busy,
      under_way_some c.data_queued waits,
      i.at_most_one,
    );
    no_wait = λ z u. refl;
    ready = i.ready;
  }

  enqueue-in_order :
      (x : Command) → sent c.io ++ (c.data_queued ++ x.buff ∷ []) ≡ buffs (cs ++ x ∷ [])
  enqueue-in_order x =
      append-snoc (sent c.io) c.data_queued _ x.buff i.in_order ∙ sym (buffs-append cs x)

  enqueue-waiting :
      (x : Command)
      → (called : List Handler) × (called ++ (c.handlers ++ x.handler ∷ [])
          ≡ functions (cs ++ x ∷ []))
  enqueue-waiting x =
      let (called, all_waiting) = i.waiting in
      (called, append-snoc called c.handlers _ x.handler all_waiting ∙ sym (functions-append cs x))

  pub do_async_command-IsOrdered :
      (env : Env) (x : Command)
      → Leaves (IsOrdered (cs ++ x ∷ []) ended failed) (do_async_command env x.buff x.handler c)
  do_async_command-IsOrdered env x = elim (Bool-cases (is_empty c.data_writed)) [
    | inl idle ↦ rw (do_async_command-sends env x c idle) (record {
      in_order = start_write-sent (enqueue x c) ∙ enqueue-in_order x;
      waiting = enqueue-waiting x;
      at_most_one = omega (
        arith,
        start_write-writes (enqueue x c),
        under_way-snoc c.data_queued x.buff,
        under_way-nil c.data_writed idle,
        i.at_most_one,
      );
      no_wait = λ z u. refl;
      ready = i.ready;
    })
    | inr busy ↦ rw (do_async_command-waits env x c busy) (record {
      in_order = enqueue-in_order x;
      waiting = enqueue-waiting x;
      at_most_one = i.at_most_one;
      no_wait = λ z u. cc;
      ready = i.ready;
    })
  ]

pub async_write-IsOrdered :
    (cs : List Command) (ended failed : ℕ) (c : Client) (env : Env) (ec : ErrorCode)
    → Moving ⊥ env
    → IsOrdered cs ended failed c
    → is_empty c.data_writed ≡ false
    → Leaves
        (IsOrdered cs (suc ended) (if is_error_code ec then suc failed else failed))
        (async_write env ec c)
unfolding async_write
async_write-IsOrdered cs ended failed c env ec moving i busy =
    let written = record c { data_writed = [] } in
    elim (Bool-cases (is_error_code ec)) [
      | inl fails ↦
          let after =
            written-IsOrdered cs ended failed c i (suc failed) busy (λ z. ground (arith, z)) in
          let told = report-Moves ⊥ env moving (env.error_text ec) written in
          rw fails (
            Leaves-IsOrdered cs (suc ended) (suc failed) written after
              (report env (env.error_text ec) written) (Ends-Leaves (Beside written) _ told))
      | inr goes ↦ elim (Bool-cases (is_empty c.data_queued)) [
        | inl none_left ↦
            rw (goes, none_left)
              (written-IsOrdered cs ended failed c i failed busy (λ z. none_left))
        | inr waits ↦ rw (goes, waits) (rewritten-IsOrdered cs ended failed c i busy waits)
      ]
    ]
