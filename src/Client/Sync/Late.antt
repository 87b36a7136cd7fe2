-- ===== src/Client/Sync/Late.antt =====
-- `syncReadResponse` when a read fails, or is given up, before the response is whole; and the next
-- call of it.
use redisclient.Base.{
  ℕ, zero, suc, ◌+◌, ◌≤◌, ◌<◌, ◌≡◌, refl, ap, sym, subst, ◌∙◌, inl, inr, true, some, List, [], ◌∷◌,
  ◌++◌, map, append_assoc, length, length-append, All, Bytes, arith,
}
use redisclient.Value.{RedisValue, null_value}
use redisclient.Parser.{RedisParser, completed, incompleted}
use redisclient.Parser.Loop.{Parsed, parse}
use redisclient.Parser.Invariant.Loop.{IsReady, parse-ParsedIsValid}
use redisclient.Client.{Env, ErrorCode, no_error, is_error_code}
use redisclient.Socket.{ReadRound, socket_read_some}
use redisclient.Socket.Writing.{joined}
use redisclient.Client.Sync.{Session, SyncRun, returns, parse_buffer, read_response, buf_size}
use redisclient.Client.Sync.Cut.{value-cases}
use redisclient.Client.Sync.Rounds.{delivers, Chunk, fill-delivers, parse_buffer-incompleted}

-- A read that fails with `ec`, behind any number of interrupts.
abbrev pub Fails : List ReadRound → ErrorCode → List ReadRound → Type 0
Fails bad ec after =
    socket_read_some bad buf_size no_error ≡ some (record { bytes = []; ec = ec; rounds = after })

-- Given up, with a parser that completes the response `o` of `text` on what is behind `cut` bytes.
pub record GivesUp (ec : ErrorCode) (after : List ReadRound) (cut : ℕ) (rest : Bytes) (o : Parsed)
    (s : Session) (run : SyncRun RedisValue) : Type 0 where
  pub parser : RedisParser
  pub run_is :
      run
      ≡ returns null_value ec
          (record s { client = record s.client { redis_parser = parser; buf = [] }; reads = after })
  pub ready : IsReady parser
  pub later : Parsed
  pub parsed : parse parser rest ≡ some later
  pub outcome_is : o ≡ record later { position = cut + later.position }

read_response-Fails :
    (fuel : ℕ) (env : Env) (ec : ErrorCode) (bad after : List ReadRound) (s : Session)
    → s.client.buf ≡ []
    → s.reads ≡ bad
    → Fails bad ec after
    → is_error_code ec ≡ true
    → read_response (suc fuel) env no_error s
      ≡ returns null_value ec (record s { client = record s.client { buf = [] }; reads = after })
unfolding read_response
read_response-Fails fuel env ec bad after s empty reads fails set =
    rw (empty, reads, fails, set) refl

-- The bytes of a part are taken by the parser, and the next read follows.
read_response-part :
    (fuel : ℕ) (env : Env) (s : Session) (b : ℕ) (bs : Bytes) (more : List ReadRound) (r : Parsed)
    → s.client.buf ≡ []
    → s.reads ≡ delivers (b ∷ bs) ∷ more
    → length (b ∷ bs) ≤ 4096
    → parse s.client.redis_parser (b ∷ bs) ≡ some r
    → r.result ≡ incompleted
    → r.position ≡ length (b ∷ bs)
    → read_response (suc fuel) env no_error s
      ≡ read_response fuel env no_error (record s {
        client = record s.client { redis_parser = r.parser; buf = [] };
        reads = more;
      })
unfolding read_response
read_response-part fuel env s b bs more r empty reads small parsed part taken =
    let next = λ (ec : ErrorCode) (t : Session).
      parse_buffer (suc (length t.client.buf)) env 0 ec t (λ ec u. read_response fuel env ec u) in
    let t = record s { client = record s.client { buf = b ∷ bs }; reads = more } in
    fill-delivers s b bs more next empty reads small
    ∙ parse_buffer-incompleted (length bs) env t b bs r (λ ec u. read_response fuel env ec u) refl
        parsed part taken

module _ (env : Env) (ec : ErrorCode) (bad after : List ReadRound) (rest : Bytes)
    (fails : Fails bad ec after) (set : is_error_code ec ≡ true) where
  pub read_response-GivesUp :
      (chunks : List Bytes) (fuel : ℕ) (s : Session) (o : Parsed)
      → All Chunk chunks
      → length chunks < fuel
      → s.client.buf ≡ []
      → s.reads ≡ map delivers chunks ++ bad
      → IsReady s.client.redis_parser
      → parse s.client.redis_parser (joined chunks ++ rest) ≡ some o
      → o.result ≡ completed
      → length (joined chunks) < o.position
      → GivesUp ec after (length (joined chunks)) rest o s (read_response fuel env no_error s)
  read_response-GivesUp chunks zero s o are enough empty reads ready whole done inside =
      absurd (omega arith)
  read_response-GivesUp [] (suc fuel) s o are enough empty reads ready whole done inside = record {
    parser = s.client.redis_parser;
    run_is = read_response-Fails fuel env ec bad after s empty reads fails set;
    ready = ready;
    later = o;
    parsed = whole;
    outcome_is = ap (λ n. record o { position = n }) (omega arith);
  }
  read_response-GivesUp ([] ∷ chunks) (suc fuel) s o are enough empty reads ready whole done
        inside =
      absurd (omega (arith, are.0.0))
  read_response-GivesUp ((b ∷ bs) ∷ chunks) (suc fuel) s o are enough empty reads ready whole done
        inside =
      let p = s.client.redis_parser in
      let behind = joined chunks ++ rest in
      let text = append_assoc (b ∷ bs) (joined chunks) rest in
      let count = length-append (b ∷ bs) (joined chunks) in
      elim (value-cases p b bs behind o ready (subst (λ t. parse p t ≡ some o) text whole) done) [
        | inl now ↦
            absurd (omega (arith, (parse-ParsedIsValid p (b ∷ bs) ready now).within, inside, count))
        | inr (r, q, first, part, again, taken, more, second, same) ↦
            let position = ap (λ (x : Parsed). x.position) same in
            let t = record s {
              client = record s.client { redis_parser = r.parser; buf = [] };
              reads = map delivers chunks ++ bad;
            } in
            let next =
              read_response-GivesUp chunks fuel t q are.1 (omega arith) refl refl again second
                (sym (ap (λ (x : Parsed). x.result) same) ∙ done)
                (omega (arith, inside, count, position)) in
            record {
              parser = next.parser;
              run_is =
                  read_response-part fuel env s b bs (map delivers chunks ++ bad) r empty reads
                    are.0.1 first part taken
                  ∙ next.run_is;
              ready = next.ready;
              later = next.later;
              parsed = next.parsed;
              outcome_is =
                  same
                  ∙ ap (λ (x : Parsed). record x { position = length (b ∷ bs) + x.position })
                      next.outcome_is
                  ∙ ap (λ n. record next.later { position = n }) (omega (arith, count));
            }
      ]
