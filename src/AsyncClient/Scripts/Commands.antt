-- ===== src/AsyncClient/Scripts/Commands.antt =====
-- Functions of the user that give a command (`RedisAsyncClient::command`), and return.
use redisclient.Base.{◌⊎◌, ◌≡◌, refl, true, inl, inr, Bool-cases, List, ◌∷◌, ◌++◌, Bytes, codes}
use redisclient.Parser.{RedisParser}
use redisclient.Buffer.{RedisBuffer, from_string, make_command}
use redisclient.Client.{
  Client, returns, Ends, Env, Handler, ErrorHandler, unset, default_handler, installed, Task, post,
  is_connected, report, call_error_handler, throws, state_name,
}
use redisclient.Client.Messages.Safety.{Keeps, Keeps-refl}
use redisclient.AsyncClient.{command, state_valid, invalid_state}
use redisclient.AsyncClient.Scripts.{stops, calls, commands, perform, run_script}

-- A connected client posts the command of a script.
pub command-posted :
    (env : Env) (cmd : Bytes) (args : List RedisBuffer) (g : Handler) (x : Client)
    → is_connected x.state ≡ true
    → run_script env (calls (commands cmd args g) stops) x
      ≡ returns tt (post (Task.command (make_command (from_string cmd ∷ args)) g) x)
unfolding run_script perform command state_valid
command-posted env cmd args g x ready = rw ready refl

report-cases :
    (env : Env) (e : ErrorHandler) (s : Bytes) (c : Client)
    → ((h : Handler) → env.on_error h s c ≡ returns tt c)
    → (call_error_handler env e s c ≡ returns tt c)
      ⊎ ((t : Bytes) × (call_error_handler env e s c ≡ throws t c))
report-cases env unset s c idles = inr (_, refl)
report-cases env default_handler s c idles = inr (_, refl)
report-cases env (installed h) s c idles = inl (idles h)

-- A script that gives one command does not change the parser, nor empties the queue.
pub command-Keeps :
    (I : RedisParser → Type 0) (env : Env) (cmd : Bytes) (args : List RedisBuffer) (g : Handler)
    (c : Client)
    → ((h : Handler) (s : Bytes) → env.on_error h s c ≡ returns tt c)
    → Ends (Keeps I c) (run_script env (calls (commands cmd args g) stops) c)
unfolding run_script perform command state_valid invalid_state report
command-Keeps I env cmd args g c idles = elim (Bool-cases (is_connected c.state)) [
  | inl valid ↦ rw valid (record { parser_kept = λ i. i; still_handlers = λ e. e })
  | inr other ↦
      rw other
        (elim (report-cases env c.error_handler
          (codes "RedisAsyncClient::command called with invalid state " ++ state_name c.state) c
          (λ h. idles h _)) [
            | inl told ↦ rw told (Keeps-refl I c)
            | inr (t, thrown) ↦ rw thrown (Keeps-refl I c)
          ])
]
