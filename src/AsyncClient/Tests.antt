-- ===== src/AsyncClient/Tests.antt =====
-- The theorems on reconnecting at concrete clients.
use redisclient.Base.{◌≡◌, ◌++◌, refl, [], ◌∷◌, codes}
use redisclient.Value.{null_value}
use redisclient.Client.{Client, connected, Run, returns, Env, operation_aborted, installed}
use redisclient.Base.{arith}
use redisclient.Buffer.{from_string, make_command}
use redisclient.Resp.{bulk, print, value_of}
use redisclient.Parser.{RedisParser}
use redisclient.Parser.Loop.{result_of}
use redisclient.Parser.Invariant.{new_parser-IsIdle}
use redisclient.Client.{no_error, process_message, Task}
use redisclient.Client.Queue.{do_async_command}
use redisclient.Client.Messages.{async_read}
use redisclient.Client.Messages.Safety.{Keeps-refl, IsPolite}
use redisclient.AsyncClient.{command}
use redisclient.AsyncClient.Requests.{IsQuiet, requested, command-answered}
use redisclient.Client.Queue.Order.{sent, Command}
use redisclient.Client.Messages.{do_process_message}
use redisclient.AsyncClient.{new_client, disconnect}
use redisclient.AsyncClient.Reconnect.{
  IsIdleEnv, first_command, reconnect_sends_stale, do_process_message-disconnect,
}

-- The user's functions return at once, and the handler of a reply disconnects first.
abbrev leaving : Env
leaving = record {
  on_reply = λ h v c. returns tt (disconnect c);
  on_message = λ h payload c. returns tt c;
  on_connect = λ h ec c. returns tt c;
  on_error = λ h s c. returns tt c;
  error_text = λ ec. codes "error";
}

leaving-IsIdleEnv : IsIdleEnv leaving
leaving-IsIdleEnv = record { error_idles = λ h s c. refl; connect_idles = λ h ec c. refl }

abbrev waiting : Client
waiting = record new_client {
  state = connected;
  error_handler = installed 3;
  handlers = 7 ∷ 8 ∷ [];
  data_writed = codes "GET" ∷ [];
  data_queued = codes "PING" ∷ [];
}

do_process_message-disconnect_example : do_process_message leaving null_value waiting ≡ Run.faults
do_process_message-disconnect_example =
    do_process_message-disconnect leaving 7 (8 ∷ []) null_value waiting refl refl refl

abbrev set : Command
set = record { buff = codes "SET"; handler = 9 }

reconnect_sends_stale_example :
    (f : Client) × (first_command leaving operation_aborted 1 2 set waiting ≡ returns tt f)
    × (sent f.io ≡ sent waiting.io ++ (codes "PING" ∷ [] ++ codes "SET" ∷ []))
    × (f.handlers ≡ 9 ∷ [])
reconnect_sends_stale_example =
    reconnect_sends_stale leaving operation_aborted 1 2 3 set waiting leaving-IsIdleEnv refl refl

abbrev quiet : Env
quiet = record leaving { on_reply = λ h v c. returns tt c }

quiet-IsPolite : IsPolite quiet
quiet-IsPolite q = record {
  reply_keeps = λ h v c. Keeps-refl (λ p. p ≡ q) c;
  error_keeps = λ h s c. Keeps-refl (λ p. p ≡ q) c;
}

abbrev idle : Client
idle = record new_client { state = connected }

idle-IsQuiet : IsQuiet idle
idle-IsQuiet = record {
  connected_now = refl;
  none_posted = refl;
  none_waiting = refl;
  none_writed = refl;
  none_queued = refl;
  idle = new_parser-IsIdle;
}

command-answered_example :
    let bytes = make_command (from_string (codes "PING") ∷ []) in
    let d = requested bytes 7 idle in
    (command quiet (codes "PING") [] 7 idle
      ≡ returns tt (record idle { posted = Task.command bytes 7 ∷ [] }))
    × (do_async_command quiet bytes 7 idle ≡ returns tt d)
    × ((q : RedisParser) × (result_of q ≡ value_of (bulk (codes "PONG")))
        × (async_read quiet no_error (print (bulk (codes "PONG")) []) d
            ≡ returns tt (process_message (record d { redis_parser = q; handlers = [] }))))
command-answered_example =
    command-answered quiet (codes "PING") [] 7 (λ x. x) (bulk (codes "PONG")) idle idle-IsQuiet
      quiet-IsPolite (λ x. refl) (λ x. refl) (omega arith)
