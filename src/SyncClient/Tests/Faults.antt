-- ===== src/SyncClient/Tests/Faults.antt =====
-- The calls of a synchronous client when the system and the server misbehave.
use redisclient.Base.{List, [], ◌∷◌, codes}
use redisclient.Buffer.{RedisBuffer, from_string}
use redisclient.Client.{new_impl, connected, installed, Env, Run}
use redisclient.Socket.{succeeds, ready, timeout, accepted, send_fails, received, eintr}
use redisclient.Client.Sync.{Session}
use redisclient.Client.Sync.Rounds.{delivers}
use redisclient.SyncClient.{Pipeline, add_command, new_pipeline}

-- The error handler installs another one.
abbrev replacing : Env
replacing = record {
  on_reply = λ h v c. Run.returns tt c;
  on_message = λ h payload c. Run.returns tt c;
  on_connect = λ h ec c. Run.returns tt c;
  on_error = λ h s c. Run.returns tt (record c { error_handler = installed 2 });
  error_text = λ ec. codes "error";
}

-- A begin of a reply, a byte that no reply has, and a read that times out
abbrev session : Session
session = record {
  client = record new_impl { state = connected; error_handler = installed 1; buf = codes "$1" };
  reads =
      delivers (codes "\r")
      ∷ delivers (codes "\n?")
      ∷ record { set_option = succeeds; poll = timeout; recv = received [] }
      ∷ [];
  writes =
      record { set_option = succeeds; poll = ready; send = send_fails eintr }
      ∷ record { set_option = succeeds; poll = ready; send = accepted 100 }
      ∷ [];
  wire = [];
}

abbrev args : List RedisBuffer
args = from_string (codes "k") ∷ []

abbrev pipeline : Pipeline
pipeline = add_command (codes "GET") args (add_command (codes "GET") args new_pipeline)
