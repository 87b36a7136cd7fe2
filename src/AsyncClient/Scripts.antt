-- ===== src/AsyncClient/Scripts.antt =====
-- The user's side of src/redisclient/redisasyncclient.h: functions that the user gives to a
-- `RedisAsyncClient`, as scripts of calls of its methods. A script may look at `state()` and at the
-- handles it gets, and may throw.
pub mod Effects
pub mod Commands
use redisclient.Base.{ℕ, zero, suc, List, Bytes}
use redisclient.Value.{RedisValue}
use redisclient.Buffer.{RedisBuffer}
use redisclient.Client.{State, Client, Run, returns, throws, ◌>>>◌, Env, ErrorCode, Handler}
use redisclient.AsyncClient.{
  Handle, connect, connect_local, disconnect, install_error_handler, command, subscribe_channel,
  psubscribe, unsubscribe_handle, punsubscribe, single_shot_channel, single_shot_psubscribe,
  publish_message, state_of,
}

-- The methods that return nothing.
pub data Call : Type 0 where
  connects connects_local : ℕ → Handler → Call
  disconnects : Call
  installs_error_handler : Handler → Call
  commands : Bytes → List RedisBuffer → Handler → Call
  publishes : Bytes → RedisBuffer → Handler → Call
  unsubscribes punsubscribes : Handle → Call
  single_shots single_shot_patterns : Bytes → Handler → Handler → Call

unfoldable pub perform : Env → Call → Client → Run Unit
perform env (connects endpoint h) c = connect env endpoint h c
perform env (connects_local endpoint h) c = connect_local env endpoint h c
perform env disconnects c = returns tt (disconnect c)
perform env (installs_error_handler h) c = returns tt (install_error_handler h c)
perform env (commands cmd args h) c = command env cmd args h c
perform env (publishes channel msg h) c = publish_message env channel msg h c
perform env (unsubscribes handle) c = unsubscribe_handle env handle c
perform env (punsubscribes handle) c = punsubscribe env handle c
perform env (single_shots channel m h) c = single_shot_channel env channel m h c
perform env (single_shot_patterns pattern m h) c = single_shot_psubscribe env pattern m h c

pub data Script : Type 0 where
  stops : Script
  raises : Bytes → Script
  calls : Call → Script → Script
  looks : (State → Script) → Script
  subscribes psubscribes : Bytes → Handler → Handler → (Handle → Script) → Script

unfoldable pub run_script : Env → Script → Client → Run Unit
run_script env stops c = returns tt c
run_script env (raises text) c = throws text c
run_script env (calls x s) c = perform env x c >>> λ u d. run_script env s d
run_script env (looks f) c = run_script env (f (state_of c)) c
run_script env (subscribes channel m h f) c =
    subscribe_channel env channel m h c >>> λ handle d. run_script env (f handle) d
run_script env (psubscribes pattern m h f) c =
    psubscribe env pattern m h c >>> λ handle d. run_script env (f handle) d

-- The functions of the user, by their names.
pub record Program : Type 0 where
  pub reply_script : Handler → RedisValue → Script
  pub message_script : Handler → Bytes → Script
  pub connect_script : Handler → ErrorCode → Script
  pub error_script : Handler → Bytes → Script
  pub text_of : ErrorCode → Bytes

-- A call can run a function that makes a call, and so on. Functions nested deeper than `depth`
-- return at once.
unfoldable pub env_of : ℕ → Program → Env
env_of zero p = record {
  on_reply = λ h v c. returns tt c;
  on_message = λ h payload c. returns tt c;
  on_connect = λ h ec c. returns tt c;
  on_error = λ h s c. returns tt c;
  error_text = p.text_of;
}
env_of (suc depth) p = record {
  on_reply = λ h v c. run_script (env_of depth p) (p.reply_script h v) c;
  on_message = λ h payload c. run_script (env_of depth p) (p.message_script h payload) c;
  on_connect = λ h ec c. run_script (env_of depth p) (p.connect_script h ec) c;
  on_error = λ h s c. run_script (env_of depth p) (p.error_script h s) c;
  error_text = p.text_of;
}

-- No `disconnect` in a script, nor in the functions that a script can run: those of replies, of
-- connections and of errors. Functions of messages are run by the strand alone.
unfoldable pub IsCalmCall : Call → Type 0
IsCalmCall disconnects = ⊥
IsCalmCall _ = Unit

unfoldable pub IsCalmScript : Script → Type 0
IsCalmScript stops = Unit
IsCalmScript (raises text) = Unit
IsCalmScript (calls x s) = IsCalmCall x × IsCalmScript s
IsCalmScript (looks f) = (s : State) → IsCalmScript (f s)
IsCalmScript (subscribes channel m h f) = (handle : Handle) → IsCalmScript (f handle)
IsCalmScript (psubscribes pattern m h f) = (handle : Handle) → IsCalmScript (f handle)

pub record IsCalm (p : Program) : Type 0 where
  pub calm_reply : (h : Handler) (v : RedisValue) → IsCalmScript (p.reply_script h v)
  pub calm_connect : (h : Handler) (ec : ErrorCode) → IsCalmScript (p.connect_script h ec)
  pub calm_error : (h : Handler) (s : Bytes) → IsCalmScript (p.error_script h s)
