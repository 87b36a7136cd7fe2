-- ===== src/Client/Queue.antt =====
-- src/redisclient/impl/redisclientimpl.cpp: `doAsyncCommand` and `asyncWrite`, the queue of the
-- commands to send.
pub mod Order
use redisclient.Base.{Bool, true, false, List, [], ◌∷◌, ◌++◌, if◌then◌else◌, Bytes}
use redisclient.Parser.{is_empty}
use redisclient.Client.{
  Client, Run, returns, Env, ErrorCode, no_error, is_error_code, Handler, starts_write, does,
  report,
}

-- `dataQueued` is handed over: it becomes `dataWrited`, and one write of all of it is started.
abbrev pub start_write : Client → Client
start_write c =
    does (starts_write c.data_queued) (record c { data_queued = []; data_writed = c.data_queued })

-- `RedisClientImpl::asyncWrite`, called when a write has ended, and by `doAsyncCommand`.
unfoldable pub async_write : Env → ErrorCode → Client → Run Unit
async_write env ec c =
    let written = record c { data_writed = [] } in
    if is_error_code ec
    then report env (env.error_text ec) written
    else returns tt (if is_empty c.data_queued then written else start_write written)

-- `RedisClientImpl::doAsyncCommand`
unfoldable pub do_async_command : Env → Bytes → Handler → Client → Run Unit
do_async_command env buff handler c =
    let queued = record c {
      handlers = c.handlers ++ handler ∷ [];
      data_queued = c.data_queued ++ buff ∷ [];
    } in
    if is_empty c.data_writed then async_write env no_error queued else returns tt queued
