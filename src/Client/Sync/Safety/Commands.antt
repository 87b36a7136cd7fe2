-- ===== src/Client/Sync/Safety/Commands.antt =====
-- No undefined behaviour in `doSyncCommand`, of one command and of several, whatever the system
-- answers.
use redisclient.Base.{
  ℕ, zero, suc, inl, inr, Bool-cases, Option, none, some, List, [], ◌++◌, map, length,
}
use redisclient.Value.{Values, nil, push_back, RedisValue}
use redisclient.Buffer.{RedisBuffer, make_command}
use redisclient.Client.{Env, ErrorCode, is_error_code}
use redisclient.Socket.{Written, write_buffers, socket_write}
use redisclient.Client.Sync.{
  Session, SyncRun, returns, throws, blocks, faults, sync_read_response, after_write,
  do_sync_command, after_response, read_responses, do_sync_commands,
}
use redisclient.Client.Sync.Safety.{
  SyncEnds, IsSound, HasSound, KeepsSound, sync_read_response-SyncEnds,
}

module _ (env : Env) (keeps : KeepsSound env) where
  after_write-Ends :
      (o : Option Written) (s : Session) (next : ErrorCode → Session → SyncRun RedisValue)
      → IsSound s.client
      → ((ec : ErrorCode) (t : Session) → HasSound t → SyncEnds HasSound (next ec t))
      → SyncEnds HasSound (after_write o s next)
  after_write-Ends none s next sound goes = tt
  after_write-Ends (some w) s next sound goes =
      let t = record s { writes = w.rounds; wire = s.wire ++ w.sent } in
      elim (Bool-cases (is_error_code w.ec)) [
        | inl fails ↦ rw fails sound
        | inr fits ↦ rw fits (goes w.ec t sound)
      ]

  pub do_sync_command-SyncEnds :
      (command : List RedisBuffer) (ec : ErrorCode) (s : Session)
      → IsSound s.client
      → SyncEnds HasSound (do_sync_command env command ec s)
  unfolding do_sync_command
  do_sync_command-SyncEnds command ec s sound =
      after_write-Ends (socket_write s.writes (make_command command) ec) s (sync_read_response env)
        sound (λ ec t after. sync_read_response-SyncEnds env keeps ec t after)

  after_response-Ends :
      (run : SyncRun RedisValue) (next : RedisValue → ErrorCode → Session → SyncRun RedisValue)
      → SyncEnds HasSound run
      → ((v : RedisValue) (ec : ErrorCode) (t : Session)
          → HasSound t
          → SyncEnds HasSound (next v ec t))
      → SyncEnds HasSound (after_response run next)
  after_response-Ends (returns v ec s) next h goes = elim (Bool-cases (is_error_code ec)) [
    | inl fails ↦ rw fails h
    | inr fits ↦ rw fits (goes v ec s h)
  ]
  after_response-Ends (throws text s) next h goes = h
  after_response-Ends blocks next h goes = tt
  after_response-Ends faults next h goes = h

  read_responses-Ends :
      (n : ℕ) (responses : Values) (ec : ErrorCode) (s : Session)
      → IsSound s.client
      → SyncEnds HasSound (read_responses env n responses ec s)
  unfolding read_responses
  read_responses-Ends zero responses ec s sound = sound
  read_responses-Ends (suc n) responses ec s sound =
      after_response-Ends (sync_read_response env ec s)
        (λ v ec t. read_responses env n (push_back responses v) ec t)
        (sync_read_response-SyncEnds env keeps ec s sound)
        (λ v ec t after. read_responses-Ends n (push_back responses v) ec t after)

  pub do_sync_commands-SyncEnds :
      (commands : List (List RedisBuffer)) (ec : ErrorCode) (s : Session)
      → IsSound s.client
      → SyncEnds HasSound (do_sync_commands env commands ec s)
  unfolding do_sync_commands
  do_sync_commands-SyncEnds commands ec s sound =
      after_write-Ends (write_buffers s.writes [] (map make_command commands) ec) s
        (λ ec t. read_responses env (length commands) nil ec t) sound
        (λ ec t after. read_responses-Ends (length commands) nil ec t after)
