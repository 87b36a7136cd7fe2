-- ===== src/SyncClient/Safety.antt =====
-- No undefined behaviour in the calls of a `RedisSyncClient`, whatever the system answers.
