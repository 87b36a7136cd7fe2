-- ===== src/Examples.antt =====
-- examples/: programs that use the library, as models and with what they do.
pub mod AsyncSetGet
pub mod AsyncTimeout
pub mod SyncMain
pub mod SyncBenchmark
