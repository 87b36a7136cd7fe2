-- ===== src/Client/Queue/Order/Fifo.antt =====
-- The queues are first in, first out: the invariant of a run.
use redisclient.Client.{Client}
