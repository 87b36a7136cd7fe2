-- ===== src/Lib.antt =====
-- A model of redisclient, the C++ client library for Redis (src/redisclient), and the theorems on
-- it. Paths are from the repository's root; the amalgamated copy in amalgamated/ is generated from
-- the same sources.
--
-- The program's parts. A server's bytes come in chunks. `RedisParser` is a state machine over them
-- that keeps what it has read of a reply between two chunks, and gives a `RedisValue` when the reply
-- is whole. `RedisClientImpl` has the connection: asynchronously it queues commands, writes them one
-- write after the other, and hands each reply to the handler at the front of a queue, or, while
-- subscribed, a message to the channel's handlers; synchronously it writes a command, and reads and
-- parses until a reply is whole. `RedisAsyncClient` and `RedisSyncClient` are the user's sides of
-- these two uses, and `Pipeline` collects commands for the second.
--
-- Which file models which part:
--   Value        redisvalue.h, impl/redisvalue.cpp: the variant with its error flag, its
--                constructors, tests and accessors; `==` in Value.Equality, `inspect` in
--                Value.Inspect.
--   Parser       redisparser.h, impl/redisparser.cpp: `turn` is one round of the loop of
--                `parseChunk`, of which `switch` is the `switch` on the state, `store_value` what is
--                done with a complete value, and `close_arrays` the loop over the arrays that it
--                completes; `read_loop`, `parse_chunk`, `parse` and `finish` in Parser.Loop are the
--                loop and the calls; `buf_to_long` in Parser.Number is `bufToLong`.
--   Buffer       redisbuffer.h, and `bufferAppend` and `makeCommand` of impl/redisclientimpl.cpp.
--   Client       impl/redisclientimpl.h, impl/redisclientimpl.cpp: the record `Client` has the
--                members of `RedisClientImpl`. `doAsyncCommand` and `asyncWrite` are in Client.Queue,
--                `doProcessMessage`, `asyncRead` and `handleAsyncConnect` in Client.Messages (what a
--                stream of reads comes to, read by read, is specified in Client.Messages.Chunks),
--                `subscribe`, `singleShotSubscribe` and `unsubscribe` in Client.Subscriptions (with
--                an abstract map from channels to subscribers in Client.Subscriptions.Registry),
--                `syncReadResponse` and `doSyncCommand` in Client.Sync.
--   Socket       `socketReadSome` and `socketWrite` of impl/redisclientimpl.cpp.
--   AsyncClient  redisasyncclient.h, impl/redisasyncclient.cpp. The user's functions as scripts of
--                calls of these methods are in AsyncClient.Scripts, and the runs of a client with
--                them, from its construction on, in AsyncClient.Trace.
--   SyncClient   redissyncclient.h, impl/redissyncclient.cpp, pipeline.h, impl/pipeline.cpp and
--                impl/throwerror.h; `connect` is in SyncClient.Connecting.
--   Examples     examples/: sync_set_get.cpp, sync_pipeline.cpp and sync_timeout.cpp in
--                Examples.SyncMain, async_set_get.cpp and async_set_get2.cpp in
--                Examples.AsyncSetGet, async_timeout.cpp in Examples.AsyncTimeout,
--                the class of sync_benchmark.cpp in Examples.SyncBenchmark, with the clock as a
--                parameter.
--   Resp         no code: the replies of the Redis protocol, how a server prints them and the value
--                that each stands for, as a specification of the parser; and in Resp.Reference a
--                reader of the protocol by recursive descent, without states and stacks, for inputs
--                that no server prints.
--   Decimal      std::to_string of integers; Base has what the modules share.
--
-- How the state corresponds. A class is a record with the same members; a method takes the record
-- and returns it. A `std::stack` is a list with its top in front, a `std::queue`, `std::deque` and
-- `std::vector` a list with its front in front, a `std::multimap` the list of its entries in the
-- order of insertion, in which `equal_range` finds those of a key in that order and `find` the
-- first (as libstdc++ does). A byte is a number below 256; `char` is signed, as on x86. `int64_t`
-- and `long` are integers with the results wrapped to 64 bits, `size_t` a number, and the counter
-- `subscribeSeq` wraps at 2^64. Assertions are not run (NDEBUG).
--
-- How calls end. A call that may throw, or meet undefined behaviour (the front or the top of an
-- empty queue or stack, a wrong alternative of a variant), returns a `Run`, a `SyncRun`, a `Switch`
-- or an `Option` that says so, and the theorems say when it does not. What the user's functions do,
-- to the client as well, is the record `Env`, a parameter: theorems that need it name what they ask
-- of these functions (`IsPolite`, `IsSafe`, `SameQueues`, `IsIdleEnv`, `KeepsSound`), and `env_of`
-- makes an `Env` of a program of scripts, with a bound on how deep its functions run each other that
-- the theorems leave open. What the system answers to the calls
-- on a socket is a list of rounds, a parameter too; a list that ends is a call that blocks. The
-- calls of the asynchronous socket and the tasks posted to the strand are recorded in the client
-- (`io`, `posted`); a completion is a call of `async_write` or `async_read` by its environment.
--
-- Loops and fuel. The loop of `parseChunk` reads a byte a round: the chunk's size is its fuel, and
-- `parse` is shown to return on every chunk. The loop of `asyncRead` has the number of bytes, and is
-- shown to end. The loop over the buffer in `syncReadResponse` has one more than the bytes in the
-- buffer, and the loop around it two more than the system's answers, of which every round but the
-- first takes one; a whole reply is shown to be returned. `digits` in Decimal has one more than the
-- number. The reader in Resp.Reference has twice the number of bytes and one, which is shown not to be
-- exhausted. The loops of `socketReadSome`, `socketWrite` and of `poll` in `connect` are recursions on
-- the system's answers, arrays and lists recursions on themselves.
--
-- Not modelled: lifetime and sharing (`shared_from_this`, and `this` in the tasks of `subscribe`),
-- the destructors and the move constructor of `RedisSyncClient`, the address and the options that
-- a socket is given, `sendNextCommand`, which is declared and never defined, `DEBUG` builds,
-- capacities (`reserve`), the other examples and benchmarks, which need several clients in one
-- program, the command line of sync_benchmark.cpp, and the tests, of which the parser's are the runs
-- in Parser.Tests. The printing of the asynchronous examples is left out, and so are the pauses of
-- sync_timeout.cpp and async_timeout.cpp; the timer of the latter is a parameter, whose ends come
-- among the events. The endless loops of the examples are run for a number of rounds.
mod Base
pub mod Decimal
pub mod Value
pub mod Parser
pub mod Resp
pub mod Buffer
pub mod Client
pub mod AsyncClient
pub mod Socket
pub mod SyncClient
pub mod Examples
