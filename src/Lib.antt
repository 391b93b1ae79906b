-- ===== src/Lib.antt =====
-- Arctic RSS: models and proofs of the logic behind the reader, its workers and its mobile client.
--
-- The program is a Next.js application with background workers, a chat gateway and a mobile client
-- over PostgreSQL and Redis. This library models the parts of it that decide something: who may hold
-- a job and for how long, what is counted, what may be reached, what is kept.
--
-- Lease (src/lib/source-refresh-leases.ts, src/lib/smart-digest-run-leases.ts,
-- src/lib/opml-import-leases.ts): the leases by which workers share jobs. Lease/Source, Lease/Digest
-- and Lease/Opml each have the rows, the `where` and `data` objects as tests and changes of a row, and
-- the exported functions; Lease/Heartbeat has the timer loop that the three share, over the renewal.
-- RowStore is the database client that the first two take as an argument, with the documented
-- behaviour of `updateMany` on a primary key; RowStore/Memory is a table that meets it. The raw SQL
-- statements of the OPML import are functions on one job and its entries, each an atomic step, and
-- `SKIP LOCKED` is an argument that says which entries are locked.
--
-- Mobile (packages/mobile-client/src/offline.ts): a change queued while the phone is offline.
-- Mobile/Mutation has the change and the assertions on it (with assertQueuedMutation of
-- packages/mobile-client/src/api.ts), Mobile/Replay the functions that start, complete, fail and
-- retry it. A function that throws returns an error. The length of a JSON text is an argument.
-- Mobile/Queue is the table of the changes (apps/mobile/src/storage/mobile-offline-store.ts and
-- apps/mobile/src/storage/pending-mobile-mutations.ts), each function one exclusive transaction, which
-- an exception rolls back. Mobile/Flush is the loop that sends them
-- (apps/mobile/src/sync/flush-pending-mutations.ts); its fuel is one more than the rows of the table, as
-- every round that goes on settles a change. Mobile/Cache chooses the entries of the cache to evict
-- (selectMobileCacheEvictions); its fuel is a round for every entry that is not expired.
--
-- Chat (src/lib/chat/permissions.ts, services/chat-gateway/abuse.ts,
-- services/chat-gateway/native-chat.ts): Chat/Permissions is the table of who may do what,
-- Chat/Abuse the counters of one socket, and Chat/Socket its operations. An operation is cut at
-- each `await`; its remainder waits in a list, and an event says which one goes on, with which
-- answer, so that a list of events is an interleaving.
--
-- Chat/Recovery (services/chat-gateway/redis-recovery.ts) is the supervisor of the gateway's Redis
-- clients; what the event loop holds of it is part of its state, and events come with their times.
--
-- Address (src/lib/url-safety.ts): the private addresses, version 4 by texts and octets, version 6 by
-- groups; Address/Blocks and Address/Groups describe them as blocks.
--
-- Backup (src/lib/backup-pruning.ts): the report on which backups may be pruned, with its patterns,
-- its sort and its search. Whether `Date.parse` accepts a timestamp is an argument.
--
-- Irc (services/external-irc): Irc/Protocol is the parser and the encoder of lines (protocol.ts), and
-- Irc/Session the session over a transport (session.ts), whose methods return what they write and tell
-- in order. The handler of events neither throws nor calls the session again; the case conversion of
-- texts is an argument. The loops over parameters and lines run on the length of the text, of which
-- every round takes a character.
--
-- Limiter (src/lib/url-safety.ts): the limiter of requests by host. The state objects that the map and
-- the closures share are in a store, and requests are numbered. Limiter/Semaphore is what it promises, a
-- fair semaphore for each host and the hosts that are remembered; Limiter/Store (the map and the
-- objects) and Limiter/Table (the requests) relate the two.
--
-- Rate (src/lib/rate-limit.ts): the rate limiter. Rate/Rules is the table of rules. Redis is a record of
-- commands, with their documented behaviour as a record of laws; Rate/Store has a table that meets them.
-- Each evaluation of the script may fail, before it has run or after.
--
-- Batch (src/lib/refresh-write-batch.ts): the writing of refreshed items. The rows that are there, what
-- the statements count and which of them throw are arguments; Batch/Chunks is about the batches, and
-- Batch/Order about the order of the items without duplicates.
--
-- A time is a natural number of milliseconds, and a database column without a bound on its counter is
-- a natural number. An exception is `none` or a constructor of a result type. What other clients do
-- between two statements of one function is an argument.
--
-- Not modelled: rendering, routes, mail, the queue and cache servers, and the database itself, which
-- are input and output around the logic modelled here; the parsers of feeds, podcasts and OPML, which
-- call libraries; the text parser of version 6 addresses; the cursor of the mobile store; and the
-- chat rooms, story clusters and digests, which are statements of the database.
mod Prelude
pub mod RowStore
pub mod Lease
pub mod Mobile
pub mod Chat
pub mod Backup
pub mod Address
pub mod Irc
pub mod Limiter
pub mod Rate
pub mod Batch
