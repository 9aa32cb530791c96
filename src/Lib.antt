-- ===== src/Lib.antt =====
-- The capture path of the redis-event-stream-module: a Redis module that mirrors keyspace events into
-- streams. A notification passes the gates of `on_keyspace_event`; an event that is admitted is handed to
-- a post-notification job or, in the asynchronous modes, to a bounded queue with a worker; the job or the
-- worker writes the entry, counts it, registers its stream, and in per-node cluster mode pins the streams
-- to a slot that the node owns. Lifecycle boundaries become markers on a control stream. The client
-- library reads the streams back: it finds the masters, merges the streams by entry id, decodes the
-- entries and infers restarts from the markers.
--
-- The server is a parameter: `Redis` (Redis.antt) holds the calls of the module API that the code makes,
-- over a type `W` of all that the server keeps, with no hypothesis on them but `SelectsDbs`
-- (Commands/Restore.antt), what the server documents of selecting a database, and in Markers/Handover that
-- it accepts a job. The statics of the module are one record, `State` (State.antt), and each body of the
-- source is an action on it (State/Actions.antt), composed with `do` as the source composes its calls. Log
-- messages are constructors (Stats/Log.antt); messages of level debug are left out.
--
-- Which file models which part:
--   Config/* : src/config.rs, the parsers of the settings (`parse_filter`, `parse_key_filter`,
--     `parse_source_dbs`, `parse_maxlen_overrides`), `glob_match` and the validators; Config/Store has the
--     setters, one for each `ConfigurationValue::set`.
--   Encode/* : src/capture.rs, `sanitize`, `Retention`, the JSON and base64 encoders, the entry fields and the
--     document of a batch. Encode/Document/Reader is a reader of that document, written for the round trip.
--   Stats/* : src/stats.rs, the counters and latches, the record of a stream, drops, and the snapshot.
--   Cluster/* : src/cluster.rs, `crc16`, tag selection, the ownership probe and `repin_and_retry`.
--   Capture/* : src/capture.rs, the gates, `mirror_fields`, the processing of an event and of a batch, the
--     firehose copy, and the flush, swap and configuration events.
--   Markers/* : src/markers.rs, pending markers, control entries and checkpoints.
--   Dispatch/* : src/dispatch.rs, the queue, the ordered fallback and the worker. Dispatch/Order states the
--     interleavings of the threads as a step relation, one entry at a time; Dispatch/Stale is about the
--     snapshots of the batches.
--   Commands : src/commands.rs, `EVENTSTREAM.PRUNE`; Commands/Streams has `EVENTSTREAM.STREAMS` and
--     `EVENTSTREAM.STATS`.
--   Client/* : crates/eventstream-client/src/lib.rs, the decoder (Entry, Decode), the merged reader (Reader),
--     gap markers and restarts (Gaps), stream names (Names) and discovery (Topology). RoundTrip, Batch and
--     Gaps/Checkpoints put the module's writers under it. What the source takes from other crates is in the
--     records `Crates`, `Server` and `Net`, with what they document as named hypotheses: `ReadsJson`,
--     `ReadsBase64`, `ReadsUtf8` and `Serves` (Reader/Ids, with the ids and logs of Redis).
--   Webhook : examples/webhook-sink/src/lib.rs, `deliver_with_retry`; Webhook/Backoff has its delays.
--   Accounting/* : lemmas on `FORWARDED` and `EVENTS_LOST`, one file for each layer of the calls.
--   Counting/* : lemmas on `CURRENT_STREAMS`, in the same layers. Counting/Reach states what may touch it as
--     a list of operations.
--   Base/* : text, integers and lists. A `String` is the list of its chars, `as_bytes` encodes it as UTF-8,
--     and an `i64` or `u64` is an integer with its wrap-around written out.
--   Examples/* : the theorems at concrete inputs.
--
-- Fuel: `glob_match` runs on the length of the pattern, since each round shortens it; `prepare_groups` on
-- the number of events, since each group takes one at least; `fallback_tag_for_slot` looks through the
-- indices up to 156393, the last one that the table of the source hashes. The loop over the cursor of
-- `SCAN` ends when the server says so, and that of `deliver_with_retry` when an attempt is accepted or the
-- limit is reached; they have fuel, and no result where the fuel ends first.
--
-- Not modelled: notifications that the server raises inside a call of the module itself, such as the
-- `keymiss` of an `EXISTS` on a missing key, which run the callback within the call; panics and their
-- guards, the FFI trampolines, thread start and stop, waiting on the condition variable, load and unload
-- of the module, the command line of the client and the texts that it prints, and what the webhook example
-- does over the network. A `u64` event id is a number without bound in Dispatch/Order: the source would
-- need 2^64 events to wrap.
pub mod Base
pub mod Config
pub mod Encode
pub mod Redis
pub mod Stats
pub mod State
pub mod Cluster
pub mod Capture
pub mod Markers
pub mod Accounting
pub mod Counting
pub mod Dispatch
pub mod Client
pub mod Commands
pub mod Examples
pub mod Webhook
