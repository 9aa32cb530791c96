-- ===== src/Examples/Client.antt =====
-- crates/eventstream-client/src/lib.rs: the theorems of the client at concrete inputs.
use redis_event_stream_modul.Base.{
  inr, ap, ◌*◌, ◌≤◌, show_int, lead, decode_utf8, any, count, utf8_char, is_empty, map, show_digits,
  take, ◌=s=◌, Str, Bytes, text, as_bytes, from_utf8, from_utf8-as_bytes, length, show_nat, ℕ, pos,
  List, [], ◌∷◌, ◌++◌, Option, none, some, ◌≡◌, refl, arith, filter,
}
use redis_event_stream_modul.Base.Result.{Result, ok, err}
use redis_event_stream_modul.Config.Filter.{string}
use redis_event_stream_modul.Encode.Base64.{decode64}
use redis_event_stream_modul.Encode.Event.{EntrySpec, fixed}
use redis_event_stream_modul.Encode.Fields.{encode_entry_fields}
use redis_event_stream_modul.Encode.Document.{encode_batch_fields}
use redis_event_stream_modul.Encode.Document.Reader.{read_batch, Item}
use redis_event_stream_modul.Client.Entry.{PhysicalEntry}
use redis_event_stream_modul.Client.Decode.{Crates, BatchEvent, decode_entry}
use redis_event_stream_modul.Client.RoundTrip.{
  received, fixed_event, decode_entry-encode_entry_fields,
}
use redis_event_stream_modul.Client.Batch.{
  batch_event_of, logical_events, decode_entry-encode_batch_fields,
}
use redis_event_stream_modul.Client.Batch.Chars.{Scalars}
use redis_event_stream_modul.Base.Result.{any_of}
use redis_event_stream_modul.Cluster.Tags.{braced, usable, candidate_tag}
use redis_event_stream_modul.Encode.Sanitize.{sanitize}
use redis_event_stream_modul.Encode.Fields.{plain_fields, seq_field}
use redis_event_stream_modul.State.{State}
use redis_event_stream_modul.Markers.Control.{control_fields}
use redis_event_stream_modul.Markers.Checkpoint.{checkpoint_fields}
use redis_event_stream_modul.Client.Names.{stream_tag, event_name, stream_tag-event_name}
use redis_event_stream_modul.Client.Gaps.{GapMarker, gap_marker, assess_restart_boundaries}
use redis_event_stream_modul.Client.Gaps.Checkpoints.{
  checkpoint_marker, gap_marker-checkpoint_fields,
}
use redis_event_stream_modul.Client.Gaps.Restarts.{
  boundary_on, marker_on, is_unloading, restart, assess_restart_boundaries-filter,
}
use redis_event_stream_modul.Client.Gaps.Histories.{assess_restart_boundaries-restart}
use redis_event_stream_modul.Client.Entry.{other}
use redis_event_stream_modul.Client.Reader.{Server, MergedReader, get_cursor}
use redis_event_stream_modul.Client.Reader.Ids.{
  Log, IsLog, Serves, precedes, behind, written, reply_of,
}
use redis_event_stream_modul.Client.Reader.Merge.{
  after, after-written, AreCursors, entry_on, entry_of,
}
use redis_event_stream_modul.Client.Reader.Delivery.{delivered, delivered_all}
use redis_event_stream_modul.Examples.World.{event_on, server, settings, fresh}

abbrev parsed_items : Option (List (Item Str)) → Result Str (List BatchEvent)
parsed_items none = err (text "expected value")
parsed_items (some items) = ok (map batch_event_of items)

abbrev parsed_text : Option Str → Result Str (List BatchEvent)
parsed_text none = err (text "invalid unicode code point")
parsed_text (some s) = parsed_items (read_batch some (length s) s)

abbrev decoded : Option Bytes → Result Str Bytes
decoded none = err (text "invalid symbol")
decoded (some bytes) = ok bytes

abbrev lossy : Bytes → Option Str → Str
lossy bytes none = bytes
lossy bytes (some s) = s

abbrev crates : Crates
crates = record {
  from_slice = λ bytes. parsed_text (from_utf8 bytes);
  decode_base64 = λ s. decoded (decode64 s);
  debug = λ v. [];
  from_utf8_lossy = λ bytes. lossy bytes (from_utf8 bytes);
}

crates-ReadsJson :
    (s : Str) (items : List (Item Str))
    → Scalars s
    → read_batch some (length s) s ≡ some items
    → crates.from_slice (as_bytes s) ≡ ok (map batch_event_of items)
crates-ReadsJson s items h k = rw (from_utf8-as_bytes s h) (rw k refl)

crates-ReadsBase64 :
    (s : Str) (bytes : Bytes) → decode64 s ≡ some bytes → crates.decode_base64 s ≡ ok bytes
crates-ReadsBase64 s bytes h = rw h refl

crates-ReadsUtf8 : (s : Str) → Scalars s → crates.from_utf8_lossy (as_bytes s) ≡ s
crates-ReadsUtf8 s h = rw (from_utf8-as_bytes s h) refl

abbrev spec : EntrySpec
spec = record {
  format = fixed;
  event = text "set";
  key = 255 ∷ 0 ∷ [];
  db = show_nat 3;
  class = string ∷ [];
  seq = some 7;
}

abbrev fixed_fields : List Bytes
fixed_fields =
    text "event"
    ∷ text "set"
    ∷ text "key"
    ∷ (255 ∷ 0 ∷ [])
    ∷ text "db"
    ∷ text "3"
    ∷ text "seq"
    ∷ text "7"
    ∷ []

abbrev holding : List Bytes → PhysicalEntry
holding fields = record { stream = text "es:set"; id = text "5-0"; fields = received fields }

decode_entry-encode_entry_fields_example :
    decode_entry crates (holding fixed_fields)
    ≡ ok (fixed_event (holding fixed_fields) (text "set") (255 ∷ 0 ∷ []) (pos 3) ∷ [])
unfolding encode_entry_fields plain_fields seq_field show_nat show_digits as_bytes utf8_char
    from_utf8 decode_utf8 lead show_int
decode_entry-encode_entry_fields_example =
    decode_entry-encode_entry_fields crates (holding fixed_fields) spec fixed_fields (text "set")
      (pos 3) refl (λ name. refl) refl refl (omega arith)

decode_entry-encode_batch_fields_example :
    decode_entry crates
      (holding (encode_batch_fields (event_on (text "k1") ∷ event_on (text "k2") ∷ [])))
    ≡ ok (
        logical_events
          (holding (encode_batch_fields (event_on (text "k1") ∷ event_on (text "k2") ∷ [])))
          0
          (event_on (text "k1") ∷ event_on (text "k2") ∷ []))
decode_entry-encode_batch_fields_example =
    decode_entry-encode_batch_fields crates
      (holding (encode_batch_fields (event_on (text "k1") ∷ event_on (text "k2") ∷ [])))
      (event_on (text "k1") ∷ event_on (text "k2") ∷ []) crates-ReadsJson crates-ReadsBase64
      (λ name. refl)
      (
        ((omega arith, (omega arith, tt)), omega arith),
        (((omega arith, (omega arith, tt)), omega arith), tt),
      )
      (ground arith) (omega arith)

stream_tag-event_name_example :
    (stream_tag (text "es:") (text "es:" ++ (braced (text "06S") ++ sanitize (text "set")))
      ≡ some (text "06S"))
    × (event_name (text "es:") (text "es:" ++ (braced (text "06S") ++ sanitize (text "set")))
        ≡ some (sanitize (text "set")))
    × (stream_tag (text "es:") (text "es:" ++ sanitize (text "set")) ≡ none)
    × (event_name (text "es:") (text "es:" ++ sanitize (text "set")) ≡ some (sanitize (text "set")))
unfolding candidate_tag usable is_empty any
stream_tag-event_name_example =
    stream_tag-event_name (record server { canonical_name = some (λ slot. some (text "06S")) }) 0
      (text "06S") (text "es:") (text "set") refl

-- A state with a checkpoint interval and some work done.
abbrev checked_state : State ℕ
checked_state = record fresh {
  settings = record settings { control_checkpoint_ms = pos 1000 };
  counters = λ c. 7;
}

abbrev checkpoint_entry : PhysicalEntry
checkpoint_entry =
    holding
      (control_fields server (text "checkpoint") (checkpoint_fields checked_state) checked_state)

gap_marker-checkpoint_fields_example :
    gap_marker crates checkpoint_entry
    ≡ checkpoint_marker server checked_state 1000 checkpoint_entry
gap_marker-checkpoint_fields_example =
    gap_marker-checkpoint_fields crates server checked_state 1000 checkpoint_entry crates-ReadsUtf8
      (λ name. refl) (ground arith) (ground arith) refl (omega arith) (omega arith)
      (λ c. omega arith)

-- A marker of the generation on the stream.
abbrev marker_at : Str → Str → Str → GapMarker
marker_at stream generation act = record {
  stream = stream;
  id = text "1-0";
  action = act;
  db = none;
  module_version = none;
  generation = some generation;
  reason = none;
  checkpoint_ms = none;
  resolved_events = none;
  forwarded = none;
  events_lost = none;
  dropped = none;
  async_enqueued = none;
  async_queue_depth = none;
  async_drain_events = none;
  async_worker_errors = none;
  handler_panics = none;
  last_error_time = none;
}

abbrev markers : List GapMarker
markers =
    marker_at (text "a") (text "g1") (text "loaded")
    ∷ marker_at (text "b") (text "h") (text "loaded")
    ∷ marker_at (text "a") (text "g1") (text "unloading")
    ∷ marker_at (text "a") (text "g2") (text "loaded")
    ∷ []

assess_restart_boundaries-filter_example :
    filter (boundary_on (text "a")) (assess_restart_boundaries markers)
    ≡ assess_restart_boundaries (filter (marker_on (text "a")) markers)
assess_restart_boundaries-filter_example = assess_restart_boundaries-filter (text "a") markers

-- A graceful restart, and then a crash.
abbrev two_restarts : List GapMarker
two_restarts =
    marker_at (text "a") (text "g1") (text "loaded")
    ∷ marker_at (text "a") (text "g1") (text "unloading")
    ∷ marker_at (text "b") (text "h") (text "loaded")
    ∷ marker_at (text "a") (text "g2") (text "loaded")
    ∷ marker_at (text "a") (text "g3") (text "loaded")
    ∷ []

assess_restart_boundaries-restart_example :
    filter (boundary_on (text "a")) (assess_restart_boundaries two_restarts)
    ≡ assess_restart_boundaries (
        marker_at (text "a") (text "g1") (text "loaded")
        ∷ marker_at (text "a") (text "g1") (text "unloading")
        ∷ marker_at (text "a") (text "g2") (text "loaded")
        ∷ [])
      ++ restart
          (text "g2")
          (text "g3")
          (marker_at (text "a") (text "g3") (text "loaded"))
          (any_of is_unloading (marker_at (text "a") (text "g2") (text "loaded") ∷ []))
        ∷ assess_restart_boundaries (marker_at (text "a") (text "g3") (text "loaded") ∷ [])
unfolding filter ◌=s=◌
assess_restart_boundaries-restart_example =
    assess_restart_boundaries-restart (text "a") (text "g2") (text "g3")
      (marker_at (text "a") (text "g1") (text "loaded")
        ∷ marker_at (text "a") (text "g1") (text "unloading")
        ∷ [])
      (marker_at (text "a") (text "g2") (text "loaded")) []
      (marker_at (text "a") (text "g3") (text "loaded")) [] two_restarts refl (refl, (refl, tt))
      ((refl, refl), tt) (refl, refl) refl refl

-- A server with two entries in each stream.
abbrev log : Str → Log
log s = ((1, 0), λ name. none) ∷ ((1, 1), λ name. none) ∷ []

abbrev log_server : Server ℕ
log_server = record {
  xread = λ limit s cursor w. (some (reply_of (take limit (after cursor (written (log s))))), w);
  xrevrange = λ s w. (other, w);
  string_of = λ v. none;
}

log-IsLog : (s : Str) → IsLog (log s)
unfolding precedes
log-IsLog s = ((omega arith, omega arith), (refl, tt), ((omega arith, omega arith), tt, tt))

log_server-Serves : (limit : ℕ) → Serves log_server log limit
log_server-Serves limit s cursor id w named positive =
    ap (λ l. (some (reply_of (take limit l)), w))
      (after-written cursor id (log s) named (log-IsLog s))

abbrev reader : MergedReader
reader = record { streams = text "a" ∷ text "b" ∷ []; cursors = [] }

reader_named : AreCursors reader.cursors
unfolding get_cursor
reader_named t = ((0, 0), (inr (refl, refl), (omega arith, omega arith)))

reader_once : count (λ t. t =s= text "b") (text "a" ∷ text "b" ∷ []) ≡ 1
unfolding ◌=s=◌
reader_once = refl

reader_short : length (behind (reader_named (text "b")).0 (log (text "b"))) ≤ 2 * 1
unfolding behind precedes reader_named
reader_short = omega arith

delivered_all_example :
    filter (entry_on (text "b")) (delivered log_server 2 reader 1 0)
    ≡ map (entry_of (text "b")) (written (behind (reader_named (text "b")).0 (log (text "b"))))
delivered_all_example =
    delivered_all log_server log log-IsLog 1 (omega arith) (log_server-Serves 1) (text "b") 2 reader
      0 reader_named reader_once reader_short

abbrev nodes : Str
nodes =
    text
      "a1 127.0.0.1:7000@17000 myself,master - 0 0 1 connected\nb2 127.0.0.1:7001@17001 slave a1 0 0 1 connected\nc3 127.0.0.1:7002@17002 master,fail - 0 0 1 connected\n"
