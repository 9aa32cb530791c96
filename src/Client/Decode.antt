-- ===== src/Client/Decode.antt =====
-- crates/eventstream-client/src/lib.rs: `decode_entry` and the fixed-format view `Entry`.
use redis_event_stream_modul.Base.{
  Str, Bytes, text, as_bytes, parse_unsigned, length, ℕ, suc, ◌-◌, ◌^◌, ◌==◌, ◌=s=◌, ℤ, not, List,
  [], ◌∷◌, Option, none, some, if◌then◌else◌,
}
use redis_event_stream_modul.Base.Result.{Result, ok, err, ◌>>=◌}
use redis_event_stream_modul.Client.Entry.{
  Value, bulk_string, simple_string, LogicalEvent, DecodeErrorKind, unsupported_format,
  invalid_json, invalid_integer, count_mismatch, invalid_base64, DecodeError, PhysicalEntry,
  position, error, field_bytes, field_utf8, optional_field_utf8, parse_integer, or_error,
}

pub record BatchEvent : Type 0 where
  pub event : Str
  pub key : Str
  pub db : ℤ
  pub class : Str

-- What the source takes from other crates: `serde_json::from_slice` into the events of a batch, the
-- padded decoder of `base64`, each with the text of its error, and `{:?}` and `from_utf8_lossy`.
pub record Crates : Type 0 where
  pub from_slice : Bytes → Result Str (List BatchEvent)
  pub decode_base64 : Str → Result Str Bytes
  pub debug : Value → Str
  pub from_utf8_lossy : Bytes → Str

-- `map_err` of a parser with an error of its own.
abbrev map_err :
    {A : Type 0} → PhysicalEntry → (Str → DecodeErrorKind) → Result Str A → Result DecodeError A
map_err entry kind (ok a) = ok a
map_err entry kind (err message) = err (error entry (kind message))

unfoldable pub decode_fixed_entry : PhysicalEntry → Result DecodeError (List LogicalEvent)
decode_fixed_entry entry = do
  event ← field_utf8 entry (text "event")
  key ← field_bytes entry (text "key")
  db ← parse_integer entry (text "db")
  class ← optional_field_utf8 entry (text "class")
  ok (
      record {
        source = record { physical = position entry; envelope_index = none };
        event = event;
        key = key;
        db = db;
        class = class;
      }
      ∷ [])

module _ (C : Crates) where
  unfoldable pub batch_event : PhysicalEntry → ℕ → BatchEvent → Result DecodeError LogicalEvent
  batch_event entry envelope_index event = do
    key ← map_err entry (invalid_base64 envelope_index) (C.decode_base64 event.key)
    ok (record {
      source = record { physical = position entry; envelope_index = some envelope_index };
      event = event.event;
      key = key;
      db = event.db;
      class = some event.class;
    })

  -- `enumerate().map(..).collect()`: the first error ends it.
  unfoldable pub batch_events :
      PhysicalEntry → ℕ → List BatchEvent → Result DecodeError (List LogicalEvent)
  batch_events entry index [] = ok []
  batch_events entry index (event ∷ events) = do
    first ← batch_event entry index event
    rest ← batch_events entry (suc index) events
    ok (first ∷ rest)

  unfoldable pub decode_batch_v1_entry : PhysicalEntry → Result DecodeError (List LogicalEvent)
  decode_batch_v1_entry entry = do
    count_text ← field_utf8 entry (text "count")
    declared ←
        or_error entry (invalid_integer (text "count") count_text)
          (parse_unsigned (2 ^ 64 - 1) count_text)
    bytes ← field_bytes entry (text "events")
    events ← map_err entry invalid_json (C.from_slice bytes)
    if not (declared == length events)
        then err (error entry (count_mismatch declared (length events)))
        else batch_events entry 0 events

  unfoldable pub decode_as : Option Str → PhysicalEntry → Result DecodeError (List LogicalEvent)
  decode_as none entry = decode_fixed_entry entry
  decode_as (some format) entry =
      if format =s= text "batch-v1"
      then decode_batch_v1_entry entry
      else err (error entry (unsupported_format format))

  unfoldable pub decode_entry : PhysicalEntry → Result DecodeError (List LogicalEvent)
  decode_entry entry = do format ← optional_field_utf8 entry (text "format"); decode_as format entry

-- The compatible view of the fixed format, which takes every entry.
pub record Entry : Type 0 where
  pub stream : Str
  pub id : Str
  pub event : Str
  pub key : Bytes
  pub db : Str

abbrev pub or_default : Option Str → Str
or_default none = []
or_default (some s) = s

module _ (C : Crates) where
  unfoldable pub lossy_field : (Str → Option Value) → Str → Option Str
  lossy_field fields name = elim (fields name) [
    | none ↦ none
    | some (bulk_string bytes) ↦ some (C.from_utf8_lossy bytes)
    | some value ↦ some (C.debug value)
  ]

  unfoldable pub from : Str → Str → (Str → Option Value) → Entry
  from stream id fields = record {
    stream = stream;
    id = id;
    event = or_default (lossy_field fields (text "event"));
    key = elim (fields (text "key")) [
      | some (bulk_string bytes) ↦ bytes
      | some (simple_string value) ↦ as_bytes value
      | _ ↦ []
    ];
    db = or_default (lossy_field fields (text "db"));
  }
