-- ===== src/Encode/Fields.antt =====
-- src/capture.rs: `encode_entry_fields`.
use redis_event_stream_modul.Base.{
  Str, Bytes, text, show_nat, as_bytes, from_utf8, ℕ, List, [], ◌∷◌, ◌++◌, Option, none, some,
}
use redis_event_stream_modul.Base.Result.{Result, ok, err}
use redis_event_stream_modul.Encode.Classes.{class_names}
use redis_event_stream_modul.Encode.Document.{json_document}
use redis_event_stream_modul.Encode.Event.{EntryFormat, fixed, minimal, verbose, json, EntrySpec}

abbrev pub not_utf8_reason : Str
not_utf8_reason = text "event name is not valid UTF-8"

-- The last field of the formats other than `json`.
unfoldable pub seq_field : Option ℕ → List Bytes
seq_field none = []
seq_field (some seq) = text "seq" ∷ show_nat seq ∷ []

unfoldable pub plain_fields : EntryFormat → EntrySpec → List Bytes
plain_fields fixed spec =
    text "event" ∷ spec.event ∷ text "key" ∷ spec.key ∷ text "db" ∷ as_bytes spec.db ∷ []
plain_fields minimal spec =
    text "format" ∷ text "minimal" ∷ text "key" ∷ spec.key ∷ text "db" ∷ as_bytes spec.db ∷ []
plain_fields verbose spec =
    text "format"
    ∷ text "verbose"
    ∷ text "event"
    ∷ spec.event
    ∷ text "key"
    ∷ spec.key
    ∷ text "db"
    ∷ as_bytes spec.db
    ∷ text "class"
    ∷ class_names spec.class
    ∷ []
plain_fields json spec = []

abbrev pub json_fields : Option Str → EntrySpec → Result Str (List Bytes)
json_fields none spec = err not_utf8_reason
json_fields (some event) spec = ok (
    text "format"
    ∷ text "json"
    ∷ text "data"
    ∷ as_bytes (json_document event spec.key spec.db spec.seq)
    ∷ [])

abbrev pub fields_of : EntryFormat → EntrySpec → Result Str (List Bytes)
fields_of json spec = json_fields (from_utf8 spec.event) spec
fields_of format spec = ok (plain_fields format spec ++ seq_field spec.seq)

unfoldable pub encode_entry_fields : EntrySpec → Result Str (List Bytes)
encode_entry_fields spec = fields_of spec.format spec
