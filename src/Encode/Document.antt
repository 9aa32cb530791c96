-- ===== src/Encode/Document.antt =====
-- src/capture.rs: `json_document` and `encode_batch_fields`.
pub mod Reader
pub mod RoundTrip
use redis_event_stream_modul.Base.{
  Str, Bytes, text, show_nat, show_int, as_bytes, length, ℕ, List, [], ◌∷◌, ◌++◌, Option, none,
  some,
}
use redis_event_stream_modul.Encode.Json.{json_escape_into, quote}
use redis_event_stream_modul.Encode.Base64.{base64_into}
use redis_event_stream_modul.Encode.Classes.{class_names}
use redis_event_stream_modul.Encode.Event.{PendingEvent}

-- The optional sequence number in the document.
unfoldable pub seq_member : Option ℕ → Str
seq_member none = []
seq_member (some seq) = text ",\"seq\":" ++ show_nat seq

unfoldable pub json_document : Str → Bytes → Str → Option ℕ → Str
json_document event key db seq =
    base64_into key (json_escape_into event (text "{\"event\":") ++ text ",\"key\":\"")
    ++ (text "\",\"db\":" ++ (db ++ (seq_member seq ++ b'}' ∷ [])))

-- The object of one event of a batch, appended to `out`.
unfoldable pub push_event : PendingEvent → Str → Str
push_event e out =
    json_escape_into (class_names e.class) (
      base64_into e.key (json_escape_into e.event (out ++ text "{\"event\":") ++ text ",\"key\":\"")
      ++ (text "\",\"db\":" ++ (show_int e.db ++ text ",\"class\":")))
    ++ b'}' ∷ []

-- The loop over the events behind the first, each after a comma.
unfoldable pub push_events : List PendingEvent → Str → Str
push_events [] out = out
push_events (e ∷ es) out = push_events es (push_event e (out ++ b',' ∷ []))

unfoldable pub batch_data : List PendingEvent → Str
batch_data [] = text "[" ++ text "]"
batch_data (e ∷ es) = push_events es (push_event e (text "[")) ++ text "]"

unfoldable pub encode_batch_fields : List PendingEvent → List Bytes
encode_batch_fields events =
    text "format"
    ∷ text "batch-v1"
    ∷ text "count"
    ∷ show_nat (length events)
    ∷ text "events"
    ∷ as_bytes (batch_data events)
    ∷ []
