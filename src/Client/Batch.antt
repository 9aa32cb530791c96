-- ===== src/Client/Batch.antt =====
-- crates/eventstream-client/src/lib.rs and src/capture.rs: the batches of the module under the client.
pub mod Chars
use redis_event_stream_modul.Base.{
  ap, is_digit, utf8_char, show_digits, show_digits-digits, not, false, sym, =s=-refl, Str, Bytes,
  text, as_bytes, from_utf8, show_nat, parse_unsigned-show_nat, show_int, pos, decode_utf8, lead,
  is_scalar, length, ℕ, suc, ◌-◌, ◌^◌, ◌≤◌, ◌<◌, ◌==◌, ◌=s=◌, true, List, [], ◌∷◌, map, length-map,
  Option, none, some, ◌≡◌, refl, ◌∙◌, arith, All,
}
use redis_event_stream_modul.Base.Result.{ok}
use redis_event_stream_modul.Encode.Base64.{base64, decode64, decode64-base64}
use redis_event_stream_modul.Encode.Classes.{class_names}
use redis_event_stream_modul.Encode.Event.{PendingEvent}
use redis_event_stream_modul.Encode.Document.{batch_data, encode_batch_fields}
use redis_event_stream_modul.Encode.Document.Reader.{Item, read_batch}
use redis_event_stream_modul.Encode.Document.RoundTrip.{item_with, IsEncodable, read_batch_with}
use redis_event_stream_modul.Client.Entry.{
  bulk_string, LogicalEvent, PhysicalEntry, position, field_bytes, field_utf8, optional_field_utf8,
}
use redis_event_stream_modul.Client.Decode.{
  BatchEvent, Crates, batch_event, batch_events, decode_batch_v1_entry, decode_as, decode_entry,
}
use redis_event_stream_modul.Client.RoundTrip.{
  received, Holds, from_utf8-show_int, field_bytes-bulk, field_utf8-bulk, optional_field_utf8-bulk,
}
use redis_event_stream_modul.Client.Batch.Chars.{
  Scalars, NameScalars, batch_data-Scalars, length-batch_data,
}

abbrev pub batch_event_of : Item Str → BatchEvent
batch_event_of item = record {
  event = item.event;
  key = item.key;
  db = item.db;
  class = item.class;
}

-- `serde_json` reads a JSON array of such objects into its elements.
abbrev pub ReadsJson : Crates → Type 0
ReadsJson C =
    (s : Str) (items : List (Item Str))
    → Scalars s
    → read_batch some (length s) s ≡ some items
    → C.from_slice (as_bytes s) ≡ ok (map batch_event_of items)

-- The decoder of `base64` reads every padded text of RFC 4648.
abbrev pub ReadsBase64 : Crates → Type 0
ReadsBase64 C = (s : Str) (bytes : Bytes) → decode64 s ≡ some bytes → C.decode_base64 s ≡ ok bytes

-- What a consumer sees of the events of one entry, from the given index on.
unfoldable pub logical_events : PhysicalEntry → ℕ → List PendingEvent → List LogicalEvent
logical_events entry index [] = []
logical_events entry index (e ∷ es) =
    record {
      source = record { physical = position entry; envelope_index = some index };
      event = e.event;
      key = e.key;
      db = e.db;
      class = some (class_names e.class);
    }
    ∷ logical_events entry (suc index) es

batch_events-items :
    (C : Crates) (entry : PhysicalEntry) (index : ℕ) (es : List PendingEvent)
    → ReadsBase64 C
    → All IsEncodable es
    → batch_events C entry index (map batch_event_of (map (item_with (λ e. base64 e.key)) es))
      ≡ ok (logical_events entry index es)
unfolding batch_events batch_event logical_events
batch_events-items C entry index [] b h = refl
batch_events-items C entry index (e ∷ es) b h =
    rw (b (base64 e.key) e.key (decode64-base64 e.key h.0.0))
      (rw (batch_events-items C entry (suc index) es b h.1) refl)

as_bytes-digits : (s : Str) → All (λ c. is_digit c ≡ true) s → as_bytes s ≡ s
unfolding as_bytes utf8_char
as_bytes-digits [] h = refl
as_bytes-digits (c ∷ s) h = ground (arith, as_bytes-digits s h.1)

-- The count is written as the text of its digits, which are their own bytes.
from_utf8-show_nat : (n : ℕ) → from_utf8 (show_nat n) ≡ some (show_nat n)
unfolding show_int show_nat
from_utf8-show_nat n =
    ap from_utf8 (sym (as_bytes-digits (show_digits n n) (show_digits-digits n n)))
    ∙ from_utf8-show_int (pos n)

same_count : (n m : ℕ) → n ≡ m → not (n == m) ≡ false
same_count n m h = ground arith

batch_received :
    (es : List PendingEvent)
    → (received (encode_batch_fields es) (text "format") ≡ some (bulk_string (text "batch-v1")))
      × (received (encode_batch_fields es) (text "count")
          ≡ some (bulk_string (show_nat (length es))))
      × (received (encode_batch_fields es) (text "events")
          ≡ some (bulk_string (as_bytes (batch_data es))))
unfolding received encode_batch_fields ◌=s=◌
batch_received es = (refl, refl, refl)

batch-v1 : from_utf8 (text "batch-v1") ≡ some (text "batch-v1")
unfolding from_utf8
batch-v1 = unfold decode_utf8 lead in refl

-- An entry that the module writes for a batch of events: the client decodes it to the events of the
-- batch in their order, each with its name, its key bytes, its database, its class names and its index
-- in the batch. The count of the entry is a `usize`, and `serde_json` and `base64` read what their
-- formats allow.
pub decode_entry-encode_batch_fields :
    (C : Crates) (entry : PhysicalEntry) (es : List PendingEvent)
    → ReadsJson C
    → ReadsBase64 C
    → Holds (encode_batch_fields es) entry
    → All IsEncodable es
    → All NameScalars es
    → length es < 2 ^ 64
    → decode_entry C entry ≡ ok (logical_events entry 0 es)
unfolding decode_entry decode_as decode_batch_v1_entry
decode_entry-encode_batch_fields C entry es json base64_ok h k n l =
    let (f, c, v) = batch_received es in
    rw (optional_field_utf8-bulk entry (text "format") _ _ (h (text "format") ∙ f) batch-v1) (
      rw (field_utf8-bulk entry (text "count") _ _ (h (text "count") ∙ c) (from_utf8-show_nat _)) (
        rw (parse_unsigned-show_nat (2 ^ 64 - 1) (length es) (omega arith)) (
          rw (field_bytes-bulk entry (text "events") _ (h (text "events") ∙ v)) (
            rw
              (json (batch_data es) _ (batch_data-Scalars es n) (
                read_batch_with some (λ e. base64 e.key) (λ e _. refl) (length (batch_data es)) es k
                  (length-batch_data es)))
              (rw (=s=-refl (text "batch-v1")) (
                rw
                  (same_count (length es) _ (
                    sym (
                      length-map (map (item_with (λ e. base64 e.key)) es) batch_event_of
                      ∙ length-map es (item_with (λ e. base64 e.key)))))
                  (batch_events-items C entry 0 es base64_ok k)))))))
