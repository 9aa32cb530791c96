-- ===== src/Client/RoundTrip.antt =====
-- crates/eventstream-client/src/lib.rs and src/capture.rs: entries of the module under the client.
use redis_event_stream_modul.Base.{
  Str, Bytes, text, as_bytes, from_utf8, decode_utf8, lead, from_utf8-as_bytes, show_int,
  parse_signed-show_int, InSigned, ℕ, ◌^◌, ◌=s=◌, ℤ, Bool, List, [], ◌∷◌, ◌++◌, ap, Option, none,
  some, if◌then◌else◌, ◌≡◌, refl, ◌∙◌, arith,
}
use redis_event_stream_modul.Base.Result.{Result, ok, err}
use redis_event_stream_modul.Encode.Event.{EntrySpec, EntryFormat, fixed, minimal, verbose, json}
use redis_event_stream_modul.Encode.Fields.{encode_entry_fields, fields_of, plain_fields, seq_field}
use redis_event_stream_modul.Client.Batch.Chars.{show_int-Scalars}
use redis_event_stream_modul.Client.Entry.{
  Value, bulk_string, LogicalEvent, DecodeError, unsupported_format, PhysicalEntry, position, error,
  field_bytes, field_utf8, optional_field_utf8, parse_integer,
}
use redis_event_stream_modul.Client.Decode.{Crates, decode_fixed_entry, decode_as, decode_entry}

-- What the server keeps of the arguments behind the `*` of an XADD: names, each with its value. The
-- last value of a name counts, as in the map that the `redis` crate builds; the module repeats none.
unfoldable pub received : List Bytes → Str → Option Value
received [] name = none
received (n ∷ []) name = none
received (n ∷ value ∷ rest) name =
    let later = received rest name in
    elim later [ some v ↦ some v | none ↦ if n =s= name then some (bulk_string value) else none ]

pub from_utf8-show_int : (v : ℤ) → from_utf8 (as_bytes (show_int v)) ≡ some (show_int v)
from_utf8-show_int v = from_utf8-as_bytes (show_int v) (show_int-Scalars v)

-- The entry holds the fields that the module wrote.
abbrev pub Holds : List Bytes → PhysicalEntry → Type 0
Holds fields entry = (name : Str) → entry.fields name ≡ received fields name

-- The fields of the format `fixed`, with or without a sequence number.
abbrev FixedFields : Bytes → Bytes → Bytes → (Str → Option Value) → Type 0
FixedFields event key db fields =
    (fields (text "format") ≡ none)
    × (fields (text "event") ≡ some (bulk_string event))
    × (fields (text "key") ≡ some (bulk_string key))
    × (fields (text "db") ≡ some (bulk_string db))
    × (fields (text "class") ≡ none)

fixed_received :
    (spec : EntrySpec) (seq : Option ℕ)
    → FixedFields spec.event spec.key
        (as_bytes spec.db)
        (received (plain_fields fixed spec ++ seq_field seq))
unfolding received plain_fields seq_field ◌=s=◌
fixed_received spec none = (refl, refl, refl, refl, refl)
fixed_received spec (some n) = (refl, refl, refl, refl, refl)

-- A field of the entry under each reader of fields.
module _ (entry : PhysicalEntry) (name : Str) where
  pub field_bytes-bulk :
      (b : Bytes) → entry.fields name ≡ some (bulk_string b) → field_bytes entry name ≡ ok b
  unfolding field_bytes
  field_bytes-bulk b h = rw (h, field_bytes) refl

  pub field_utf8-bulk :
      (b : Bytes) (s : Str)
      → entry.fields name ≡ some (bulk_string b)
      → from_utf8 b ≡ some s
      → field_utf8 entry name ≡ ok s
  unfolding field_utf8
  field_utf8-bulk b s h u = rw (field_bytes-bulk b h) (rw u refl)

  optional_field_utf8-absent : entry.fields name ≡ none → optional_field_utf8 entry name ≡ ok none
  unfolding optional_field_utf8
  optional_field_utf8-absent h = rw (h, optional_field_utf8) refl

  pub optional_field_utf8-bulk :
      (b : Bytes) (s : Str)
      → entry.fields name ≡ some (bulk_string b)
      → from_utf8 b ≡ some s
      → optional_field_utf8 entry name ≡ ok (some s)
  unfolding optional_field_utf8
  optional_field_utf8-bulk b s h u = rw (h, optional_field_utf8) (rw (field_utf8-bulk b s h u) refl)

  parse_integer-show_int :
      (v : ℤ)
      → entry.fields name ≡ some (bulk_string (as_bytes (show_int v)))
      → InSigned (2 ^ 63) v
      → parse_integer entry name ≡ ok v
  unfolding parse_integer
  parse_integer-show_int v h r =
      rw (field_utf8-bulk _ (show_int v) h (from_utf8-show_int v))
        (rw (parse_signed-show_int (2 ^ 63) v r) refl)

-- What a consumer sees of an entry of the format `fixed`.
unfoldable pub fixed_event : PhysicalEntry → Str → Bytes → ℤ → LogicalEvent
fixed_event entry name key db = record {
  source = record { physical = position entry; envelope_index = none };
  event = name;
  key = key;
  db = db;
  class = none;
}

decode_FixedFields :
    (C : Crates) (entry : PhysicalEntry) (event key : Bytes) (name : Str) (db : ℤ)
    → FixedFields event key (as_bytes (show_int db)) entry.fields
    → from_utf8 event ≡ some name
    → InSigned (2 ^ 63) db
    → decode_entry C entry ≡ ok (fixed_event entry name key db ∷ [])
unfolding decode_entry decode_as decode_fixed_entry fixed_event
decode_FixedFields C entry event key name db (f, e, k, d, c) u h =
    rw
      (
        optional_field_utf8-absent entry (text "format") f,
        field_utf8-bulk entry (text "event") event name e u,
        field_bytes-bulk entry (text "key") key k,
        parse_integer-show_int entry (text "db") db d h,
        optional_field_utf8-absent entry (text "class") c,
      )
      refl

-- What a consumer makes of an entry in each format: the client reads `fixed`, and names the others.
abbrev pub format_outcome :
    EntryFormat → PhysicalEntry → LogicalEvent → Result DecodeError (List LogicalEvent)
format_outcome fixed entry event = ok (event ∷ [])
format_outcome minimal entry event = err (error entry (unsupported_format (text "minimal")))
format_outcome verbose entry event = err (error entry (unsupported_format (text "verbose")))
format_outcome json entry event = err (error entry (unsupported_format (text "json")))

decode_unsupported :
    (C : Crates) (entry : PhysicalEntry) (format : Str)
    → entry.fields (text "format") ≡ some (bulk_string format)
    → from_utf8 format ≡ some format
    → (format =s= text "batch-v1") ≡ Bool.false
    → decode_entry C entry ≡ err (error entry (unsupported_format format))
unfolding decode_entry decode_as
decode_unsupported C entry format h u n =
    rw (optional_field_utf8-bulk entry (text "format") format format h u) (rw n refl)

-- The discriminator of the formats other than `fixed`.
minimal_received :
    (spec : EntrySpec) (seq : Option ℕ)
    → received (plain_fields minimal spec ++ seq_field seq) (text "format")
      ≡ some (bulk_string (text "minimal"))
unfolding received plain_fields seq_field ◌=s=◌
minimal_received spec none = refl
minimal_received spec (some n) = refl

verbose_received :
    (spec : EntrySpec) (seq : Option ℕ)
    → received (plain_fields verbose spec ++ seq_field seq) (text "format")
      ≡ some (bulk_string (text "verbose"))
unfolding received plain_fields seq_field ◌=s=◌
verbose_received spec none = refl
verbose_received spec (some n) = refl

json_received :
    (document : Bytes)
    → received (text "format" ∷ text "json" ∷ text "data" ∷ document ∷ []) (text "format")
      ≡ some (bulk_string (text "json"))
unfolding received ◌=s=◌
json_received document = refl

ascii_text :
    (from_utf8 (text "minimal") ≡ some (text "minimal"))
    × (from_utf8 (text "verbose") ≡ some (text "verbose"))
    × (from_utf8 (text "json") ≡ some (text "json"))
unfolding from_utf8
ascii_text = unfold decode_utf8 lead in (refl, refl, refl)

-- The fields that an encoder gave.
abbrev encoded : List Bytes → Result Str (List Bytes)
encoded fields = ok fields

ok_inj : (a b : List Bytes) → encoded a ≡ encoded b → a ≡ b
ok_inj a b e = ground arith

held :
    (entry : PhysicalEntry) (a b : List Bytes)
    → encoded a ≡ encoded b
    → Holds b entry
    → (name : Str) → entry.fields name ≡ received a name
held entry a b e h name = grind (arith, h name, ap (λ fields. received fields name) (ok_inj a b e))

module _ (C : Crates) (entry : PhysicalEntry) (spec : EntrySpec) (name : Str) (db : ℤ)
    (u : from_utf8 spec.event ≡ some name) (d : spec.db ≡ show_int db)
    (r : InSigned (2 ^ 63) db) where
  decode_in_format :
      (format : EntryFormat) (fields : List Bytes)
      → fields_of format spec ≡ ok fields
      → Holds fields entry
      → decode_entry C entry ≡ format_outcome format entry (fixed_event entry name spec.key db)
  decode_in_format fixed fields e h =
      let has = held entry (plain_fields fixed spec ++ seq_field spec.seq) fields e h in
      let (f, v, k, n, c) = fixed_received spec spec.seq in
      decode_FixedFields C entry spec.event spec.key name db
        (
          has (text "format") ∙ f,
          has (text "event") ∙ v,
          has (text "key") ∙ k,
          has (text "db") ∙ n ∙ ap (λ t. some (bulk_string (as_bytes t))) d,
          has (text "class") ∙ c,
        )
        u r
  decode_in_format minimal fields e h =
      let has = held entry (plain_fields minimal spec ++ seq_field spec.seq) fields e h in
      decode_unsupported C entry (text "minimal")
        (has (text "format") ∙ minimal_received spec spec.seq) ascii_text.0 (unfold ◌=s=◌ in refl)
  decode_in_format verbose fields e h =
      let has = held entry (plain_fields verbose spec ++ seq_field spec.seq) fields e h in
      decode_unsupported C entry (text "verbose")
        (has (text "format") ∙ verbose_received spec spec.seq) ascii_text.1 (unfold ◌=s=◌ in refl)
  decode_in_format json fields e h =
      let has = held entry _ fields (rw u at e) h in
      decode_unsupported C entry (text "json") (has (text "format") ∙ json_received _) ascii_text.2
        (unfold ◌=s=◌ in refl)

-- An entry that the module writes for one event, in any of its formats and with or without a sequence
-- number: the client decodes one of the format `fixed` to one event with the name, the key bytes and
-- the database that were encoded, and refuses every other format by its name.
pub decode_entry-encode_entry_fields :
    (C : Crates) (entry : PhysicalEntry) (spec : EntrySpec) (fields : List Bytes) (name : Str)
    (db : ℤ)
    → encode_entry_fields spec ≡ ok fields
    → Holds fields entry
    → from_utf8 spec.event ≡ some name
    → spec.db ≡ show_int db
    → InSigned (2 ^ 63) db
    → decode_entry C entry ≡ format_outcome spec.format entry (fixed_event entry name spec.key db)
unfolding encode_entry_fields
decode_entry-encode_entry_fields C entry spec fields name db e h u d r =
    decode_in_format C entry spec name db u d r spec.format fields e h
