-- ===== src/Client/Entry.antt =====
-- crates/eventstream-client/src/lib.rs: physical entries, their positions, and the errors of decoding.
use redis_event_stream_modul.Base.{
  Str, Bytes, show_nat, as_bytes, from_utf8, parse_signed, ℕ, ◌^◌, ℤ, Option, none, some, ◌++◌, ◌∷◌,
  [],
}
use redis_event_stream_modul.Base.Result.{Result, ok, err, ◌>>=◌}

-- A value of a reply of the `redis` crate, as far as the reader looks into it.
mutual
  pub data Value : Type 0 where
    bulk_string : Bytes → Value
    simple_string : Str → Value
    array : Values → Value
    other : Value

  pub data Values : Type 0 where
    nil : Values
    cons : Value → Values → Values

pub record PhysicalPosition : Type 0 where
  pub stream : Str
  pub entry_id : Str

pub record SourcePosition : Type 0 where
  pub physical : PhysicalPosition
  pub envelope_index : Option ℕ

-- `Display` of the two positions.
unfoldable pub show_physical : PhysicalPosition → Str
show_physical p = p.stream ++ b'/' ∷ p.entry_id

unfoldable pub show_source : SourcePosition → Str
unfolding show_physical
show_source p =
    show_physical p.physical
    ++ elim p.envelope_index [ none ↦ [] | some index ↦ b'/' ∷ show_nat index ]

pub record LogicalEvent : Type 0 where
  pub source : SourcePosition
  pub event : Str
  pub key : Bytes
  pub db : ℤ
  pub class : Option Str

pub data DecodeErrorKind : Type 0 where
  missing_field invalid_field_type invalid_utf8 : Str → DecodeErrorKind
  invalid_integer : Str → Str → DecodeErrorKind
  unsupported_format invalid_json : Str → DecodeErrorKind
  count_mismatch : ℕ → ℕ → DecodeErrorKind
  invalid_base64 : ℕ → Str → DecodeErrorKind

pub record DecodeError : Type 0 where
  pub physical : PhysicalPosition
  pub kind : DecodeErrorKind

-- The map of the fields is the function that `get` computes.
pub record PhysicalEntry : Type 0 where
  pub stream : Str
  pub id : Str
  pub fields : Str → Option Value

unfoldable pub position : PhysicalEntry → PhysicalPosition
position entry = record { stream = entry.stream; entry_id = entry.id }

unfoldable pub error : PhysicalEntry → DecodeErrorKind → DecodeError
error entry kind = record { physical = position entry; kind = kind }

unfoldable pub field_bytes : PhysicalEntry → Str → Result DecodeError Bytes
field_bytes entry name = elim (entry.fields name) [
  | some (bulk_string bytes) ↦ ok bytes
  | some (simple_string value) ↦ ok (as_bytes value)
  | some _ ↦ err (error entry (invalid_field_type name))
  | none ↦ err (error entry (missing_field name))
]

-- `map_err` of a parser that returns nothing.
abbrev pub or_error :
    {A : Type 0} → PhysicalEntry → DecodeErrorKind → Option A → Result DecodeError A
or_error entry kind none = err (error entry kind)
or_error entry kind (some a) = ok a

unfoldable pub field_utf8 : PhysicalEntry → Str → Result DecodeError Str
field_utf8 entry name = do
  bytes ← field_bytes entry name
  or_error entry (invalid_utf8 name) (from_utf8 bytes)

unfoldable pub optional_field_utf8 : PhysicalEntry → Str → Result DecodeError (Option Str)
optional_field_utf8 entry name = elim (entry.fields name) [
  | none ↦ ok none
  | some _ ↦ field_utf8 entry name >>= λ value. ok (some value)
]

unfoldable pub parse_integer : PhysicalEntry → Str → Result DecodeError ℤ
parse_integer entry name = do
  value ← field_utf8 entry name
  or_error entry (invalid_integer name value) (parse_signed (2 ^ 63) value)
