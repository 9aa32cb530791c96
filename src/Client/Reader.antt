-- ===== src/Client/Reader.antt =====
-- crates/eventstream-client/src/lib.rs: the merged reader over the streams of a deployment.
pub mod Ids
pub mod Merge
pub mod Delivery
use redis_event_stream_modul.Base.{
  Str, text, split_once, parse_unsigned, ltb, leb, ◌==◌, ◌=s=◌, ℕ, ◌-◌, ◌^◌, Bool, true, ◌||◌, ◌&&◌,
  List, [], ◌∷◌, ◌++◌, map, Option, none, some, if◌then◌else◌, sort_by,
}
use redis_event_stream_modul.Base.Result.{Result, ok, err, ◌>>=◌}
use redis_event_stream_modul.Client.Entry.{
  Value, Values, array, cons, LogicalEvent, DecodeError, PhysicalEntry,
}
use redis_event_stream_modul.Client.Decode.{Crates, Entry, from, decode_entry}

abbrev number_or_zero : Option ℕ → ℕ
number_or_zero none = 0
number_or_zero (some n) = n

abbrev parse_u64 : Str → ℕ
parse_u64 s = number_or_zero (parse_unsigned (2 ^ 64 - 1) s)

unfoldable pub entry_id_sort_key : Str → ℕ × ℕ
entry_id_sort_key id = elim (split_once b'-' id) [
  | none ↦ (parse_u64 id, 0)
  | some (ms, seq) ↦ (parse_u64 ms, parse_u64 seq)
]

-- The order of pairs, and of entries by their keys.
unfoldable pub leb_key : ℕ × ℕ → ℕ × ℕ → Bool
leb_key a b = ltb a.0 b.0 || a.0 == b.0 && leb a.1 b.1

unfoldable pub leb_entry : PhysicalEntry → PhysicalEntry → Bool
leb_entry a b = leb_key (entry_id_sort_key a.id) (entry_id_sort_key b.id)

-- `Entry::sort_key`
unfoldable pub sort_key : Entry → ℕ × ℕ
sort_key entry = entry_id_sort_key entry.id

-- An entry of a reply: its id and its fields.
abbrev pub StreamId : Type 0
StreamId = Str × (Str → Option Value)

-- The connection, and what the source asks of it. `xread` is the reply to `XREAD COUNT`, the ids of
-- each of its keys, or none for an error; `xrevrange` the reply to `XREVRANGE + - COUNT 1`, and
-- `string_of` is `String::from_redis_value`.
pub record Server (W : Type 0) : Type 0 where
  pub xread : ℕ → Str → Str → W → Option (List (List StreamId)) × W
  pub xrevrange : Str → W → Value × W
  pub string_of : Value → Option Str

pub record MergedReader : Type 0 where
  pub streams : List Str
  pub cursors : List (Str × Str)

unfoldable pub get_cursor : List (Str × Str) → Str → Option Str
get_cursor [] s = none
get_cursor ((name, cursor) ∷ rest) s = if name =s= s then some cursor else get_cursor rest s

unfoldable pub insert_cursor : List (Str × Str) → Str → Str → List (Str × Str)
insert_cursor [] s cursor = (s, cursor) ∷ []
insert_cursor ((name, old) ∷ rest) s cursor =
    let kept = insert_cursor rest s cursor in
    if name =s= s then (name, cursor) ∷ rest else (name, old) ∷ kept

abbrev first_string : (Value → Option Str) → Values → Option Str
first_string string_of (cons id _) = string_of id
first_string string_of _ = none

abbrev first_pair : (Value → Option Str) → Values → Option Str
first_pair string_of (cons (array pair) _) = first_string string_of pair
first_pair string_of _ = none

unfoldable pub first_id_of_xrange : (Value → Option Str) → Value → Option Str
first_id_of_xrange string_of (array entries) = first_pair string_of entries
first_id_of_xrange string_of _ = none

abbrev pub or_zero : Option Str → Str
or_zero none = text "0"
or_zero (some cursor) = cursor

-- `for id in key.ids`: the cursors, and the entries pushed to the batch.
unfoldable pub take_ids :
    Str → List StreamId → List (Str × Str) → List (Str × Str) × List PhysicalEntry
take_ids s [] cursors = (cursors, [])
take_ids s ((id, fields) ∷ ids) cursors =
    let (cursors, batch) = take_ids s ids (insert_cursor cursors s id) in
    (cursors, record { stream = s; id = id; fields = fields } ∷ batch)

-- `for key in reply.keys`
unfoldable pub take_keys :
    Str → List (List StreamId) → List (Str × Str) → List (Str × Str) × List PhysicalEntry
take_keys s [] cursors = (cursors, [])
take_keys s (ids ∷ keys) cursors =
    let (cursors, batch) = take_ids s ids cursors in
    let (cursors, more) = take_keys s keys cursors in (cursors, batch ++ more)

abbrev pub take_reply :
    Str → Option (List (List StreamId)) → List (Str × Str) → List (Str × Str) × List PhysicalEntry
take_reply s none cursors = (cursors, [])
take_reply s (some keys) cursors = take_keys s keys cursors

module _ {W : Type 0} (S : Server W) where
  unfoldable pub last_id : Str → W → Str × W
  last_id stream w =
      let (raw, w) = S.xrevrange stream w in (or_zero (first_id_of_xrange S.string_of raw), w)

  unfoldable pub start : Bool → Str → W → Str × W
  start from_zero s w = if from_zero then (text "0", w) else last_id s w

  unfoldable pub start_cursors : Bool → List Str → List (Str × Str) → W → List (Str × Str) × W
  start_cursors from_zero [] cursors w = (cursors, w)
  start_cursors from_zero (s ∷ streams) cursors w =
      let (cursor, w) = start from_zero s w in
      start_cursors from_zero streams (insert_cursor cursors s cursor) w

  unfoldable pub new : List Str → Bool → W → MergedReader × W
  new streams from_zero w =
      let (cursors, w) = start_cursors from_zero streams [] w in
      (record { streams = streams; cursors = cursors }, w)

  -- The reader, and the names that were added.
  unfoldable pub add_streams : MergedReader → List Str → Bool → W → (MergedReader × List Str) × W
  add_streams reader [] from_zero w = ((reader, []), w)
  add_streams reader (s ∷ candidates) from_zero w = elim (get_cursor reader.cursors s) [
    | some _ ↦ add_streams reader candidates from_zero w
    | none ↦
        let (cursor, w) = start from_zero s w in
        let ((reader, added), w) =
          add_streams
            (record {
              streams = reader.streams ++ s ∷ [];
              cursors = insert_cursor reader.cursors s cursor;
            })
            candidates from_zero w in
        ((reader, s ∷ added), w)
  ]

  -- One round over the streams, before the batch is sorted.
  unfoldable pub read_round :
      ℕ → List Str → List (Str × Str) → W → (List (Str × Str) × List PhysicalEntry) × W
  read_round limit [] cursors w = ((cursors, []), w)
  read_round limit (s ∷ streams) cursors w =
      let (reply, w) = S.xread limit s (or_zero (get_cursor cursors s)) w in
      let (cursors, batch) = take_reply s reply cursors in
      let ((cursors, more), w) = read_round limit streams cursors w in ((cursors, batch ++ more), w)

  unfoldable pub poll_physical : MergedReader → ℕ → W → (MergedReader × List PhysicalEntry) × W
  poll_physical reader limit w =
      let ((cursors, batch), w) = read_round limit reader.streams reader.cursors w in
      ((record reader { cursors = cursors }, sort_by leb_entry batch), w)

-- The loop of `poll_decoded`: the first error ends it.
unfoldable pub decode_all : Crates → List PhysicalEntry → Result DecodeError (List LogicalEvent)
decode_all C [] = ok []
decode_all C (entry ∷ physical) = do
  events ← decode_entry C entry
  logical ← decode_all C physical
  ok (events ++ logical)

module _ {W : Type 0} (S : Server W) (C : Crates) where
  unfoldable pub poll_decoded :
      MergedReader → ℕ → W → (MergedReader × Result DecodeError (List LogicalEvent)) × W
  poll_decoded reader limit w =
      let ((reader, physical), w) = poll_physical S reader limit w in
      ((reader, decode_all C physical), w)

  unfoldable pub poll : MergedReader → ℕ → W → (MergedReader × List Entry) × W
  poll reader limit w =
      let ((reader, physical), w) = poll_physical S reader limit w in
      ((reader, map (λ entry. from C entry.stream entry.id entry.fields) physical), w)
