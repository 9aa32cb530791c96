-- ===== src/Client/Topology.antt =====
-- crates/eventstream-client/src/lib.rs: the masters of a deployment and what they report.
pub mod Masters
use mathlib.Core.List.{reverse}
use redis_event_stream_modul.Base.{
  Str, text, split, split_once, trim, is_empty, is_whitespace, contains, starts_with, ◌=s=◌, length,
  parse_signed, ltb, ◌==◌, ℕ, zero, suc, ◌+◌, ◌^◌, ℤ, pos, bits, of_bits, Bool, true, false, not,
  ◌&&◌, ◌||◌, List, [], ◌∷◌, ◌++◌, map, Option, none, some, if◌then◌else◌, filter, sort_by,
}
use redis_event_stream_modul.Client.Entry.{PhysicalEntry}
use redis_event_stream_modul.Client.Decode.{Crates}
use redis_event_stream_modul.Client.Names.{strip_prefix, event_name, stream_tag}
use redis_event_stream_modul.Client.Gaps.{GapMarker, gap_marker}
use redis_event_stream_modul.Client.Reader.{StreamId}

-- `Ord` of strings: the order of chars is that of their UTF-8 bytes.
unfoldable pub leb_str : Str → Str → Bool
leb_str [] t = true
leb_str (c ∷ s) [] = false
leb_str (c ∷ s) (d ∷ t) = ltb c d || c == d && leb_str s t

abbrev strip_cr : Str → Str
strip_cr [] = []
strip_cr (c ∷ []) = if c == 13 then [] else c ∷ []
strip_cr (c ∷ d ∷ s) = c ∷ strip_cr (d ∷ s)

abbrev drop_last_empty : List Str → List Str
drop_last_empty [] = []
drop_last_empty (s ∷ []) = if is_empty s then [] else s ∷ []
drop_last_empty (s ∷ t ∷ rest) = s ∷ drop_last_empty (t ∷ rest)

-- `str::lines`
unfoldable pub lines : Str → List Str
lines s = map strip_cr (drop_last_empty (split 10 s))

unfoldable pub split_at_whitespace : Str → Str × List Str
split_at_whitespace [] = ([], [])
split_at_whitespace (c ∷ s) =
    let (piece, pieces) = split_at_whitespace s in
    if is_whitespace c then ([], piece ∷ pieces) else (c ∷ piece, pieces)

-- `str::split_whitespace`
unfoldable pub split_whitespace : Str → List Str
split_whitespace s =
    let (piece, pieces) = split_at_whitespace s in filter (λ p. not (is_empty p)) (piece ∷ pieces)

-- The flags of a master that is reachable and serves.
unfoldable pub is_serving : Str → Bool
is_serving flags = not (
    not (contains flags (text "master"))
    || contains flags (text "fail")
    || contains flags (text "noaddr")
    || contains flags (text "handshake"))

abbrev pub first_of : List Str → Option Str
first_of [] = none
first_of (piece ∷ rest) = some piece

-- The address of a line, if its node is such a master.
unfoldable pub address_in : List Str → Option Str
address_in (id ∷ addr ∷ flags ∷ rest) =
    if is_serving flags then first_of (split b'@' addr) else none
address_in _ = none

unfoldable pub addresses : List Str → List Str
addresses [] = []
addresses (line ∷ rest) = elim (address_in (split_whitespace line)) [
  | none ↦ addresses rest
  | some addr ↦ addr ∷ addresses rest
]

unfoldable pub masters_from_cluster_nodes : Str → List Str
masters_from_cluster_nodes nodes = sort_by leb_str (addresses (lines nodes))

-- `trim_start_matches`: as often as the text begins with the pattern; its length is enough.
unfoldable pub trim_start_matches : ℕ → Str → Str → Str
trim_start_matches zero p s = s
trim_start_matches (suc f) p s = elim (strip_prefix s p) [
  | none ↦ s
  | some rest ↦ trim_start_matches f p rest
]

unfoldable pub trim_slashes : Str → Str
trim_slashes [] = []
trim_slashes (c ∷ s) = let rest = trim_slashes s in if c == b'/' then rest else c ∷ s

-- `trim_end_matches('/')` behind `trim_start_matches("redis://")`.
unfoldable pub host_port : Str → Str
host_port url =
    reverse (trim_slashes (reverse (trim_start_matches (length url) (text "redis://") url)))

pub record Target : Type 0 where
  pub is_cluster : Bool
  pub masters : List Str
  pub prefix : Str
  pub url : Str

-- The connections, and the commands that the source sends on them, each none for an error.
pub record Net (W C : Type 0) : Type 0 where
  pub open_single : Str → W → Option C × W
  pub open_rw : Target → W → Option C × W
  pub query_string : C → List Str → W → Option Str × W
  pub query_strings : C → List Str → W → Option (List Str) × W
  -- `SCAN`: the next cursor and the keys.
  pub query_scan : C → List Str → W → Option (Str × List Str) × W
  -- `XREAD` without a count, the ids of each key.
  pub xread : C → Str → Str → W → Option (List (List StreamId)) × W

abbrev or_empty : {A : Type 0} → Option (List A) → List A
or_empty none = []
or_empty (some xs) = xs

pub record StreamInfo : Type 0 where
  pub name : Str
  pub node : Str
  pub tag : Option Str
  pub event : Option Str

unfoldable pub stream_info : Str → Str → Str → StreamInfo
stream_info prefix node name = record {
  name = name;
  node = node;
  tag = stream_tag prefix name;
  event = event_name prefix name;
}

-- `HashSet::insert`
abbrev insert_name : List Str → Str → List Str
insert_name [] name = name ∷ []
insert_name (other ∷ set) name =
    let rest = insert_name set name in if other =s= name then other ∷ set else other ∷ rest

unfoldable pub insert_names : List Str → List Str → List Str
insert_names set [] = set
insert_names set (name ∷ names) = insert_names (insert_name set name) names

-- `BTreeMap::insert`; the order of the fields is not read.
unfoldable pub insert_field : List (Str × Str) → Str → Str → List (Str × Str)
insert_field [] field value = (field, value) ∷ []
insert_field ((name, old) ∷ fields) field value =
    let rest = insert_field fields field value in
    if name =s= field then (name, value) ∷ fields else (name, old) ∷ rest

unfoldable pub get_field : List (Str × Str) → Str → Option Str
get_field [] field = none
get_field ((name, value) ∷ fields) field =
    if name =s= field then some value else get_field fields field

abbrev counter_line : Option (Str × Str) → List (Str × Str) → List (Str × Str)
counter_line none out = out
counter_line (some (k, v)) out = elim (strip_prefix k (text "eventstream_")) [
  | none ↦ out
  | some field ↦ insert_field out field (trim v)
]

unfoldable pub counters_of : List Str → List (Str × Str) → List (Str × Str)
counters_of [] out = out
counters_of (line ∷ rest) out = counters_of rest (counter_line (split_once b':' line) out)

abbrev parsed_or_zero : Option Str → ℤ
parsed_or_zero none = pos 0
parsed_or_zero (some v) = elim (parse_signed (2 ^ 63) v) [ none ↦ pos 0 | some n ↦ n ]

abbrev control_suffix : Str
control_suffix = text "#control"

unfoldable pub is_control : Str → Bool
is_control s = starts_with (reverse s) (reverse control_suffix)

module _ {W C : Type 0} (N : Net W C) where
  unfoldable pub discover_on : Target → List Str → W → List StreamInfo × W
  discover_on target [] w = ([], w)
  discover_on target (master ∷ masters) w =
      let (conn, w1) = N.open_single master w in
      elim conn [
        | none ↦ discover_on target masters w1
        | some c ↦
            let (names, w2) = N.query_strings c (text "EVENTSTREAM.STREAMS" ∷ []) w1 in
            let (rest, w3) = discover_on target masters w2 in
            (map (stream_info target.prefix master) (or_empty names) ++ rest, w3)
      ]

  unfoldable pub discover : Target → W → List StreamInfo × W
  discover target w =
      let (out, w) = discover_on target target.masters w in
      (sort_by (λ a b. leb_str a.name b.name) out, w)

  unfoldable pub discover_streams : Target → W → List Str × W
  discover_streams target w =
      let (out, w) = discover target w in
      (sort_by leb_str (insert_names [] (map (λ s. s.name) out)), w)

  -- The loop over the cursor of `SCAN`; none where the fuel ends before the cursor is back at `0`.
  unfoldable pub scan_loop : ℕ → C → Str → Str → List Str → W → Option (List Str) × W
  scan_loop zero c prefix cursor out w = (none, w)
  scan_loop (suc fuel) c prefix cursor out w =
      let (reply, w) =
        N.query_scan c
          (text "SCAN"
            ∷ cursor
            ∷ text "MATCH"
            ∷ (prefix ++ text "*")
            ∷ text "TYPE"
            ∷ text "stream"
            ∷ text "COUNT"
            ∷ text "256"
            ∷ [])
          w in
      elim reply [
        | none ↦ (some out, w)
        | some (next, keys) ↦
            if next =s= text "0"
            then (some (out ++ keys), w)
            else scan_loop fuel c prefix next (out ++ keys) w
      ]

  unfoldable pub scan_streams : ℕ → C → Str → W → Option (List Str) × W
  scan_streams fuel c prefix w = scan_loop fuel c prefix (text "0") [] w

  unfoldable pub discover_all_on : ℕ → Str → List Str → List Str → W → Option (List Str) × W
  discover_all_on fuel prefix [] set w = (some set, w)
  discover_all_on fuel prefix (master ∷ masters) set w =
      let (conn, w1) = N.open_single master w in
      elim conn [
        | none ↦ discover_all_on fuel prefix masters set w1
        | some c ↦
            let (names, w2) = scan_streams fuel c prefix w1 in
            elim names [
              | none ↦ (none, w2)
              | some found ↦ discover_all_on fuel prefix masters (insert_names set found) w2
            ]
      ]

  unfoldable pub discover_all : ℕ → Target → W → Option (List Str) × W
  discover_all fuel target w =
      let (set, w) = discover_all_on fuel target.prefix target.masters [] w in
      (elim set [ none ↦ none | some names ↦ some (sort_by leb_str names) ], w)

  unfoldable pub node_counters : Str → W → List (Str × Str) × W
  node_counters addr w =
      let (conn, w1) = N.open_single addr w in
      elim conn [
        | none ↦ ([], w1)
        | some c ↦
            let (raw, w2) = N.query_string c (text "INFO" ∷ text "eventstream" ∷ []) w1 in
            (counters_of (lines (or_empty raw)) [], w2)
      ]

  -- The sum of `i64`.
  unfoldable pub counter_sum : List Str → Str → W → ℤ × W
  counter_sum [] field w = (pos 0, w)
  counter_sum (m ∷ masters) field w =
      let (counters, w) = node_counters m w in
      let (rest, w) = counter_sum masters field w in
      (of_bits (bits (parsed_or_zero (get_field counters field)) + bits rest), w)

module _ {W C : Type 0} (N : Net W C) (X : Crates) where
  unfoldable pub markers_of : Str → List StreamId → List GapMarker
  markers_of stream [] = []
  markers_of stream ((id, fields) ∷ ids) =
      gap_marker X (record { stream = stream; id = id; fields = fields }) ∷ markers_of stream ids

  unfoldable pub markers_in : Str → List (List StreamId) → List GapMarker
  markers_in stream [] = []
  markers_in stream (ids ∷ keys) = markers_of stream ids ++ markers_in stream keys

  -- The loop over the control streams; one that cannot be read is left out.
  unfoldable pub read_controls : C → List Str → Str → W → List GapMarker × W
  read_controls c [] from w = ([], w)
  read_controls c (stream ∷ controls) from w =
      let (reply, w) = N.xread c stream from w in
      let (rest, w) = read_controls c controls from w in
      (elim reply [ none ↦ rest | some keys ↦ markers_in stream keys ++ rest ], w)

  -- Behind the discovery of the streams: none for an error of the connection.
  unfoldable pub read_gap_markers_on : Target → Str → List Str → W → Option (List GapMarker) × W
  read_gap_markers_on target from [] w = (some [], w)
  read_gap_markers_on target from (stream ∷ controls) w =
      let (conn, w1) = N.open_rw target w in
      elim conn [
        | none ↦ (none, w1)
        | some c ↦
            let (out, w2) = read_controls c (stream ∷ controls) from w1 in
            (some (sort_by (λ a b. leb_str a.id b.id) out), w2)
      ]

  unfoldable pub read_gap_markers : ℕ → Target → Str → W → Option (List GapMarker) × W
  read_gap_markers fuel target from w =
      let (names, w1) = discover_all N fuel target w in
      elim names [
        | none ↦ (none, w1)
        | some found ↦ read_gap_markers_on target from (filter is_control found) w1
      ]
