-- ===== src/Config/Filter.antt =====
-- src/config.rs: the event filter, `parse_filter` and `ParsedFilter`.
pub mod Laws
use redis_event_stream_modul.Base.{
  Str, text, trim, split, is_empty, is_whitespace, any, ◌=s=◌, ℕ, Bool, true, false, ◌&&◌, ◌||◌,
  List, [], ◌∷◌, ◌++◌, map, Option, none, some, ◌==◌, if◌then◌else◌,
}
use redis_event_stream_modul.Base.Result.{Result, ok, err, for_each}
use redis_event_stream_modul.Config.Error.{
  ConfigError, empty_filter_token, uncapturable, unknown_class, whitespace_in_name,
}

-- The flags of `NotifyEvent` that the grammar names. `module_keys` is `MODULE`.
pub data Class : Type 0 where
  generic string list set hash zset stream expired evicted module_keys missed new : Class

abbrev pub class_index : Class → ℕ
class_index generic = 0
class_index string = 1
class_index list = 2
class_index set = 3
class_index hash = 4
class_index zset = 5
class_index stream = 6
class_index expired = 7
class_index evicted = 8
class_index module_keys = 9
class_index missed = 10
class_index new = 11

abbrev pub class_eq : Class → Class → Bool
class_eq a b = class_index a == class_index b

-- A set of flags. `|` is `++`.
abbrev pub NotifyEvent : Type 0
NotifyEvent = List Class

unfoldable pub has_class : NotifyEvent → Class → Bool
has_class [] c = false
has_class (d ∷ ds) c = class_eq d c || has_class ds c

unfoldable pub intersects : NotifyEvent → NotifyEvent → Bool
intersects [] e = false
intersects (c ∷ cs) e = has_class e c || intersects cs e

pub record ParsedFilter : Type 0 where
  pub star : Bool
  pub classes : NotifyEvent
  pub names : List Str

abbrev pub default_filter : ParsedFilter
default_filter = record { star = false; classes = []; names = [] }

unfoldable pub has_name : List Str → Str → Bool
has_name [] s = false
has_name (t ∷ ts) s = t =s= s || has_name ts s

unfoldable pub matches : ParsedFilter → NotifyEvent → Str → Bool
matches f event_type event = f.star || intersects f.classes event_type || has_name f.names event

unfoldable pub class_bit : Str → Option Class
class_bit class =
    if class =s= text "generic"
    then some generic
    else if class =s= text "string"
    then some string
    else if class =s= text "list"
    then some list
    else if class =s= text "set"
    then some set
    else if class =s= text "hash"
    then some hash
    else if class =s= text "zset"
    then some zset
    else if class =s= text "stream"
    then some stream
    else if class =s= text "expired"
    then some expired
    else if class =s= text "evicted"
    then some evicted
    else if class =s= text "module"
    then some module_keys
    else if class =s= text "missed"
    then some missed
    else if class =s= text "new"
    then some new
    else none

-- The classes with a reason of their own in the error.
unfoldable pub uncapturable_class : Str → Bool
uncapturable_class class = class =s= text "loaded" || class =s= text "trimmed"

unfoldable pub strip_at : Str → Option Str
strip_at [] = none
strip_at (c ∷ s) = if c == b'@' then some s else none

-- The token after `@`: its flag, or the error.
unfoldable pub class_token : Str → Result ConfigError Class
class_token class = elim (class_bit class) [
  | some bit ↦ ok bit
  | none ↦ if uncapturable_class class then err (uncapturable class) else err (unknown_class class)
]

-- The loop body of `parse_filter`, after the trim.
unfoldable pub filter_token : ParsedFilter → Str → Result ConfigError ParsedFilter
filter_token f token =
    if is_empty token
    then err empty_filter_token
    else if token =s= text "*"
    then ok (record f { star = true })
    else elim (strip_at token) [
      | some class ↦ elim (class_token class) [
        | ok bit ↦ ok (record f { classes = f.classes ++ bit ∷ [] })
        | err e ↦ err e
      ]
      | none ↦
          if any is_whitespace token
          then err (whitespace_in_name token)
          else ok (record f { names = token ∷ f.names })
    ]

unfoldable pub parse_filter : Str → Result ConfigError ParsedFilter
parse_filter s = for_each filter_token default_filter (map trim (split b',' s))
