-- ===== src/Encode/Classes.antt =====
-- src/capture.rs: `class_names`.
use redis_event_stream_modul.Base.{
  Str, text, List, [], ◌∷◌, ◌++◌, if◌then◌else◌, some, ◌≡◌, refl, ◌=s=◌,
}
use redis_event_stream_modul.Config.Filter.{
  Class, generic, string, list, set, hash, zset, stream, expired, evicted, module_keys, missed, new,
  NotifyEvent, has_class, class_bit,
}

unfoldable pub class_name : Class → Str
class_name generic = text "generic"
class_name string = text "string"
class_name list = text "list"
class_name set = text "set"
class_name hash = text "hash"
class_name zset = text "zset"
class_name stream = text "stream"
class_name expired = text "expired"
class_name evicted = text "evicted"
class_name module_keys = text "module"
class_name missed = text "missed"
class_name new = text "new"

-- The array `named`, in its order.
abbrev pub named : List Class
named =
    generic ∷ string ∷ list ∷ set ∷ hash ∷ zset ∷ stream ∷ expired ∷ evicted ∷ module_keys ∷ missed
    ∷ new ∷ []

unfoldable pub selected_names : NotifyEvent → List Class → List Str
selected_names class [] = []
selected_names class (c ∷ cs) =
    let rest = selected_names class cs in if has_class class c then class_name c ∷ rest else rest

-- `join(",")`
unfoldable pub join : List Str → Str
join [] = []
join (s ∷ []) = s
join (s ∷ t ∷ ts) = s ++ b',' ∷ join (t ∷ ts)

unfoldable pub class_names : NotifyEvent → Str
class_names class = join (selected_names class named)

-- The grammar of the event filter reads each name back as its class.
pub class_bit-class_name : (c : Class) → class_bit (class_name c) ≡ some c
unfolding class_bit class_name ◌=s=◌
class_bit-class_name generic = refl
class_bit-class_name _ = refl
