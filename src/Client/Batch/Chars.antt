-- ===== src/Client/Batch/Chars.antt =====
-- src/capture.rs: the chars of the document of a batch, and its length.
use redis_event_stream_modul.Base.{
  ap, suc, ℤ, Str, Bytes, text, show_int, show_int-chars, is_digit, is_scalar, length,
  length-append, ℕ, ◌+◌, ◌≤◌, ◌==◌, ◌||◌, true, List, [], ◌∷◌, ◌++◌, ◌≡◌, refl, arith, All,
  All-append,
}
use redis_event_stream_modul.Encode.Json.{escape, escape_char, hex_digit, json_escape_into}
use redis_event_stream_modul.Encode.Base64.{base64, base64_into, digit64, chunk64}
use redis_event_stream_modul.Encode.Classes.{class_names, class_name, selected_names, join, named}
use redis_event_stream_modul.Encode.Event.{PendingEvent}
use redis_event_stream_modul.Encode.Document.{push_event, push_events, batch_data}
use redis_event_stream_modul.Encode.Document.RoundTrip.{
  item_text, item_text-brace, push_event-item_text,
}
use redis_event_stream_modul.Config.Filter.{NotifyEvent, Class, generic}

abbrev pub Scalars : Str → Type 0
Scalars s = All (λ c. is_scalar c ≡ true) s

escape_char-Scalars : (c : ℕ) → is_scalar c ≡ true → Scalars (escape_char c)
unfolding escape_char hex_digit
escape_char-Scalars c h = ground arith

escape-Scalars : (s : Str) → Scalars s → Scalars (escape s)
unfolding escape
escape-Scalars [] h = tt
escape-Scalars (c ∷ s) h =
    All-append _ (escape_char c) (escape s) (escape_char-Scalars c h.0) (escape-Scalars s h.1)

json_escape_into-Scalars :
    (s out : Str) → Scalars s → Scalars out → Scalars (json_escape_into s out)
unfolding json_escape_into
json_escape_into-Scalars s out h k =
    All-append _ out _ k (refl, All-append _ (escape s) _ (escape-Scalars s h) (refl, tt))

digit64-scalar : (i : ℕ) → is_scalar (digit64 i) ≡ true
unfolding digit64
digit64-scalar i = ground arith

base64-Scalars : (bytes : Bytes) → Scalars (base64 bytes)
unfolding base64 chunk64
base64-Scalars [] = tt
base64-Scalars (a ∷ []) = (digit64-scalar _, (digit64-scalar _, (refl, (refl, tt))))
base64-Scalars (a ∷ b ∷ []) = (digit64-scalar _, (digit64-scalar _, (digit64-scalar _, (refl, tt))))
base64-Scalars (a ∷ b ∷ c ∷ rest) = (
  digit64-scalar _,
  (digit64-scalar _, (digit64-scalar _, (digit64-scalar _, base64-Scalars rest))),
)

base64_into-Scalars : (bytes : Bytes) (out : Str) → Scalars out → Scalars (base64_into bytes out)
unfolding base64_into
base64_into-Scalars bytes out h = All-append _ out (base64 bytes) h (base64-Scalars bytes)

number_char-scalar : (c : ℕ) → (is_digit c || c == b'-') ≡ true → is_scalar c ≡ true
number_char-scalar c h = ground arith

number-Scalars : (s : Str) → All (λ c. (is_digit c || c == b'-') ≡ true) s → Scalars s
number-Scalars [] h = tt
number-Scalars (c ∷ s) h = (number_char-scalar c h.0, number-Scalars s h.1)

pub show_int-Scalars : (v : ℤ) → Scalars (show_int v)
show_int-Scalars v = number-Scalars (show_int v) (show_int-chars v)

class_name-Scalars : (c : Class) → Scalars (class_name c)
unfolding class_name
class_name-Scalars generic = ground arith
class_name-Scalars _ = ground arith

selected_names-Scalars :
    (class : NotifyEvent) (cs : List Class) → All Scalars (selected_names class cs)
unfolding selected_names
selected_names-Scalars class [] = tt
selected_names-Scalars class (c ∷ cs) =
    ground (arith, class_name-Scalars c, selected_names-Scalars class cs)

join-Scalars : (names : List Str) → All Scalars names → Scalars (join names)
unfolding join
join-Scalars [] h = tt
join-Scalars (s ∷ []) h = h.0
join-Scalars (s ∷ t ∷ ts) h = All-append _ s _ h.0 (refl, join-Scalars (t ∷ ts) h.1)

class_names-Scalars : (class : NotifyEvent) → Scalars (class_names class)
unfolding class_names
class_names-Scalars class = join-Scalars _ (selected_names-Scalars class named)

append-Scalars : (a b : Str) → Scalars a → Scalars b → Scalars (a ++ b)
append-Scalars a b h k = All-append _ a b h k

-- The name of an event is a `str`.
abbrev pub NameScalars : PendingEvent → Type 0
NameScalars e = Scalars e.event

push_event-Scalars :
    (e : PendingEvent) (out : Str) → NameScalars e → Scalars out → Scalars (push_event e out)
unfolding push_event
push_event-Scalars e out h k =
    let event = json_escape_into-Scalars e.event _ h (append-Scalars out _ k (ground arith)) in
    let key = base64_into-Scalars e.key _ (append-Scalars _ _ event (ground arith)) in
    let db = append-Scalars (show_int e.db) _ (show_int-Scalars e.db) (ground arith) in
    let members = append-Scalars _ _ key (append-Scalars (text "\",\"db\":") _ (ground arith) db) in
    append-Scalars _ _
      (json_escape_into-Scalars (class_names e.class) _ (class_names-Scalars e.class) members)
      (refl, tt)

push_events-Scalars :
    (es : List PendingEvent) (out : Str)
    → All NameScalars es
    → Scalars out
    → Scalars (push_events es out)
unfolding push_events
push_events-Scalars [] out h k = k
push_events-Scalars (e ∷ es) out h k =
    push_events-Scalars es _ h.1 (push_event-Scalars e _ h.0 (append-Scalars out _ k (refl, tt)))

pub batch_data-Scalars : (es : List PendingEvent) → All NameScalars es → Scalars (batch_data es)
unfolding batch_data
batch_data-Scalars [] h = ground arith
batch_data-Scalars (e ∷ es) h =
    append-Scalars _ _
      (push_events-Scalars es _ h.1 (push_event-Scalars e (text "[") h.0 (ground arith)))
      (ground arith)

length-push_event : (e : PendingEvent) (out : Str) → suc (length out) ≤ length (push_event e out)
length-push_event e out = omega (
  arith,
  length-append (push_event e out) [],
  length-append out (item_text e []),
  ap length (push_event-item_text e out []),
  ap length (item_text-brace e []).1,
)

length-push_events :
    (es : List PendingEvent) (out : Str) → length es + length out ≤ length (push_events es out)
unfolding push_events
length-push_events [] out = omega arith
length-push_events (e ∷ es) out = omega (
  arith,
  length-push_events es (push_event e (out ++ b',' ∷ [])),
  length-push_event e (out ++ b',' ∷ []),
  length-append out (b',' ∷ []),
)

-- The document of a batch is longer than the batch.
pub length-batch_data : (es : List PendingEvent) → length es ≤ length (batch_data es)
unfolding batch_data
length-batch_data [] = omega arith
length-batch_data (e ∷ es) = omega (
  arith,
  length-append (push_events es (push_event e (text "["))) (text "]"),
  length-push_events es (push_event e (text "[")),
  length-push_event e (text "["),
)
