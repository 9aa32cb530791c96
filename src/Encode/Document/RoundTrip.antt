-- ===== src/Encode/Document/RoundTrip.antt =====
-- src/capture.rs: the `batch-v1` document under its reader.
use mathlib.Core.List.{append_assoc}
use redis_event_stream_modul.Base.{
  =s=-refl, Str, Bytes, Option, text, show_int, parse_signed-show_int, show_int-chars, InSigned,
  zero, suc, ℕ, ◌^◌, ◌≤◌, ◌<◌, ℤ, true, List, [], ◌∷◌, ◌++◌, map, some, length, ◌≡◌, ◌≢◌, refl, ◌∙◌,
  arith, All,
}
use redis_event_stream_modul.Encode.Json.{
  read_string, plain, escape, quote, backslash, read_string-escape, json_escape_into,
}
use redis_event_stream_modul.Encode.Base64.{
  base64, base64_into, decode64, decode64-base64, base64_chars,
}
use redis_event_stream_modul.Encode.Classes.{class_names}
use redis_event_stream_modul.Encode.Event.{PendingEvent}
use redis_event_stream_modul.Encode.Document.{push_event, push_events, batch_data}
use redis_event_stream_modul.Encode.Document.Reader.{
  Item, read_first, read_batch, expect, is_number_char, span_number, read_db, read_item, read_items,
}

-- What a consumer should see of an event, its key as `value` gives it.
abbrev pub item_with : {K : Type 0} → (PendingEvent → K) → PendingEvent → Item K
item_with value e = record {
  event = e.event;
  key = value e;
  db = e.db;
  class = class_names e.class;
}

abbrev pub item_of : PendingEvent → Item Bytes
item_of = item_with (λ e. e.key)

-- The object of an event, with the text that follows it.
pub item_text : PendingEvent → Str → Str
item_text e rest =
    text "{\"event\":\""
    ++ (escape e.event
        ++ quote
          ∷ (text ",\"key\":\""
              ++ (base64 e.key
                  ++ quote
                    ∷ (text ",\"db\":"
                        ++ (show_int e.db
                            ++ (text ",\"class\":\""
                                ++ (escape (class_names e.class)
                                    ++ quote ∷ (text "}" ++ rest))))))))

-- The object begins with its brace.
pub item_text-brace : (e : PendingEvent) (rest : Str) → (t : Str) × (item_text e rest ≡ b'{' ∷ t)
unfolding item_text
item_text-brace e rest = (_, refl)

pub push_event-item_text :
    (e : PendingEvent) (out rest : Str) → push_event e out ++ rest ≡ out ++ item_text e rest
unfolding push_event item_text json_escape_into base64_into
push_event-item_text e out rest = simp append_assoc

expect-append : (p s : Str) → expect p (p ++ s) ≡ some s
unfolding expect
expect-append [] s = refl
expect-append (c ∷ p) s = ground (arith, expect-append p s)

read_string-plain :
    (s rest : Str)
    → All (λ c. (c ≢ quote) × (c ≢ backslash) × (32 ≤ c)) s
    → read_string plain (s ++ quote ∷ rest) ≡ some (s, rest)
unfolding read_string
read_string-plain [] rest h = refl
read_string-plain (c ∷ s) rest h = ground (arith, read_string-plain s rest h.1)

span_number-append :
    (s rest : Str)
    → All (λ c. is_number_char c ≡ true) s
    → span_number (s ++ b',' ∷ rest) ≡ (s, b',' ∷ rest)
unfolding span_number
span_number-append [] rest h = refl
span_number-append (c ∷ s) rest h = ground (arith, span_number-append s rest h.1)

read_db-show_int :
    (db : ℤ) (rest : Str)
    → InSigned (2 ^ 31) db
    → read_db (show_int db ++ b',' ∷ rest) ≡ some (db, b',' ∷ rest)
unfolding read_db
read_db-show_int db rest h =
    rw (span_number-append (show_int db) rest (show_int-chars db))
      (rw (parse_signed-show_int (2 ^ 31) db h) (rw (=s=-refl (show_int db)) refl))

-- The key holds bytes, and the database number is an `i32`.
abbrev pub IsEncodable : PendingEvent → Type 0
IsEncodable e = All (λ b. b < 256) e.key × InSigned (2 ^ 31) e.db

-- The objects behind the first, each after a comma.
items_text : List PendingEvent → Str → Str
items_text [] rest = rest
items_text (e ∷ es) rest = b',' ∷ item_text e (items_text es rest)

push_events-items_text :
    (es : List PendingEvent) (out rest : Str)
    → push_events es out ++ rest ≡ out ++ items_text es rest
unfolding push_events items_text
push_events-items_text [] out rest = refl
push_events-items_text (e ∷ es) out rest =
    push_events-items_text es (push_event e (out ++ b',' ∷ [])) rest
    ∙ push_event-item_text e (out ++ b',' ∷ []) (items_text es rest)
    ∙ append_assoc out (b',' ∷ []) _

module _ {K : Type 0} (read_key : Str → Option K) (value : PendingEvent → K)
    (reads : (e : PendingEvent) → IsEncodable e → read_key (base64 e.key) ≡ some (value e)) where
  read_item-item_text :
      (e : PendingEvent) (rest : Str)
      → IsEncodable e
      → read_item read_key (item_text e rest) ≡ some (item_with value e, rest)
  unfolding read_item item_text
  read_item-item_text e rest h =
      rw
        (
          expect-append,
          read_string-escape,
          expect-append,
          read_string-plain (base64 e.key) _ (base64_chars e.key),
          reads e h,
          expect-append,
          read_db-show_int e.db _ h.1,
          expect-append (text ",\"class\":\""),
          read_string-escape,
          expect-append,
        )
        refl

  read_items-items_text :
      (f : ℕ) (es : List PendingEvent)
      → All IsEncodable es
      → length es < f
      → read_items read_key f (items_text es (text "]")) ≡ some (map (item_with value) es)
  unfolding read_items items_text
  read_items-items_text zero es h k = elim k [ ]
  read_items-items_text (suc f) [] h k = refl
  read_items-items_text (suc f) (e ∷ es) h k =
      rw (read_item-item_text e (items_text es (text "]")) h.0)
        (rw (read_items-items_text f es h.1 (omega arith)) refl)

  read_first-item_text :
      (f : ℕ) (e : PendingEvent) (es : List PendingEvent)
      → All IsEncodable (e ∷ es)
      → length (e ∷ es) ≤ f
      → read_first read_key f (item_text e (items_text es (text "]")))
        ≡ some (map (item_with value) (e ∷ es))
  unfolding read_first
  read_first-item_text f e es h k =
      let (t, u) = item_text-brace e (items_text es (text "]")) in
      rw u (
        rw (← u) (
          rw (read_item-item_text e (items_text es (text "]")) h.0)
            (rw (read_items-items_text f es h.1 k) refl)))

  -- The document of a batch, under a reader of keys that reads the text of each.
  pub read_batch_with :
      (f : ℕ) (es : List PendingEvent)
      → All IsEncodable es
      → length es ≤ f
      → read_batch read_key f (batch_data es) ≡ some (map (item_with value) es)
  unfolding read_batch batch_data
  read_batch_with f [] h k = unfold expect read_first in refl
  read_batch_with f (e ∷ es) h k =
      rw (push_events-items_text es (push_event e (text "[")) (text "]")) (
        rw (push_event-item_text e (text "[") (items_text es (text "]")))
          (rw (expect-append (text "[")) (read_first-item_text f e es h k)))

-- Whatever events are batched, their document reads back as the events in their order, each with its
-- name, its key bytes, its database and its class names.
pub read_batch-batch_data :
    (f : ℕ) (es : List PendingEvent)
    → All IsEncodable es
    → length es ≤ f
    → read_batch decode64 f (batch_data es) ≡ some (map item_of es)
read_batch-batch_data = read_batch_with decode64 (λ e. e.key) (λ e h. decode64-base64 e.key h.0)
