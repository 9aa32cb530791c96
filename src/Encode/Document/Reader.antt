-- ===== src/Encode/Document/Reader.antt =====
-- A reader of the `batch-v1` document, as the specification of its writer.
use redis_event_stream_modul.Base.{
  show_int, ◌=s=◌, Str, text, parse_signed, zero, suc, ℕ, ◌^◌, ℤ, Bool, ◌==◌, ◌||◌, List, [], ◌∷◌,
  Option, none, some, if◌then◌else◌, is_digit,
}
use redis_event_stream_modul.Encode.Json.{read_string, plain}

infixl 5 ◌>>=◌
abbrev pub ◌>>=◌ {ℓ κ} : {A : Type ℓ} {B : Type κ} → Option A → (A → Option B) → Option B
none >>= f = none
some a >>= f = f a

-- One event as a consumer sees it, with its key as the reader of keys gives it.
pub record Item (K : Type 0) : Type 0 where
  pub event : Str
  pub key : K
  pub db : ℤ
  pub class : Str

-- The text behind the given one.
unfoldable pub expect : Str → Str → Option Str
expect [] s = some s
expect (c ∷ p) [] = none
expect (c ∷ p) (d ∷ s) = let rest = expect p s in if c == d then rest else none

abbrev pub is_number_char : ℕ → Bool
is_number_char c = is_digit c || c == b'-'

-- The longest beginning of number chars, and the rest.
unfoldable pub span_number : Str → Str × Str
span_number [] = ([], [])
span_number (c ∷ s) =
    let (n, rest) = span_number s in if is_number_char c then (c ∷ n, rest) else ([], c ∷ s)

-- The number in its canonical form.
unfoldable pub read_db : Str → Option (ℤ × Str)
read_db s =
    let (n, rest) = span_number s in
    do db ← parse_signed (2 ^ 31) n; if show_int db =s= n then some (db, rest) else none

-- The items are complete at the end of the text only.
abbrev at_end : {K : Type 0} → Str → Option (List (Item K))
at_end [] = some []
at_end (c ∷ s) = none

module _ {K : Type 0} (read_key : Str → Option K) where
  unfoldable pub read_item : Str → Option (Item K × Str)
  read_item s = do
    s ← expect (text "{\"event\":\"") s
    (event, s) ← read_string plain s
    s ← expect (text ",\"key\":\"") s
    (key64, s) ← read_string plain s
    key ← read_key key64
    s ← expect (text ",\"db\":") s
    (db, s) ← read_db s
    s ← expect (text ",\"class\":\"") s
    (class, s) ← read_string plain s
    s ← expect (text "}") s
    some (record { event = event; key = key; db = db; class = class }, s)

  -- The items behind the first, up to the `]` that ends the text; the fuel bounds their number.
  unfoldable pub read_items : ℕ → Str → Option (List (Item K))
  read_items zero s = none
  read_items (suc f) [] = none
  read_items (suc f) (c ∷ s) =
      let more = (do (item, rest) ← read_item s; items ← read_items f rest; some (item ∷ items)) in
      if c == b',' then more else if c == b']' then at_end s else none

  -- The items between the brackets, behind the `[`.
  unfoldable pub read_first : ℕ → Str → Option (List (Item K))
  read_first f [] = none
  read_first f (c ∷ s) =
      if c == b']'
      then at_end s
      else do (item, rest) ← read_item (c ∷ s); items ← read_items f rest; some (item ∷ items)

  unfoldable pub read_batch : ℕ → Str → Option (List (Item K))
  read_batch f s = do rest ← expect (text "[") s; read_first f rest
