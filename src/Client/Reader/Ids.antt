-- ===== src/Client/Reader/Ids.antt =====
-- The logs of the server: entry ids and `XREAD`, as Redis documents them, for the merged reader of
-- crates/eventstream-client/src/lib.rs.
use redis_event_stream_modul.Base.{
  Str, text, show_nat, show_digits-digits, is_digit, split_once, parse_unsigned,
  parse_unsigned-show_nat, read_nat, read_digits, ltb, ◌==◌, ◌||◌, ◌&&◌, not, ℕ, ◌-◌, ◌^◌, ◌<◌, ◌⊎◌,
  Bool, true, List, [], ◌∷◌, ◌++◌, Option, some, take, if◌then◌else◌, ◌≡◌, refl, sym, ap, ◌∙◌, inl,
  inr, arith, All,
}
use redis_event_stream_modul.Client.Entry.{Value}
use redis_event_stream_modul.Client.Reader.{StreamId, Server, entry_id_sort_key, leb_key}

-- An id is a time in milliseconds and a sequence number.
abbrev pub EntryId : Type 0
EntryId = ℕ × ℕ

abbrev pub InRange : EntryId → Type 0
InRange id = (id.0 < 2 ^ 64) × (id.1 < 2 ^ 64)

unfoldable pub show_id : EntryId → Str
show_id id = show_nat id.0 ++ b'-' ∷ show_nat id.1

-- The strict order of ids.
unfoldable pub precedes : EntryId → EntryId → Bool
precedes a b = ltb a.0 b.0 || a.0 == b.0 && ltb a.1 b.1

abbrev pub Log : Type 0
Log = List (EntryId × (Str → Option Value))

-- The entries behind an id.
unfoldable pub behind : EntryId → Log → Log
behind c [] = []
behind c ((id, fields) ∷ l) =
    let rest = behind c l in if precedes c id then (id, fields) ∷ rest else rest

-- The entries as a reply writes them.
unfoldable pub written : Log → List StreamId
written [] = []
written ((id, fields) ∷ l) = (show_id id, fields) ∷ written l

-- The ids of a log are in range and increase.
abbrev pub IsLog : Log → Type 0
IsLog [] = Unit
IsLog ((id, fields) ∷ l) = InRange id × All (λ e. precedes id e.0 ≡ true) l × IsLog l

-- What names the id: its two numbers, or `0` for the first of all.
abbrev pub Names : Str → EntryId → Type 0
Names cursor id = ((cursor ≡ show_id id) ⊎ ((cursor ≡ text "0") × (id ≡ (0, 0)))) × InRange id

abbrev pub IsCursor : Str → Type 0
IsCursor cursor = (id : EntryId) × Names cursor id

-- The reply of the server to one stream: a key with entries, or none at all.
abbrev pub reply_of : List StreamId → List (List StreamId)
reply_of [] = []
reply_of (x ∷ ids) = (x ∷ ids) ∷ []

-- `XREAD COUNT` of a positive count, behind the id that the cursor names, replies with the first entries
-- of the log behind that id, as many as were asked for; a stream without such entries is left out of the
-- reply. Nothing is said of a cursor that names no id.
abbrev pub Serves : {W : Type 0} → Server W → (Str → Log) → ℕ → Type 0
Serves {W} S log limit =
    (s cursor : Str) (id : EntryId) (w : W)
    → Names cursor id
    → 0 < limit
    → S.xread limit s cursor w ≡ (some (reply_of (take limit (written (behind id (log s))))), w)

split_once-digits :
    (s t : Str) → All (λ c. is_digit c ≡ true) s → split_once b'-' (s ++ b'-' ∷ t) ≡ some (s, t)
unfolding split_once
split_once-digits [] t h = refl
split_once-digits (c ∷ s) t h = ground (arith, split_once-digits s t h.1)

show_nat-digits : (n : ℕ) → All (λ c. is_digit c ≡ true) (show_nat n)
unfolding show_nat
show_nat-digits n = show_digits-digits n n

entry_id_sort_key-show_id : (id : EntryId) → InRange id → entry_id_sort_key (show_id id) ≡ id
unfolding entry_id_sort_key show_id
entry_id_sort_key-show_id id h =
    rw (split_once-digits (show_nat id.0) (show_nat id.1) (show_nat-digits id.0), entry_id_sort_key)
      (rw
        (
          parse_unsigned-show_nat (2 ^ 64 - 1) id.0 (omega (arith, h.0)),
          parse_unsigned-show_nat (2 ^ 64 - 1) id.1 (omega (arith, h.1)),
        )
        refl)

entry_id_sort_key-zero : entry_id_sort_key (text "0") ≡ (0, 0)
unfolding entry_id_sort_key split_once parse_unsigned read_nat read_digits
entry_id_sort_key-zero = refl

pub entry_id_sort_key-Names :
    (cursor : Str) (id : EntryId) → Names cursor id → entry_id_sort_key cursor ≡ id
entry_id_sort_key-Names cursor id (inl e, r) =
    ap entry_id_sort_key e ∙ entry_id_sort_key-show_id id r
entry_id_sort_key-Names cursor id (inr (e, z), r) =
    ap entry_id_sort_key e ∙ entry_id_sort_key-zero ∙ sym z

pub leb_key-precedes : (a b : EntryId) → leb_key a b ≡ not (precedes b a)
unfolding leb_key precedes
leb_key-precedes a b = ground arith

-- The entries of a log have cursors for ids.
pub written-IsCursor : (l : Log) → IsLog l → All (λ e. IsCursor e.0) (written l)
unfolding written
written-IsCursor [] h = tt
written-IsCursor ((id, fields) ∷ l) h = ((id, (inl refl, h.0)), written-IsCursor l h.2)
