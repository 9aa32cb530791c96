-- ===== src/Client/Reader/Delivery.antt =====
-- crates/eventstream-client/src/lib.rs: what repeated polls deliver of one stream.
use redis_event_stream_modul.Base.{
  inl, not, ◌<◌, Str, All-take, take, drop, length, take_all, ◌=s=◌, ℕ, zero, suc, ◌+◌, ◌*◌, ◌≤◌,
  Bool, true, false, List, [], ◌∷◌, ◌++◌, map, Option, none, some, ◌≡◌, refl, sym, ap, ◌∙◌, arith,
  All, filter, filter-sort_by, IsOrdered, count,
}
use redis_event_stream_modul.Client.Entry.{Value, PhysicalEntry}
use redis_event_stream_modul.Client.Reader.{
  entry_id_sort_key, leb_key, leb_entry, StreamId, Server, MergedReader, get_cursor, or_zero,
  poll_physical,
}
use redis_event_stream_modul.Client.Reader.Ids.{
  EntryId, InRange, show_id, precedes, Log, behind, written, IsLog, Serves, entry_id_sort_key-Names,
  leb_key-precedes,
}
use redis_event_stream_modul.Client.Reader.Merge.{
  after, after-written, All-after, AreCursors, read_round-AreCursors, entry_on, entry_of, last_of,
  read_round-once, filter_append,
}

-- `e` is at most `f`, by their keys.
abbrev leb_id : Str → Str → Bool
leb_id a b = leb_key (entry_id_sort_key a) (entry_id_sort_key b)

-- The ids increase, by the keys of their texts.
abbrev IsIncreasing : List StreamId → Type 0
IsIncreasing [] = Unit
IsIncreasing ((id, fields) ∷ ids) = All (λ e. leb_id e.0 id ≡ false) ids × IsIncreasing ids

leb_id_trans : (a b c : Str) → leb_id a b ≡ true → leb_id b c ≡ true → leb_id a c ≡ true
unfolding leb_key
leb_id_trans a b c h k = ground arith

leb_id_total : (a b : Str) → leb_id a b ≡ false → leb_id b a ≡ true
unfolding leb_key
leb_id_total a b h = ground arith

leb_id_refl : (a : Str) → leb_id a a ≡ true
unfolding leb_key
leb_id_refl a = ground arith

-- Behind a cursor the ids increase, and are all greater than the cursor.
after-greater : (c : Str) (l : List StreamId) → All (λ e. leb_id e.0 c ≡ false) (after c l)
unfolding after
after-greater c [] = tt
after-greater c ((id, fields) ∷ l) = ground (arith, after-greater c l)

after-IsIncreasing : (c : Str) (l : List StreamId) → IsIncreasing l → IsIncreasing (after c l)
unfolding after
after-IsIncreasing c [] h = tt
after-IsIncreasing c ((id, fields) ∷ l) h =
    ground (arith, after-IsIncreasing c l h.1, All-after (λ e. leb_id e.0 id ≡ false) c l h.0)

-- Behind a greater cursor there is nothing but what is behind it among the rest.
after-after : (c d : Str) (l : List StreamId) → leb_id c d ≡ true → after d (after c l) ≡ after d l
unfolding after
after-after c d [] h = refl
after-after c d ((id, fields) ∷ l) h = ground (arith, after-after c d l h, leb_id_trans id c d)

after_id : (d : Str) (l : List StreamId) → All (λ e. leb_id e.0 d ≡ false) l → after d l ≡ l
unfolding after
after_id d [] h = refl
after_id d ((id, fields) ∷ l) h = ground (arith, after_id d l h.1)

last_of-some :
    (ids : List StreamId) (o : Option Str)
    → or_zero (last_of ids o) ≡ or_zero (last_of ids (some (or_zero o)))
last_of-some [] none = refl
last_of-some [] (some c) = refl
last_of-some (x ∷ ids) o = refl

-- The cursor only moves on.
last_of_ge :
    (n : ℕ) (c : Str) (l : List StreamId)
    → IsIncreasing l
    → All (λ e. leb_id e.0 c ≡ false) l
    → leb_id c (or_zero (last_of (take n l) (some c))) ≡ true
last_of_ge zero c l i g = leb_id_refl c
last_of_ge (suc n) c [] i g = leb_id_refl c
last_of_ge (suc n) c ((id, fields) ∷ l) i g =
    leb_id_trans c id _ (leb_id_total id c g.0) (last_of_ge n id l i.1 i.0)

-- Behind the last of the first `n` entries there are the others.
after-last_of :
    (n : ℕ) (c : Str) (l : List StreamId)
    → IsIncreasing l
    → All (λ e. leb_id e.0 c ≡ false) l
    → after (or_zero (last_of (take n l) (some c))) l ≡ drop n l
unfolding after
after-last_of zero c l i g = after_id c l g
after-last_of (suc n) c [] i g = refl
after-last_of (suc n) c ((id, fields) ∷ l) i g =
    rw (last_of_ge n id l i.1 i.0) (after-last_of n id l i.1 i.0)

-- What a poll leaves behind the cursor.
after-share :
    (n : ℕ) (o : Option Str) (l : List StreamId)
    → IsIncreasing l
    → after (or_zero (last_of (take n (after (or_zero o) l)) o)) l ≡ drop n (after (or_zero o) l)
after-share n o l i =
    let c = or_zero o in
    let i' = after-IsIncreasing c l i in
    let g = after-greater c l in
    let D = or_zero (last_of (take n (after c l)) (some c)) in
    ap (λ d. after d l) (last_of-some (take n (after c l)) o)
    ∙ sym (after-after c D l (last_of_ge n c (after c l) i' g))
    ∙ after-last_of n c (after c l) i' g

entries-All :
    (s id : Str) (fields : Str → Option Value) (l : List StreamId)
    → All (λ e. leb_id e.0 id ≡ false) l
    → All (λ y. leb_entry (entry_of s (id, fields)) y ≡ true) (map (entry_of s) l)
unfolding leb_entry
entries-All s id fields [] h = tt
entries-All s id fields ((id', fields') ∷ l) h =
    (leb_id_total id' id h.0, entries-All s id fields l h.1)

entries-IsOrdered :
    (s : Str) (l : List StreamId) → IsIncreasing l → IsOrdered leb_entry (map (entry_of s) l)
unfolding leb_entry
entries-IsOrdered s [] i = tt
entries-IsOrdered s ((id, fields) ∷ l) i =
    (entries-All s id fields l i.0, entries-IsOrdered s l i.1)

take-IsIncreasing : (n : ℕ) (l : List StreamId) → IsIncreasing l → IsIncreasing (take n l)
take-IsIncreasing zero l i = tt
take-IsIncreasing (suc n) [] i = tt
take-IsIncreasing (suc n) ((id, fields) ∷ l) i =
    (All-take (λ e. leb_id e.0 id ≡ false) n l i.0, take-IsIncreasing n l i.1)

zero_mul : (m : ℕ) → 0 ≡ 0 * m
zero_mul m = omega arith

suc_mul : (k m : ℕ) → suc k * m ≡ m + k * m
suc_mul k m = ground arith

zero_add : (m : ℕ) → 0 + m ≡ m
zero_add m = omega arith

suc_add : (n m : ℕ) → suc n + m ≡ suc (n + m)
suc_add n m = omega arith

abbrev no_entries : List StreamId
no_entries = []

take_nil : (m : ℕ) → no_entries ≡ take m no_entries
take_nil zero = refl
take_nil (suc m) = refl

take-add : (n m : ℕ) (l : List StreamId) → take (n + m) l ≡ take n l ++ take m (drop n l)
take-add zero m l = ap (λ j. take j l) (zero_add m)
take-add (suc n) m [] = ap (λ j. take j []) (suc_add n m) ∙ take_nil m
take-add (suc n) m (x ∷ l) =
    ap (λ j. take j (x ∷ l)) (suc_add n m) ∙ ap (λ r. x ∷ r) (take-add n m l)

-- The batches of `k` polls in turn.
unfoldable pub delivered : {W : Type 0} → Server W → ℕ → MergedReader → ℕ → W → List PhysicalEntry
delivered S zero reader limit w = []
delivered S (suc k) reader limit w =
    let ((reader, batch), w) = poll_physical S reader limit w in
    batch ++ delivered S k reader limit w

map-append :
    (s : Str) (a b : List StreamId)
    → map (entry_of s) (a ++ b) ≡ map (entry_of s) a ++ map (entry_of s) b
map-append s [] b = refl
map-append s (x ∷ a) b = ap (λ r. entry_of s x ∷ r) (map-append s a b)

length-written : (l : Log) → length (written l) ≡ length l
unfolding written
length-written [] = refl
length-written ((id, fields) ∷ l) = ap suc (length-written l)

written-All :
    (id : EntryId) (l : Log)
    → InRange id
    → IsLog l
    → All (λ e. precedes id e.0 ≡ true) l
    → All (λ e. leb_id e.0 (show_id id) ≡ false) (written l)
unfolding written
written-All id [] r h k = tt
written-All id ((e, fields) ∷ l) r h k = (
  rw
      (
        entry_id_sort_key-Names (show_id id) id (inl refl, r),
        entry_id_sort_key-Names (show_id e) e (inl refl, h.0),
        leb_key-precedes e id,
      )
      (ap not k.0),
  written-All id l r h.2 k.1,
)

written-IsIncreasing : (l : Log) → IsLog l → IsIncreasing (written l)
unfolding written
written-IsIncreasing [] h = tt
written-IsIncreasing ((id, fields) ∷ l) h =
    (written-All id l h.0 h.2 h.1, written-IsIncreasing l h.2)

module _ {W : Type 0} (S : Server W) (log : Str → Log) (logs : (t : Str) → IsLog (log t))
    (limit : ℕ) (positive : 0 < limit) (serves : Serves S log limit) (s : Str) where
  increasing : IsIncreasing (written (log s))
  increasing = written-IsIncreasing (log s) (logs s)

  -- What waits behind the cursor of the stream.
  abbrev waiting : MergedReader → List StreamId
  waiting reader = after (or_zero (get_cursor reader.cursors s)) (written (log s))

  -- A poll delivers the first of what waits, as it stands in the log, and leaves the rest.
  poll_physical-share :
      (reader : MergedReader) (w : W)
      → AreCursors reader.cursors
      → count (λ t. t =s= s) reader.streams ≡ 1
      → let ((next, batch), w') = poll_physical S reader limit w in
        (filter (entry_on s) batch ≡ map (entry_of s) (take limit (waiting reader)))
        × (waiting next ≡ drop limit (waiting reader))
        × (next.streams ≡ reader.streams)
        × AreCursors next.cursors
  unfolding poll_physical
  poll_physical-share reader w named once =
      let (cursor, batch) =
        read_round-once S log logs limit positive serves s reader.streams reader.cursors w named
          once in
      let ordered = entries-IsOrdered s (take limit (waiting reader)) (
        take-IsIncreasing limit (waiting reader) (
          after-IsIncreasing (or_zero (get_cursor reader.cursors s)) (written (log s))
            increasing)) in
      (
        filter-sort_by leb_entry (entry_on s) _ (rw batch ordered) ∙ batch,
        ap (λ o. after (or_zero o) (written (log s))) cursor
            ∙ after-share limit (get_cursor reader.cursors s) (written (log s)) increasing,
        refl,
        read_round-AreCursors S log logs limit positive serves reader.streams reader.cursors w
            named,
      )

  delivered-waiting :
      (k : ℕ) (reader : MergedReader) (w : W)
      → AreCursors reader.cursors
      → count (λ t. t =s= s) reader.streams ≡ 1
      → filter (entry_on s) (delivered S k reader limit w)
        ≡ map (entry_of s) (take (k * limit) (waiting reader))
  unfolding delivered
  delivered-waiting zero reader w named once =
      unfold filter in ap (λ j. map (entry_of s) (take j (waiting reader))) (zero_mul limit)
  delivered-waiting (suc k) reader w named once =
      let (batch, rest, streams, named') = poll_physical-share reader w named once in
      let ((next, entries), w') = poll_physical S reader limit w in
      filter_append s entries (delivered S k next limit w')
      ∙ ap (λ a. a ++ filter (entry_on s) (delivered S k next limit w')) batch
      ∙ ap (λ b. map (entry_of s) (take limit (waiting reader)) ++ b)
          (delivered-waiting k next w' named' (rw streams once)
            ∙ ap (λ l. map (entry_of s) (take (k * limit) l)) rest)
      ∙ sym (
          map-append s (take limit (waiting reader))
            (take (k * limit) (drop limit (waiting reader))))
      ∙ ap (map (entry_of s)) (sym (take-add limit (k * limit) (waiting reader)))
      ∙ ap (λ j. map (entry_of s) (take j (waiting reader))) (sym (suc_mul k limit))

  waiting-behind :
      (reader : MergedReader) (named : AreCursors reader.cursors)
      → waiting reader ≡ written (behind (named s).0 (log s))
  waiting-behind reader named =
      after-written (or_zero (get_cursor reader.cursors s)) (named s).0 (log s) (named s).1 (logs s)

  -- On a server whose logs, with ids in increasing order, do not change, and that answers every read
  -- with the first entries behind the id of the cursor, without an error; with a positive limit, and
  -- from a reader that names the stream once and whose cursors are `0` or entry ids: polling delivers
  -- every entry of the stream behind its cursor, each once and in the order of the log, once the polls,
  -- each up to the limit, are enough for their number.
  pub delivered_all :
      (k : ℕ) (reader : MergedReader) (w : W) (named : AreCursors reader.cursors)
      → count (λ t. t =s= s) reader.streams ≡ 1
      → length (behind (named s).0 (log s)) ≤ k * limit
      → filter (entry_on s) (delivered S k reader limit w)
        ≡ map (entry_of s) (written (behind (named s).0 (log s)))
  delivered_all k reader w named once enough =
      let here = waiting-behind reader named in
      delivered-waiting k reader w named once
      ∙ ap (λ l. map (entry_of s) (take (k * limit) l)) here
      ∙ ap (map (entry_of s)) (
          take_all (k * limit) (written (behind (named s).0 (log s)))
            (rw (length-written (behind (named s).0 (log s))) enough))
