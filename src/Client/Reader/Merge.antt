-- ===== src/Client/Reader/Merge.antt =====
-- crates/eventstream-client/src/lib.rs: the order of a batch, and the share of one stream in a round.
use mathlib.Core.Path.{subst}
use mathlib.Core.List.{append-nil}
use redis_event_stream_modul.Base.{
  ◌<◌, All, All-take, Str, take, ◌=s=◌, =s=-refl, =s=-eq, ℕ, Bool, true, false, List, [], ◌∷◌, ◌++◌,
  map, Option, some, if◌then◌else◌, ◌≡◌, refl, sym, ap, ◌∙◌, inl, inr, arith, Bool-cases, filter,
  count,
}
use redis_event_stream_modul.Client.Entry.{PhysicalEntry}
use redis_event_stream_modul.Client.Reader.Ids.{
  EntryId, show_id, Log, behind, written, IsLog, Names, IsCursor, reply_of, Serves,
  entry_id_sort_key-Names, leb_key-precedes, written-IsCursor,
}
use redis_event_stream_modul.Client.Reader.{
  entry_id_sort_key, leb_key, leb_entry, StreamId, Server, get_cursor, insert_cursor, or_zero,
  take_ids, take_keys, read_round,
}

pub leb_entry_total : (a b : PhysicalEntry) → leb_entry a b ≡ false → leb_entry b a ≡ true
unfolding leb_entry leb_key
leb_entry_total a b h = ground arith

-- An entry of the stream.
abbrev pub entry_on : Str → PhysicalEntry → Bool
entry_on s e = e.stream =s= s

abbrev pub entry_of : Str → StreamId → PhysicalEntry
entry_of s (id, fields) = record { stream = s; id = id; fields = fields }

pub filter_append :
    (s : Str) (a b : List PhysicalEntry)
    → filter (entry_on s) (a ++ b) ≡ filter (entry_on s) a ++ filter (entry_on s) b
unfolding filter
filter_append s [] b = refl
filter_append s (x ∷ a) b = ground (arith, filter_append s a b)

pub get-insert_same :
    (c : List (Str × Str)) (s v : Str) → get_cursor (insert_cursor c s v) s ≡ some v
unfolding get_cursor insert_cursor
get-insert_same [] s v = rw (=s=-refl s) refl
get-insert_same ((n, o) ∷ c) s v = ground (arith, get-insert_same c s v)

get-insert_other :
    (c : List (Str × Str)) (s t v : Str)
    → (s =s= t) ≡ false
    → get_cursor (insert_cursor c s v) t ≡ get_cursor c t
unfolding get_cursor insert_cursor
get-insert_other [] s t v h = rw h refl
get-insert_other ((n, o) ∷ c) s t v h = elim (Bool-cases (n =s= s)) [
  | inl e ↦ rw e (rw (=s=-eq n s e) (rw h refl))
  | inr e ↦ rw e (ground (arith, get-insert_other c s t v h))
]

-- The cursor behind the entries.
abbrev pub last_of : List StreamId → Option Str → Option Str
last_of [] cursor = cursor
last_of ((id, fields) ∷ ids) cursor = last_of ids (some id)

-- What the ids of a stream do to its own cursor and to the batch.
take_ids_same :
    (s : Str) (ids : List StreamId) (c : List (Str × Str))
    → (get_cursor (take_ids s ids c).0 s ≡ last_of ids (get_cursor c s))
      × (filter (entry_on s) (take_ids s ids c).1 ≡ map (entry_of s) ids)
unfolding take_ids filter
take_ids_same s [] c = (refl, refl)
take_ids_same s ((id, fields) ∷ ids) c =
    let (cursor, batch) = take_ids_same s ids (insert_cursor c s id) in
    (
      cursor ∙ ap (last_of ids) (get-insert_same c s id),
      rw (=s=-refl s) (ap (λ r. entry_of s (id, fields) ∷ r) batch),
    )

-- And to another stream.
take_ids_other :
    (s t : Str) (ids : List StreamId) (c : List (Str × Str))
    → (s =s= t) ≡ false
    → (get_cursor (take_ids s ids c).0 t ≡ get_cursor c t)
      × (filter (entry_on t) (take_ids s ids c).1 ≡ [])
unfolding take_ids filter
take_ids_other s t [] c h = (refl, refl)
take_ids_other s t ((id, fields) ∷ ids) c h =
    let (cursor, batch) = take_ids_other s t ids (insert_cursor c s id) h in
    (cursor ∙ get-insert_other c s t id h, rw h batch)

take_keys-reply_of :
    (s : Str) (ids : List StreamId) (c : List (Str × Str))
    → take_keys s (reply_of ids) c ≡ take_ids s ids c
unfolding take_keys take_ids
take_keys-reply_of s [] c = refl
take_keys-reply_of s (x ∷ ids) c =
    let (cursors, batch) = take_ids s (x ∷ ids) c in ap (λ b. (cursors, b)) (append-nil batch)

-- The entries behind a cursor.
unfoldable pub after : Str → List StreamId → List StreamId
after cursor [] = []
after cursor ((id, fields) ∷ ids) =
    let rest = after cursor ids in
    if leb_key (entry_id_sort_key id) (entry_id_sort_key cursor) then rest else (id, fields) ∷ rest

-- The entries behind a cursor, by their texts and by their ids.
pub after-written :
    (cursor : Str) (id : EntryId) (l : Log)
    → Names cursor id
    → IsLog l
    → after cursor (written l) ≡ written (behind id l)
unfolding after behind written
after-written cursor id [] n h = refl
after-written cursor id ((e, fields) ∷ l) n h =
    rw
      (
        entry_id_sort_key-Names cursor id n,
        entry_id_sort_key-Names (show_id e) e (inl refl, h.0),
        leb_key-precedes e id,
      )
      (ground (arith, after-written cursor id l n h.2))

pub All-after : (P : StreamId → Type 0) (c : Str) (l : List StreamId) → All P l → All P (after c l)
unfolding after
All-after P c [] h = tt
All-after P c ((id, fields) ∷ l) h = ground (arith, All-after P c l h.1)

-- Every stream has a cursor that names an id.
abbrev pub AreCursors : List (Str × Str) → Type 0
AreCursors c = (t : Str) → IsCursor (or_zero (get_cursor c t))

insert_cursor-AreCursors :
    (c : List (Str × Str)) (s v : Str)
    → IsCursor v
    → AreCursors c
    → AreCursors (insert_cursor c s v)
insert_cursor-AreCursors c s v h k t = elim (Bool-cases (s =s= t)) [
  | inl e ↦
      subst (λ t. IsCursor (or_zero (get_cursor (insert_cursor c s v) t))) (=s=-eq s t e)
        (subst (λ o. IsCursor (or_zero o)) (sym (get-insert_same c s v)) h)
  | inr e ↦ subst (λ o. IsCursor (or_zero o)) (sym (get-insert_other c s t v e)) (k t)
]

take_ids-AreCursors :
    (s : Str) (ids : List StreamId) (c : List (Str × Str))
    → All (λ e. IsCursor e.0) ids
    → AreCursors c
    → AreCursors (take_ids s ids c).0
unfolding take_ids
take_ids-AreCursors s [] c h k = k
take_ids-AreCursors s ((id, fields) ∷ ids) c h k =
    take_ids-AreCursors s ids (insert_cursor c s id) h.1 (insert_cursor-AreCursors c s id h.0 k)

module _ {W : Type 0} (S : Server W) (log : Str → Log) (logs : (t : Str) → IsLog (log t))
    (limit : ℕ) (positive : 0 < limit) (serves : Serves S log limit) where
  -- What a round reads of a stream.
  abbrev pub share : Str → List (Str × Str) → List StreamId
  share s c = take limit (after (or_zero (get_cursor c s)) (written (log s)))

  xread-share :
      (t : Str) (c : List (Str × Str)) (w : W)
      → AreCursors c
      → S.xread limit t (or_zero (get_cursor c t)) w ≡ (some (reply_of (share t c)), w)
  xread-share t c w k =
      let (id, named) = k t in
      serves t (or_zero (get_cursor c t)) id w named positive
      ∙ ap (λ l. (some (reply_of (take limit l)), w))
          (sym (after-written (or_zero (get_cursor c t)) id (log t) named (logs t)))

  share-AreCursors :
      (t : Str) (c : List (Str × Str)) → AreCursors c → AreCursors (take_ids t (share t c) c).0
  share-AreCursors t c k =
      take_ids-AreCursors t (share t c) c
        (All-take (λ e. IsCursor e.0) limit _
          (All-after (λ e. IsCursor e.0) _ _ (written-IsCursor (log t) (logs t))))
        k

  read_round-cons :
      (t : Str) (ts : List Str) (c : List (Str × Str)) (w : W)
      → AreCursors c
      → let (c', batch) = take_ids t (share t c) c in
        let ((c'', more), w') = read_round S limit ts c' w in
        read_round S limit (t ∷ ts) c w ≡ ((c'', batch ++ more), w')
  unfolding read_round
  read_round-cons t ts c w k =
      rw (xread-share t c w k) (rw (take_keys-reply_of t (share t c) c) refl)

  -- A stream that the round does not read, and one that it reads once.
  read_round-absent :
      (s : Str) (ts : List Str) (c : List (Str × Str)) (w : W)
      → AreCursors c
      → count (λ t. t =s= s) ts ≡ 0
      → (get_cursor (read_round S limit ts c w).0.0 s ≡ get_cursor c s)
        × (filter (entry_on s) (read_round S limit ts c w).0.1 ≡ [])
  read_round-absent s [] c w k h = unfold read_round filter in (refl, refl)
  read_round-absent s (t ∷ ts) c w k h =
      let out : (t =s= s) ≡ false = ground arith in
      let (cursor, batch) = take_ids_other t s (share t c) c out in
      let (cursor', more) =
        read_round-absent s ts (take_ids t (share t c) c).0 w (share-AreCursors t c k)
          (ground arith) in
      rw (read_round-cons t ts c w k)
        (cursor' ∙ cursor, filter_append s (take_ids t (share t c) c).1 _ ∙ rw (batch, more) refl)

  abbrev Delivers : Str → List Str → List (Str × Str) → W → Type 0
  Delivers s ts c w =
      (get_cursor (read_round S limit ts c w).0.0 s ≡ last_of (share s c) (get_cursor c s))
      × (filter (entry_on s) (read_round S limit ts c w).0.1 ≡ map (entry_of s) (share s c))

  read_round-here :
      (s : Str) (ts : List Str) (c : List (Str × Str)) (w : W)
      → AreCursors c
      → count (λ t. t =s= s) ts ≡ 0
      → Delivers s (s ∷ ts) c w
  read_round-here s ts c w k h =
      let (cursor, batch) = take_ids_same s (share s c) c in
      let (cursor', more) =
        read_round-absent s ts (take_ids s (share s c) c).0 w (share-AreCursors s c k) h in
      rw (read_round-cons s ts c w k) (
        cursor' ∙ cursor,
        filter_append s (take_ids s (share s c) c).1 _
            ∙ rw (batch, more) (append-nil (map (entry_of s) (share s c))),
      )

  pub read_round-once :
      (s : Str) (ts : List Str) (c : List (Str × Str)) (w : W)
      → AreCursors c
      → count (λ t. t =s= s) ts ≡ 1
      → (get_cursor (read_round S limit ts c w).0.0 s ≡ last_of (share s c) (get_cursor c s))
        × (filter (entry_on s) (read_round S limit ts c w).0.1 ≡ map (entry_of s) (share s c))
  read_round-once s [] c w k h = absurd (omega arith)
  read_round-once s (t ∷ ts) c w k h = elim (Bool-cases (t =s= s)) [
    | inl e ↦
        subst (λ t. Delivers s (t ∷ ts) c w) (sym (=s=-eq t s e))
          (read_round-here s ts c w k (ground arith))
    | inr e ↦
        let (cursor, batch) = take_ids_other t s (share t c) c e in
        let (cursor', more) =
          read_round-once s ts (take_ids t (share t c) c).0 w (share-AreCursors t c k)
            (ground arith) in
        rw (read_round-cons t ts c w k) (
          cursor' ∙ ap (λ o. last_of (take limit (after (or_zero o) (written (log s)))) o) cursor,
          filter_append s (take_ids t (share t c) c).1 _
              ∙ rw (batch, more)
                  (ap (λ o. map (entry_of s) (take limit (after (or_zero o) (written (log s)))))
                    cursor),
        )
  ]

  pub read_round-AreCursors :
      (ts : List Str) (c : List (Str × Str)) (w : W)
      → AreCursors c
      → AreCursors (read_round S limit ts c w).0.0
  read_round-AreCursors [] c w k = unfold read_round in k
  read_round-AreCursors (t ∷ ts) c w k =
      rw (read_round-cons t ts c w k)
        (read_round-AreCursors ts (take_ids t (share t c) c).0 w (share-AreCursors t c k))
