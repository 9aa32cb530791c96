-- ===== src/Client/Gaps/Histories.antt =====
-- crates/eventstream-client/src/lib.rs: `assess_restart_boundaries` at a restart in a longer history.
use mathlib.Core.Path.{subst}
use mathlib.Core.List.{append-nil, append_assoc}
use redis_event_stream_modul.Base.{
  Str, text, ◌=s=◌, =s=-eq, Bool, true, false, not, List, [], ◌∷◌, ◌++◌, Option, none, some, ◌≡◌,
  refl, sym, ap, ◌∙◌, inl, inr, arith, Bool-cases, Option-cases, filter, All,
}
use redis_event_stream_modul.Base.Result.{any_of}
use redis_event_stream_modul.Client.Gaps.{
  GapMarker, Generations, get, boundary, enter, close, observe, assess_from,
  assess_restart_boundaries,
}
use redis_event_stream_modul.Client.Gaps.Restarts.{
  get-put_same, get-put_other, boundary_on, marker_on, filter-assess_from, assess_from-some,
  next_state, next_state-get, is_unloading, IsOf, assess_from-run, restart, boundary_next,
  assess_restart_boundaries-filter,
}

-- The state behind the markers.
unfoldable state_after : Generations → List GapMarker → Generations
state_after σ [] = σ
state_after σ (m ∷ ms) = state_after (observe m.generation m σ).1 ms

assess_from-append :
    (σ : Generations) (a b : List GapMarker)
    → assess_from σ (a ++ b) ≡ assess_from σ a ++ assess_from (state_after σ a) b
unfolding assess_from state_after
assess_from-append σ [] b = refl
assess_from-append σ (m ∷ a) b =
    ap (λ r. (observe m.generation m σ).0 ++ r)
      (assess_from-append (observe m.generation m σ).1 a b)
    ∙ sym (append_assoc (observe m.generation m σ).0 _ _)

-- The marker is of no generation, or of another one than `g`.
abbrev other_than : Str → Option Str → Bool
other_than g none = true
other_than g (some h) = not (h =s= g)

abbrev pub IsBefore : Str → GapMarker → Type 0
IsBefore g m = other_than g m.generation ≡ true

-- The state of a stream is not in the generation `g`.
abbrev is_outside : Str → Option (Str × Bool) → Bool
is_outside g none = true
is_outside g (some (p, closed)) = not (p =s= g)

enter-current : (o : Option (Str × Bool)) (h : Str) → (enter o h).0 ≡ h
unfolding enter
enter-current none h = refl
enter-current (some (p, c)) h = elim (Bool-cases (p =s= h)) [
  | inl e ↦ rw e (=s=-eq p h e)
  | inr e ↦ rw e refl
]

close-current : (act h : Str) (p : Str × Bool) → (close act h p).0 ≡ p.0
unfolding close
close-current act h (p, c) = ground arith

outside_pair :
    (g h : Str) (v : Str × Bool) → v.0 ≡ h → (h =s= g) ≡ false → is_outside g (some v) ≡ true
outside_pair g h v e k = ap (λ x. not (x =s= g)) e ∙ ap not k

next_state-outside :
    (s g h : Str) (σ : Generations) (m : GapMarker)
    → (h =s= g) ≡ false
    → is_outside g (get σ s) ≡ true
    → is_outside g (get (next_state σ h m) s) ≡ true
next_state-outside s g h σ m k o = elim (Bool-cases (m.stream =s= s)) [
  | inl e ↦
      let v = close m.action h (enter (get σ m.stream) h) in
      ap (is_outside g) (
        subst (λ t. get (next_state σ h m) t ≡ some v) (=s=-eq m.stream s e)
          (get-put_same σ m.stream v))
      ∙ outside_pair g h v
          (close-current m.action h (enter (get σ m.stream) h) ∙ enter-current (get σ m.stream) h) k
  | inr e ↦ ap (is_outside g) (get-put_other σ m.stream s _ e) ∙ o
]

observe-outside :
    (s g : Str) (σ : Generations) (m : GapMarker)
    → is_outside g (get σ s) ≡ true
    → IsBefore g m
    → is_outside g (get (observe m.generation m σ).1 s) ≡ true
observe-outside s g σ m o h = elim (Option-cases m.generation) [
  | inl e ↦ rw e (unfold observe in o)
  | inr (x, e) ↦
      rw e (unfold observe in next_state-outside s g x σ m (ground (arith, ap (other_than g) e)) o)
]

state_after-outside :
    (s g : Str) (σ : Generations) (ms : List GapMarker)
    → is_outside g (get σ s) ≡ true
    → All (IsBefore g) ms
    → is_outside g (get (state_after σ ms) s) ≡ true
unfolding state_after
state_after-outside s g σ [] o h = o
state_after-outside s g σ (m ∷ ms) o h =
    state_after-outside s g (observe m.generation m σ).1 ms (observe-outside s g σ m o h.0) h.1

-- A generation that a stream is not in starts open.
enter_outside : (o : Option (Str × Bool)) (g : Str) → is_outside g o ≡ true → enter o g ≡ (g, false)
unfolding enter
enter_outside none g h = refl
enter_outside (some (p, c)) g h = ground arith

filter_on :
    (s : Str) (ms : List GapMarker) → All (λ m. marker_on s m ≡ true) (filter (marker_on s) ms)
unfolding filter
filter_on s [] = tt
filter_on s (m ∷ ms) = ground (arith, filter_on s ms)

filter-All :
    (s : Str) (ms : List GapMarker)
    → All (λ m. marker_on s m ≡ true) ms
    → filter (marker_on s) ms ≡ ms
unfolding filter
filter-All s [] h = refl
filter-All s (m ∷ ms) h = ground (arith, filter-All s ms h.1)

All-suffix : (P : GapMarker → Type 0) (a b : List GapMarker) → All P (a ++ b) → All P b
All-suffix P [] b h = h
All-suffix P (m ∷ a) b h = All-suffix P a b h.1

-- Markers on one stream show the same under states that agree on it.
assess_from-agree :
    (s : Str) (σ τ : Generations) (ms : List GapMarker)
    → All (λ m. marker_on s m ≡ true) ms
    → get σ s ≡ get τ s
    → assess_from σ ms ≡ assess_from τ ms
assess_from-agree s σ τ ms on h =
    ap (assess_from σ) (sym (filter-All s ms on))
    ∙ sym (filter-assess_from s σ σ ms refl)
    ∙ filter-assess_from s σ τ ms h
    ∙ ap (assess_from τ) (filter-All s ms on)

no_boundary : (g : Str) (m : GapMarker) → boundary (get [] m.stream) g m ≡ []
unfolding get boundary
no_boundary g m = refl

-- What the marker of the next generation shows behind a run of `g`, and what follows it.
assess_next :
    (s g next : Str) (τ : Generations) (closed : Bool) (last : GapMarker) (rest : List GapMarker)
    → get τ s ≡ some (g, closed)
    → IsOf s next last
    → (g =s= next) ≡ false
    → (last.action =s= text "loaded") ≡ true
    → All (λ m. marker_on s m ≡ true) rest
    → assess_from τ (last ∷ rest)
      ≡ restart g next last closed ∷ assess_restart_boundaries (last ∷ rest)
unfolding assess_restart_boundaries
assess_next s g next τ closed last rest h l n a on =
    let here =
      next_state-get τ s next last (some (g, closed)) false l.0 h
        (enter_outside (some (g, closed)) next (ap not n)) in
    let alone =
      next_state-get [] s next last none false l.0 (unfold get in refl)
        (enter_outside none next refl) in
    assess_from-some τ last rest next l.1
    ∙ ap (λ b. b ++ assess_from (next_state τ next last) rest)
        (boundary_next (get τ last.stream) g next last closed
          (subst (λ t. get τ t ≡ some (g, closed)) (sym l.0) h) n a)
    ∙ ap (λ r. restart g next last closed ∷ r)
        (assess_from-agree s (next_state τ next last) (next_state [] next last) rest on
            (here ∙ sym alone)
          ∙ sym (
              assess_from-some [] last rest next l.1
              ∙ ap (λ b. b ++ assess_from (next_state [] next last) rest) (no_boundary next last)))

-- The restart behind any markers `before` that are not of the generation `g`.
assess_run :
    (s g next : Str) (before : List GapMarker) (first : GapMarker) (run : List GapMarker)
    (last : GapMarker) (rest : List GapMarker)
    → All (IsBefore g) before
    → All (IsOf s g) (first ∷ run)
    → IsOf s next last
    → (g =s= next) ≡ false
    → (last.action =s= text "loaded") ≡ true
    → All (λ m. marker_on s m ≡ true) rest
    → assess_restart_boundaries (before ++ first ∷ (run ++ last ∷ rest))
      ≡ assess_restart_boundaries (before ++ first ∷ [])
        ++ restart g next last (any_of is_unloading (first ∷ run))
          ∷ assess_restart_boundaries (last ∷ rest)
assess_run s g next before first run last rest b h l n a on =
    let σ = state_after [] before in
    let open_first =
      enter_outside (get σ s) g (state_after-outside s g [] before (unfold get in refl) b) in
    let (τ, at, eq) =
      assess_from-run s g (next_state σ g first) (is_unloading first) run (last ∷ rest)
        (next_state-get σ s g first (get σ s) false h.0.0 refl open_first) h.1 in
    let B = boundary (get σ first.stream) g first in
    let X =
      restart g next last (any_of is_unloading (first ∷ run))
      ∷ assess_restart_boundaries (last ∷ rest) in
    let whole : assess_from σ (first ∷ (run ++ last ∷ rest)) ≡ B ++ X =
      assess_from-some σ first (run ++ last ∷ rest) g h.0.1
      ∙ ap (λ r. B ++ r) (eq ∙ assess_next s g next τ _ last rest at l n a on) in
    let alone : assess_from σ (first ∷ []) ≡ B =
      assess_from-some σ first [] g h.0.1 ∙ (unfold assess_from in append-nil B) in
    unfold assess_restart_boundaries in
    (assess_from-append [] before (first ∷ (run ++ last ∷ rest))
      ∙ ap (λ r. assess_from [] before ++ r) whole
      ∙ sym (append_assoc (assess_from [] before) B X)
      ∙ ap (λ r. r ++ X)
          (sym (
            assess_from-append [] before (first ∷ [])
            ∙ ap (λ r. assess_from [] before ++ r) alone)))

-- On a stream, a run of markers of one generation, of one marker at least, that no marker before it is
-- of, followed by the `loaded` marker of another generation: behind the restarts that the markers up
-- to the first of the run show, the client reports one from the one generation to the other, graceful
-- exactly when the run holds an `unloading` marker, and then those that the markers from `loaded` on
-- show by themselves. The markers of other streams may lie anywhere between.
pub assess_restart_boundaries-restart :
    (s g next : Str) (before : List GapMarker) (first : GapMarker) (run : List GapMarker)
    (last : GapMarker) (rest markers : List GapMarker)
    → filter (marker_on s) markers ≡ before ++ first ∷ (run ++ last ∷ rest)
    → All (IsBefore g) before
    → All (IsOf s g) (first ∷ run)
    → IsOf s next last
    → (g =s= next) ≡ false
    → (last.action =s= text "loaded") ≡ true
    → filter (boundary_on s) (assess_restart_boundaries markers)
      ≡ assess_restart_boundaries (before ++ first ∷ [])
        ++ restart g next last (any_of is_unloading (first ∷ run))
          ∷ assess_restart_boundaries (last ∷ rest)
assess_restart_boundaries-restart s g next before first run last rest markers f b h l n a =
    let on =
      All-suffix (λ m. marker_on s m ≡ true) (run ++ last ∷ []) rest
        (subst (All (λ m. marker_on s m ≡ true)) (sym (append_assoc run (last ∷ []) rest))
          (All-suffix (λ m. marker_on s m ≡ true) before (first ∷ (run ++ last ∷ rest))
            (subst (All (λ m. marker_on s m ≡ true)) f (filter_on s markers))).1) in
    assess_restart_boundaries-filter s markers
    ∙ ap assess_restart_boundaries f
    ∙ assess_run s g next before first run last rest b h l n a on
