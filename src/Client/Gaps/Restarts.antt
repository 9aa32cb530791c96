-- ===== src/Client/Gaps/Restarts.antt =====
-- crates/eventstream-client/src/lib.rs: `assess_restart_boundaries` over several streams and several
-- generations.
use mathlib.Core.Path.{subst}
use redis_event_stream_modul.Base.{
  Str, text, ◌=s=◌, =s=-refl, =s=-eq, Bool, true, false, ◌||◌, List, [], ◌∷◌, ◌++◌, Option, none,
  some, if◌then◌else◌, ◌≡◌, refl, sym, ap, ◌∙◌, inl, inr, arith, Bool-cases, Option-cases, filter,
  All,
}
use redis_event_stream_modul.Base.Result.{any_of}
use redis_event_stream_modul.Client.Gaps.{
  GapMarker, RestartBoundary, kind_of, Generations, get, put, boundary, enter, close, observe,
  assess_from, assess_restart_boundaries,
}

pub get-put_same : (g : Generations) (s : Str) (v : Str × Bool) → get (put g s v) s ≡ some v
unfolding get put
get-put_same [] s v = rw (=s=-refl s) refl
get-put_same ((n, o) ∷ g) s v = ground (arith, get-put_same g s v)

pub get-put_other :
    (g : Generations) (s t : Str) (v : Str × Bool) → (s =s= t) ≡ false → get (put g s v) t ≡ get g t
unfolding get put
get-put_other [] s t v h = rw h refl
get-put_other ((n, o) ∷ g) s t v h = elim (Bool-cases (n =s= s)) [
  | inl e ↦ rw e (rw (=s=-eq n s e) (rw h refl))
  | inr e ↦ rw e (ground (arith, get-put_other g s t v h))
]

abbrev pub boundary_on : Str → RestartBoundary → Bool
boundary_on s b = b.stream =s= s

abbrev pub marker_on : Str → GapMarker → Bool
marker_on s m = m.stream =s= s

filter-append :
    (s : Str) (a b : List RestartBoundary)
    → filter (boundary_on s) (a ++ b) ≡ filter (boundary_on s) a ++ filter (boundary_on s) b
unfolding filter
filter-append s [] b = refl
filter-append s (x ∷ a) b = ground (arith, filter-append s a b)

filter-boundary :
    (s : Str) (o : Option (Str × Bool)) (g : Str) (m : GapMarker)
    → filter (boundary_on s) (boundary o g m) ≡ (if marker_on s m then boundary o g m else [])
unfolding filter boundary
filter-boundary s none g m = ground arith
filter-boundary s (some (p, c)) g m = ground arith

-- A marker without a generation, and one with.
pub assess_from-none :
    (σ : Generations) (m : GapMarker) (ms : List GapMarker)
    → m.generation ≡ none
    → assess_from σ (m ∷ ms) ≡ assess_from σ ms
unfolding assess_from observe
assess_from-none σ m ms h = ap (λ o. (observe o m σ).0 ++ assess_from (observe o m σ).1 ms) h

-- The state after a marker of the generation `g`.
abbrev pub next_state : Generations → Str → GapMarker → Generations
next_state σ g m = put σ m.stream (close m.action g (enter (get σ m.stream) g))

pub assess_from-some :
    (σ : Generations) (m : GapMarker) (ms : List GapMarker) (g : Str)
    → m.generation ≡ some g
    → assess_from σ (m ∷ ms) ≡ boundary (get σ m.stream) g m ++ assess_from (next_state σ g m) ms
unfolding assess_from observe
assess_from-some σ m ms g h = ap (λ o. (observe o m σ).0 ++ assess_from (observe o m σ).1 ms) h

-- States that agree on the stream of a marker.
agree_at :
    (σ τ : Generations) (s : Str) (m : GapMarker)
    → marker_on s m ≡ true
    → get σ s ≡ get τ s
    → get σ m.stream ≡ get τ m.stream
agree_at σ τ s m on h = subst (λ t. get σ t ≡ get τ t) (sym (=s=-eq m.stream s on)) h

next_state-agree :
    (σ τ : Generations) (g : Str) (m : GapMarker)
    → get σ m.stream ≡ get τ m.stream
    → get (next_state σ g m) m.stream ≡ get (next_state τ g m) m.stream
next_state-agree σ τ g m h =
    get-put_same σ m.stream _
    ∙ ap (λ o. some (close m.action g (enter o g))) h
    ∙ sym (get-put_same τ m.stream _)

-- Only the state of a stream and its markers count for its boundaries.
pub filter-assess_from :
    (s : Str) (σ τ : Generations) (ms : List GapMarker)
    → get σ s ≡ get τ s
    → filter (boundary_on s) (assess_from σ ms) ≡ assess_from τ (filter (marker_on s) ms)
unfolding filter
filter-assess_from s σ τ [] h = unfold assess_from in refl
filter-assess_from s σ τ (m ∷ ms) h = elim (Option-cases m.generation) [
  | inl e ↦ elim (Bool-cases (marker_on s m)) [
    | inl on ↦ rw on (
        rw (assess_from-none σ m ms e)
          (filter-assess_from s σ τ ms h ∙ sym (assess_from-none τ m (filter (marker_on s) ms) e)))
    | inr off ↦ rw off (rw (assess_from-none σ m ms e) (filter-assess_from s σ τ ms h))
  ]
  | inr (g, e) ↦
      ap (filter (boundary_on s)) (assess_from-some σ m ms g e)
      ∙ filter-append s (boundary (get σ m.stream) g m) _
      ∙ (elim (Bool-cases (marker_on s m)) [
        | inl on ↦
            rw (on, filter-boundary s (get σ m.stream) g m)
              (rw on (
                ap (λ r. boundary (get σ m.stream) g m ++ r)
                  (filter-assess_from s (next_state σ g m) (next_state τ g m) ms (
                    subst (λ t. get (next_state σ g m) t ≡ get (next_state τ g m) t)
                      (=s=-eq m.stream s on) (next_state-agree σ τ g m (agree_at σ τ s m on h))))
                ∙ ap
                    (λ o.
                      boundary o g m ++ assess_from (next_state τ g m) (filter (marker_on s) ms))
                    (agree_at σ τ s m on h)
                ∙ sym (assess_from-some τ m (filter (marker_on s) ms) g e)))
        | inr off ↦
            rw (off, filter-boundary s (get σ m.stream) g m)
              (rw off (
                filter-assess_from s (next_state σ g m) τ ms
                  (get-put_other σ m.stream s _ off ∙ h)))
      ])
]

-- The boundaries that the markers of all streams show, for one stream: those that its own markers show,
-- whatever the markers of the others and however they are interleaved.
pub assess_restart_boundaries-filter :
    (s : Str) (markers : List GapMarker)
    → filter (boundary_on s) (assess_restart_boundaries markers)
      ≡ assess_restart_boundaries (filter (marker_on s) markers)
unfolding assess_restart_boundaries
assess_restart_boundaries-filter s markers = filter-assess_from s [] [] markers refl

abbrev pub is_unloading : GapMarker → Bool
is_unloading m = m.action =s= text "unloading"

-- A marker of the generation `g` on the stream `s`.
abbrev pub IsOf : Str → Str → GapMarker → Type 0
IsOf s g m = (m.stream ≡ s) × (m.generation ≡ some g)

-- What a marker of the generation `g` leaves of the state of its stream.
close-enter :
    (o : Option (Str × Bool)) (g act : Str) (closed : Bool)
    → enter o g ≡ (g, closed)
    → close act g (enter o g) ≡ (g, closed || act =s= text "unloading")
unfolding close
close-enter o g act closed h = rw h (rw (=s=-refl g) (ground arith))

pub next_state-get :
    (σ : Generations) (s g : Str) (m : GapMarker) (o : Option (Str × Bool)) (closed : Bool)
    → m.stream ≡ s
    → get σ s ≡ o
    → enter o g ≡ (g, closed)
    → get (next_state σ g m) s ≡ some (g, closed || is_unloading m)
next_state-get σ s g m o closed h k e =
    subst (λ t. get (next_state σ g m) t ≡ some (g, closed || is_unloading m)) h
      (get-put_same σ m.stream _
        ∙ ap (λ p. some (close m.action g (enter p g))) (subst (λ t. get σ t ≡ o) (sym h) k)
        ∙ ap some (close-enter o g m.action closed e))

enter_same : (g : Str) (closed : Bool) → enter (some (g, closed)) g ≡ (g, closed)
unfolding enter
enter_same g closed = rw (=s=-refl g) refl

boundary_same :
    (o : Option (Str × Bool)) (g : Str) (m : GapMarker) (closed : Bool)
    → o ≡ some (g, closed)
    → boundary o g m ≡ []
unfolding boundary
boundary_same o g m closed h = rw h (rw (=s=-refl g) refl)

-- Markers of the generation that the state names show no boundary, and close it where one unloads.
pub assess_from-run :
    (s g : Str) (σ : Generations) (closed : Bool) (run rest : List GapMarker)
    → get σ s ≡ some (g, closed)
    → All (IsOf s g) run
    → (τ : Generations) × (get τ s ≡ some (g, closed || any_of is_unloading run))
      × (assess_from σ (run ++ rest) ≡ assess_from τ rest)
assess_from-run s g σ closed [] rest h k = (σ, ground arith, refl)
assess_from-run s g σ closed (m ∷ run) rest h k =
    let (τ, at, eq) =
      assess_from-run s g (next_state σ g m) (closed || is_unloading m) run rest
        (next_state-get σ s g m (some (g, closed)) closed k.0.0 h (enter_same g closed)) k.1 in
    (
      τ,
      ground arith,
      assess_from-some σ m (run ++ rest) g k.0.1
          ∙ ap (λ b. b ++ assess_from (next_state σ g m) (run ++ rest))
              (boundary_same (get σ m.stream) g m closed
                (subst (λ t. get σ t ≡ some (g, closed)) (sym k.0.0) h))
          ∙ eq,
    )

-- The restart that the marker `last` shows after the generation `g`.
abbrev pub restart : Str → Str → GapMarker → Bool → RestartBoundary
restart g next last closed = record {
  stream = last.stream;
  id = last.id;
  previous_generation = g;
  generation = next;
  kind = kind_of closed;
}

pub boundary_next :
    (o : Option (Str × Bool)) (g next : Str) (last : GapMarker) (closed : Bool)
    → o ≡ some (g, closed)
    → (g =s= next) ≡ false
    → (last.action =s= text "loaded") ≡ true
    → boundary o next last ≡ restart g next last closed ∷ []
unfolding boundary
boundary_next o g next last closed h n a = rw h (rw n (ground arith))
