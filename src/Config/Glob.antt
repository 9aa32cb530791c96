-- ===== src/Config/Glob.antt =====
-- src/config.rs: `glob_match`. A position in the pattern or the string is the part from there on.
use native.Mathlib.Nat.{le_trans}
use redis_event_stream_modul.Base.{
  refl, ◌≡◌, arith, ◌≤◌, Bytes, ℕ, zero, suc, ◌==◌, leb, ltb, Bool, true, false, not, ◌&&◌, ◌||◌,
  [], ◌∷◌, Option, none, some, is_empty, length, if◌then◌else◌,
}

abbrev pub backslash : ℕ
backslash = 92

abbrev pub max_nesting : ℕ
max_nesting = 1000

-- `while pat[pi + 1] == '*'`, and the loop after the string has ended.
unfoldable pub skip_stars : Bytes → Bytes
skip_stars [] = []
skip_stars (c ∷ p) = let rest = skip_stars p in if c == b'*' then rest else c ∷ p

abbrev pub in_range : ℕ → ℕ → ℕ → Bool
in_range start end x = if ltb end start then leb end x && leb x start else leb start x && leb x end

-- The loop over a `[...]` class, from behind the `[` and the `^`: whether the byte `x` matched, and
-- the pattern from behind the `]` on. An unterminated class takes all of the pattern.
unfoldable pub class_loop : ℕ → Bytes → Bool → Bool × Bytes
class_loop x [] matched = (matched, [])
class_loop x (a ∷ []) matched = if a == b']' then (matched, []) else (matched || a == x, [])
class_loop x (a ∷ b ∷ []) matched =
    if a == backslash
    then (matched || b == x, [])
    else if a == b']'
    then (matched, b ∷ [])
    else class_loop x (b ∷ []) (matched || a == x)
class_loop x (a ∷ b ∷ c ∷ p) matched =
    let escaped = class_loop x (c ∷ p) (matched || b == x) in
    let range = class_loop x p (matched || in_range a c x) in
    let single = class_loop x (b ∷ c ∷ p) (matched || a == x) in
    if a == backslash
    then escaped
    else if a == b']'
    then (matched, b ∷ c ∷ p)
    else if b == b'-'
    then range
    else single

unfoldable pub class_match : ℕ → Bytes → Bool × Bytes
class_match x [] = class_loop x [] false
class_match x (c ∷ p) =
    if c == b'^'
    then (let (matched, rest) = class_loop x p false in (not matched, rest))
    else class_loop x (c ∷ p) false

-- What a call answers, with `skip_longer` as it leaves it. `none`: out of fuel.
abbrev pub Answer : Type 0
Answer = Option (Bool × Bool)

-- The inner loop of a `*`: the rest of the pattern is tried at each position of the string.
unfoldable pub star_loop : (Bytes → Bool → Answer) → Bytes → Bool → Answer
star_loop next [] skip = some (false, true)
star_loop next (x ∷ s) skip = elim (next (x ∷ s) skip) [
  | none ↦ none
  | some (true, skip') ↦ some (true, skip')
  | some (false, true) ↦ some (false, true)
  | some (false, false) ↦ star_loop next s false
]

-- One round has matched a byte: the end of the string ends the loop.
abbrev pub go_on : (Bytes → Bytes → Bool → Answer) → Bytes → Bytes → Bool → Answer
go_on loop p [] skip = some (is_empty (skip_stars p), skip)
go_on loop p (y ∷ s) skip = loop p (y ∷ s) skip

-- A loop over the rest of the pattern and of the string, with `skip_longer`.
abbrev pub Loop : Type 0
Loop = Bytes → Bytes → Bool → Answer

-- The arm for `*`; `nested` is the call at the next nesting.
unfoldable pub star_arm : Loop → Loop
star_arm nested p s skip = elim (skip_stars p) [
  | [] ↦ some (true, skip)
  | d ∷ q ↦ star_loop (nested (d ∷ q)) s skip
]

-- The arm for `[`, at the byte `x`.
unfoldable pub class_arm : Loop → ℕ → Loop
class_arm next x p s skip =
    let (matched, rest) = class_match x p in
    if matched then go_on next rest s skip else some (false, skip)

-- The arms for an escape and for any other byte `c`.
unfoldable pub byte_arm : Loop → ℕ → ℕ → Loop
byte_arm next c x [] s skip = if c == x then go_on next [] s skip else some (false, skip)
byte_arm next c x (d ∷ q) s skip =
    if c == backslash
    then (if d == x then go_on next q s skip else some (false, skip))
    else if c == x
    then go_on next (d ∷ q) s skip
    else some (false, skip)

-- A round of the `while` loop at the pattern `c ∷ p` and the string `x ∷ s`.
unfoldable pub glob_round : Loop → Loop → ℕ → ℕ → Loop
glob_round next nested c x p s skip =
    if c == b'*'
    then star_arm nested p (x ∷ s) skip
    else if c == b'?'
    then go_on next p s skip
    else if c == b'['
    then class_arm next x p s skip
    else byte_arm next c x p s skip

-- The recursion guard at the entry of `glob_match_impl`.
unfoldable pub guarded : ℕ → Loop → Loop
guarded nesting loop p s skip =
    if ltb max_nesting nesting then some (false, skip) else loop p s skip

-- The `while` loop of `glob_match_impl` at one nesting. Each round shortens the pattern.
unfoldable pub glob_loop : ℕ → ℕ → Loop
glob_loop f nesting [] s skip = some (is_empty s, skip)
glob_loop f nesting (c ∷ p) [] skip = some (false, skip)
glob_loop zero nesting (c ∷ p) (x ∷ s) skip = none
glob_loop (suc f) nesting (c ∷ p) (x ∷ s) skip =
    glob_round (λ q t sk. glob_loop f nesting q t sk)
      (guarded (suc nesting) (λ q t sk. glob_loop f (suc nesting) q t sk)) c x p s skip

abbrev pub answer : Answer → Bool
answer none = false
answer (some (b, skip)) = b

unfoldable pub glob_match : Bytes → Bytes → Bool
glob_match pattern string = answer (glob_loop (length pattern) 0 pattern string false)

-- The matcher has given an answer.
abbrev Answers : Answer → Type 0
Answers none = ⊥
Answers (some a) = Unit {0}

length-skip_stars-le : (p : Bytes) → length (skip_stars p) ≤ length p
unfolding skip_stars
length-skip_stars-le [] = omega arith
length-skip_stars-le (c ∷ p) = ground (arith, length-skip_stars-le p)

length-class_loop-le : (x : ℕ) (p : Bytes) (m : Bool) → length (class_loop x p m).1 ≤ length p
unfolding class_loop
length-class_loop-le x [] m = omega arith
length-class_loop-le x (a ∷ []) m = ground arith
length-class_loop-le x (a ∷ b ∷ []) m =
    ground (arith, length-class_loop-le x (b ∷ []) (m || a == x))
length-class_loop-le x (a ∷ b ∷ c ∷ p) m = ground (
  arith,
  length-class_loop-le x (c ∷ p) (m || b == x),
  length-class_loop-le x p (m || in_range a c x),
  length-class_loop-le x (b ∷ c ∷ p) (m || a == x),
)

length-class_match-le : (x : ℕ) (p : Bytes) → length (class_match x p).1 ≤ length p
unfolding class_match
length-class_match-le x [] = length-class_loop-le x [] false
length-class_match-le x (c ∷ p) =
    ground (arith, length-class_loop-le x p false, length-class_loop-le x (c ∷ p) false)

star_loop-Answers :
    (next : Bytes → Bool → Answer)
    → ((s : Bytes) (k : Bool) → Answers (next s k))
    → (s : Bytes) (k : Bool) → Answers (star_loop next s k)
unfolding star_loop
star_loop-Answers next h [] k = tt
star_loop-Answers next h (x ∷ s) k = ground (arith, h (x ∷ s) k, star_loop-Answers next h s false)

-- A loop that answers on every pattern of at most `f` bytes.
abbrev IsTotal : ℕ → Loop → Type 0
IsTotal f loop = (p s : Bytes) (k : Bool) → length p ≤ f → Answers (loop p s k)

module _ (f : ℕ) (loop : Loop) (total : IsTotal f loop) where
  go_on-Answers : (p s : Bytes) (k : Bool) → length p ≤ f → Answers (go_on loop p s k)
  go_on-Answers p [] k h = tt
  go_on-Answers p (y ∷ s) k h = total p (y ∷ s) k h

  star_arm-Answers : (p s : Bytes) (k : Bool) → length p ≤ f → Answers (star_arm loop p s k)
  unfolding star_arm
  star_arm-Answers p s k h = of_rest (skip_stars p) (le_trans (length-skip_stars-le p) h)
    where
      of_rest :
          (q : Bytes)
          → length q ≤ f
          → Answers (elim q [ [] ↦ some (true, k) | d ∷ r ↦ star_loop (loop (d ∷ r)) s k ])
      of_rest [] g = tt
      of_rest (d ∷ r) g = star_loop-Answers (loop (d ∷ r)) (λ t j. total (d ∷ r) t j g) s k

  class_arm-Answers :
      (x : ℕ) (p s : Bytes) (k : Bool) → length p ≤ f → Answers (class_arm loop x p s k)
  unfolding class_arm
  class_arm-Answers x p s k h =
      ground (arith, go_on-Answers (class_match x p).1 s k, length-class_match-le x p)

  byte_arm-Answers :
      (c x : ℕ) (p s : Bytes) (k : Bool) → length p ≤ f → Answers (byte_arm loop c x p s k)
  unfolding byte_arm
  byte_arm-Answers c x [] s k h = ground (arith, go_on-Answers [] s k)
  byte_arm-Answers c x (d ∷ q) s k h =
      ground (arith, go_on-Answers q s k, go_on-Answers (d ∷ q) s k)

guarded-IsTotal : (f n : ℕ) (loop : Loop) → IsTotal f loop → IsTotal f (guarded n loop)
unfolding guarded
guarded-IsTotal f n loop total p s k h = ground (arith, total p s k)

glob_round-Answers :
    (f : ℕ) (next nested : Loop) (c x : ℕ)
    → IsTotal f next
    → IsTotal f nested
    → IsTotal f (glob_round next nested c x)
unfolding glob_round
glob_round-Answers f next nested c x tn td p s k h = ground (
  arith,
  star_arm-Answers f nested td p (x ∷ s) k h,
  go_on-Answers f next tn p s k h,
  class_arm-Answers f next tn x p s k h,
  byte_arm-Answers f next tn c x p s k h,
)

glob_loop-IsTotal : (f n : ℕ) → IsTotal f (glob_loop f n)
unfolding glob_loop
glob_loop-IsTotal f n [] s k h = tt
glob_loop-IsTotal f n (c ∷ p) [] k h = tt
glob_loop-IsTotal zero n (c ∷ p) (x ∷ s) k h = omega arith
glob_loop-IsTotal (suc f) n (c ∷ p) (x ∷ s) k h =
    glob_round-Answers f (glob_loop f n) (guarded (suc n) (glob_loop f (suc n))) c x
      (glob_loop-IsTotal f n)
      (guarded-IsTotal f (suc n) (glob_loop f (suc n)) (glob_loop-IsTotal f (suc n))) p s k
      (omega arith)

-- The fuel, the length of the pattern, is enough: the matcher gives an answer on every input.
pub glob_match-total :
    (p s : Bytes) → (b k : Bool) × (glob_loop (length p) 0 p s false ≡ some (b, k))
glob_match-total p s =
    of_answer (glob_loop (length p) 0 p s false)
      (glob_loop-IsTotal (length p) 0 p s false (omega arith))
  where
    of_answer : (a : Answer) → Answers a → (b k : Bool) × (a ≡ some (b, k))
    of_answer none h = elim h [ ]
    of_answer (some (b, k)) h = (b, k, refl)
