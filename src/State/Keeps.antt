-- ===== src/State/Keeps.antt =====
-- Invariants of actions: a rule for each way to build an action.
use redis_event_stream_modul.Base.{Bool, true, false, if◌then◌else◌}
use redis_event_stream_modul.State.{State}
use redis_event_stream_modul.State.Actions.{M, Act, ◌>>=◌, pure, gets, skip, when}

-- The action keeps `P`.
pub record Keeps {W A : Type 0} (P : State W → Type 0) (m : M W A) : Type 0 where
  pub at : (s : State W) → P s → P (m s).1

module _ {W A : Type 0} {P : State W → Type 0} where
  pub Keeps-pure : (a : A) → Keeps P (pure a)
  unfolding pure
  Keeps-pure a = record { at = λ s h. h }

  pub Keeps-gets : (f : State W → A) → Keeps P (gets f)
  unfolding gets
  Keeps-gets f = record { at = λ s h. h }

  pub Keeps-if : (b : Bool) (m n : M W A) → Keeps P m → Keeps P n → Keeps P (if b then m else n)
  Keeps-if true m n km kn = km
  Keeps-if false m n km kn = kn

module _ {W : Type 0} {P : State W → Type 0} where
  pub Keeps-skip : Keeps P skip
  unfolding skip
  Keeps-skip = record { at = λ s h. h }

  pub Keeps-when : (b : Bool) (m : Act W) → Keeps P m → Keeps P (when b m)
  unfolding when
  Keeps-when true m km = record { at = λ s h. km.at s h }
  Keeps-when false m km = record { at = λ s h. h }

module _ {W A B : Type 0} {P : State W → Type 0} where
  pub Keeps-bind :
      (m : M W A) (k : A → M W B) → Keeps P m → ((a : A) → Keeps P (k a)) → Keeps P (m >>= k)
  unfolding ◌>>=◌
  Keeps-bind m k first rest = record { at = λ s h. (rest (m s).0).at (m s).1 (first.at s h) }

pub ruleset keeps_rules = (Keeps-pure, Keeps-gets, Keeps-if, Keeps-skip, Keeps-when, Keeps-bind)

-- From a state with `P` the action ends with a result and a state that `Q` relates.
pub record Leads {W A : Type 0} (P : State W → Type 0) (m : M W A) (Q : A → State W → Type 0)
    : Type 0 where
  pub runs : (s : State W) → P s → Q (m s).0 (m s).1

pub Keeps-Leads : {W A : Type 0} {P : State W → Type 0} {m : M W A} → Keeps P m → Leads P m (λ _. P)
Keeps-Leads k = record { runs = k.at }

module _ {W A B : Type 0} {P : State W → Type 0} where
  pub Leads-bind :
      {Q : A → State W → Type 0} {S : B → State W → Type 0} {m : M W A} {f : A → M W B}
      → Leads P m Q
      → ((a : A) → Leads (Q a) (f a) S)
      → Leads P (m >>= f) S
  unfolding ◌>>=◌
  Leads-bind {m = m} km kf = record { runs = λ s h. (kf (m s).0).runs (m s).1 (km.runs s h) }

  pub Leads-after :
      {S : B → State W → Type 0} (m : M W A) (f : A → M W B)
      → Keeps P m
      → ((a : A) → Leads P (f a) S)
      → Leads P (m >>= f) S
  Leads-after m f km kf = Leads-bind (Keeps-Leads km) kf

module _ {W A : Type 0} {P : State W → Type 0} {Q : A → State W → Type 0} where
  pub Leads-if :
      (b : Bool) (m n : M W A) → Leads P m Q → Leads P n Q → Leads P (if b then m else n) Q
  Leads-if true m n km kn = km
  Leads-if false m n km kn = kn

  pub Leads-pure : (a : A) → ((s : State W) → P s → Q a s) → Leads P (pure a) Q
  unfolding pure
  Leads-pure a h = record { runs = h }

pub ruleset leads_rules = (keeps_rules, Leads-after, Leads-if, Leads-pure)
