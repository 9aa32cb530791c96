-- ===== src/State/Actions.antt =====
-- Actions on the state: a body of the source that returns an `A`.
use redis_event_stream_modul.Base.{Str, Bytes, ℕ, ℤ, Bool, true, List, ◌∷◌, if◌then◌else◌}
use redis_event_stream_modul.Base.Result.{Result}
use redis_event_stream_modul.Redis.{CallOptions, Value, Redis}
use redis_event_stream_modul.Stats.Counters.{Counter, Latch, add_to, store, store_latch}
use redis_event_stream_modul.Stats.Streams.{StreamStats, put_stats}
use redis_event_stream_modul.Stats.Log.{LogLine, Detail, warning}
use redis_event_stream_modul.State.{State}

abbrev pub M : Type 0 → Type 0 → Type 0
M W A = State W → A × State W

abbrev pub Act : Type 0 → Type 0
Act W = M W (Unit {0})

module _ {W : Type 0} where
  unfoldable pub pure : {A : Type 0} → A → M W A
  pure a s = (a, s)

  unfoldable pub gets : {A : Type 0} → (State W → A) → M W A
  gets f s = (f s, s)

  unfoldable pub skip : Act W
  skip s = (tt, s)

  unfoldable pub when : Bool → Act W → Act W
  when b m s = if b then m s else (tt, s)

  infixl 5 ◌>>=◌ ◌>>◌
  -- Opening this opens the actions above too.
  unfoldable pub ◌>>=◌ : {A B : Type 0} → M W A → (A → M W B) → M W B
  unfolding pure gets skip when
  ◌>>=◌ m f s = f (m s).0 (m s).1

  abbrev pub ◌>>◌ : {B : Type 0} → Act W → M W B → M W B
  m >> k = m >>= λ _. k

  -- `counter.fetch_add(n)`
  unfoldable pub fetch_add : Counter → ℕ → Act W
  fetch_add c n s = (tt, record s { counters = add_to s.counters c n })

  unfoldable pub store_counter : Counter → ℕ → Act W
  store_counter c v s = (tt, record s { counters = store s.counters c v })

  unfoldable pub set_latch : Latch → Bool → Act W
  set_latch l v s = (tt, record s { latches = store_latch s.latches l v })

  unfoldable pub log_line : LogLine → Act W
  log_line line s = (tt, record s { log = line ∷ s.log })

  -- A warning under a latch that `compare_exchange` sets.
  unfoldable pub warn_once : Latch → Detail → Act W
  warn_once l detail s =
      if s.latches l
      then (tt, s)
      else (tt, record s { latches = store_latch s.latches l true; log = warning detail ∷ s.log })

  -- A write to the entry of a stream in `STREAM_STATS`, inserted if it was missing.
  unfoldable pub set_entry : Str → StreamStats → Act W
  set_entry stream r s = (tt, record s { stream_stats = put_stats s.stream_stats stream r })

module _ {W : Type 0} (R : Redis W) where
  unfoldable pub call : Str → CallOptions → List Bytes → M W (Result Str Value)
  call command options args s =
      let (res, w) = R.call_ext command options args s.redis in (res, record s { redis = w })

  unfoldable pub select_db : ℤ → M W Bool
  select_db db s = let (done, w) = R.select_db db s.redis in (done, record s { redis = w })
