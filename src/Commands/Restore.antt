-- ===== src/Commands/Restore.antt =====
-- src/commands.rs: the selected database along `EVENTSTREAM.PRUNE` and `EVENTSTREAM.STREAMS`.
use redis_event_stream_modul.Base.{
  Str, Bytes, ℤ, pos, true, false, List, [], ◌∷◌, Option, none, some, if◌then◌else◌, ◌≡◌, refl,
  Bool-cases, inl, inr, ◌∙◌,
}
use redis_event_stream_modul.Base.Result.{Result, ok, err}
use redis_event_stream_modul.Redis.{Redis}
use redis_event_stream_modul.Commands.{CommandError, in_db0, prune_on, cmd_prune, prune_in_db0}
use redis_event_stream_modul.Commands.Streams.{
  StreamsMode, streams_in_db0, streams_on, streams_for, cmd_streams,
}
use redis_event_stream_modul.State.{State}
use redis_event_stream_modul.State.Actions.{M, ◌>>=◌, pure, gets, select_db}

-- What `RM_SelectDb` documents: it selects the database if it succeeds and changes nothing else, and a
-- database that was selected once can be selected again.
pub record SelectsDbs {W : Type 0} (R : Redis W) : Type 0 where
  pub selects :
      (n : ℤ) (w : W)
      → R.selected_db (R.select_db n w).1 ≡ (if (R.select_db n w).0 then n else R.selected_db w)
  pub selects_again : (v w : W) → (R.select_db (R.selected_db v) w).0 ≡ true

module _ {W : Type 0} (R : Redis W) (D : SelectsDbs R) where
  -- The database selected after an action is the one selected before.
  abbrev Restores : {A : Type 0} → M W A → Type 0
  Restores m = (s : State W) → R.selected_db (m s).1.redis ≡ R.selected_db s.redis

  back : (v w : W) → R.selected_db (R.select_db (R.selected_db v) w).1 ≡ R.selected_db v
  back v w = D.selects (R.selected_db v) w ∙ rw (D.selects_again v w) refl

  refused :
      (w : W)
      → (R.select_db (pos 0) w).0 ≡ false
      → R.selected_db (R.select_db (pos 0) w).1 ≡ R.selected_db w
  refused w h = D.selects (pos 0) w ∙ rw h refl

  in_db0-Restores : {A : Type 0} (body : M W (Result CommandError A)) → Restores (in_db0 R body)
  unfolding in_db0 ◌>>=◌ gets pure select_db
  in_db0-Restores body s = elim (Bool-cases (R.select_db (pos 0) s.redis).0) [
    | inl e ↦ rw e (back s.redis _)
    | inr e ↦ rw e (refused s.redis e)
  ]

  prune_on-Restores : (t : Option Str) → Restores (prune_on R t)
  unfolding prune_on ◌>>=◌ gets pure
  prune_on-Restores none s = refl
  prune_on-Restores (some seg) s = in_db0-Restores (prune_in_db0 R _) s

  -- Whatever `EVENTSTREAM.PRUNE` replies, and whatever its calls answer, the database that the caller had
  -- selected is selected after it, if the server selects databases as documented.
  pub cmd_prune-Restores :
      (args : List Bytes) (s : State W)
      → R.selected_db (cmd_prune R args s).1.redis ≡ R.selected_db s.redis
  unfolding cmd_prune ◌>>=◌ gets pure
  cmd_prune-Restores [] s = prune_on-Restores _ s
  cmd_prune-Restores (arg ∷ args) s = refl

  streams_on-Restores :
      (m : StreamsMode) (t : Option Str) (s : State W)
      → R.selected_db (streams_on R m t s).1.redis ≡ R.selected_db s.redis
  unfolding streams_on ◌>>=◌ gets pure
  streams_on-Restores m none s = refl
  streams_on-Restores m (some seg) s = in_db0-Restores (streams_in_db0 R _ m) s

  streams_for-Restores :
      (m : Result CommandError StreamsMode) (s : State W)
      → R.selected_db (streams_for R m s).1.redis ≡ R.selected_db s.redis
  unfolding streams_for ◌>>=◌ gets pure
  streams_for-Restores (ok m) s = streams_on-Restores m _ s
  streams_for-Restores (err e) s = refl

  -- Whatever its arguments, and whatever its calls answer: the database that the caller had selected is
  -- selected after `EVENTSTREAM.STREAMS`, if the server selects databases as documented.
  pub cmd_streams-Restores :
      (args : List Bytes) (s : State W)
      → R.selected_db (cmd_streams R args s).1.redis ≡ R.selected_db s.redis
  unfolding cmd_streams pure
  cmd_streams-Restores [] s = streams_for-Restores _ s
  cmd_streams-Restores (a ∷ []) s = streams_for-Restores _ s
  cmd_streams-Restores (a ∷ b ∷ args) s = refl
