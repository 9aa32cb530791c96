-- ===== src/Commands.antt =====
-- src/commands.rs: `EVENTSTREAM.PRUNE`; the other commands are in Commands/Streams.antt.
pub mod Restore
pub mod Streams
use redis_event_stream_modul.Base.{
  Str, Bytes, text, as_bytes, ℕ, zero, pos, ◌+◌, sub_i64, Bool, true, false, not, List, [], ◌∷◌,
  ◌++◌, Option, none, some, if◌then◌else◌,
}
use redis_event_stream_modul.Base.Result.{Result, ok, err}
use redis_event_stream_modul.Redis.{
  CallOptions, Value, integer, bulk, array, Values, nil, cons, Redis,
}
use redis_event_stream_modul.Capture.Flush.{plain_options}
use redis_event_stream_modul.Cluster.Tags.{tag_segment_cached}
use redis_event_stream_modul.Stats.Streams.{StreamStats, lookup_stats, put_stats}
use redis_event_stream_modul.State.Actions.{M, Act, ◌>>=◌, ◌>>◌, pure, gets, call, select_db}

-- `RedisError`
pub data CommandError : Type 0 where
  wrong_arity select_failed unexpected_reply not_a_text : CommandError
  call_failed unknown_argument : Str → CommandError

abbrev pub prune_call_options : CallOptions
prune_call_options = record { replicate = true; errors_as_replies = true; verify_oom = false }

-- The reply of `EXISTS` says that the key is absent.
unfoldable pub is_absent : Result Str Value → Bool
is_absent (ok (integer (pos zero))) = true
is_absent _ = false

-- `name.try_into()`
abbrev pub name_of : Value → Option Str
name_of (bulk name) = some name
name_of _ = none

module _ {W : Type 0} where
  -- The dedupe bits of a stream that was pruned.
  unfoldable pub forget_entry : Str → Option StreamStats → Act W
  forget_entry name none s = (tt, s)
  forget_entry name (some r) s = (
    tt,
    record s {
      stream_stats =
          put_stats s.stream_stats name
            (record r { counted = false; registered = false; registry_failed = false });
      current_streams = if r.counted then sub_i64 s.current_streams 1 else s.current_streams;
    },
  )

  unfoldable pub forget : Str → Act W
  forget name s = forget_entry name (lookup_stats s.stream_stats name) s

module _ {W : Type 0} (R : Redis W) where
  -- The `SREM`, whether it succeeded, and what follows it.
  unfoldable pub remove_reply : Str → Result Str Value → M W ℕ
  remove_reply name (ok _) = do forget name; pure 1
  remove_reply name (err _) = pure 0

  -- One name of the registry: the number of members removed.
  unfoldable pub prune_name : Str → Str → M W ℕ
  prune_name registry name = do
    exists ← call R (text "EXISTS") plain_options (as_bytes name ∷ [])
    if not (is_absent exists) then pure 0 else do
      res ← call R (text "SREM") prune_call_options (as_bytes registry ∷ as_bytes name ∷ [])
      remove_reply name res

  unfoldable pub prune_names : Str → Values → ℕ → M W (Result CommandError ℕ)
  prune_names registry nil pruned s = (ok pruned, s)
  prune_names registry (cons v rest) pruned s = elim (name_of v) [
    | none ↦ (err not_a_text, s)
    | some name ↦
        prune_names registry rest (pruned + (prune_name registry name s).0)
          (prune_name registry name s).1
  ]

  unfoldable pub prune_members : Str → Result Str Value → M W (Result CommandError ℕ)
  prune_members registry (ok (array names)) = prune_names registry names 0
  prune_members registry (ok _) = pure (err unexpected_reply)
  prune_members registry (err msg) = pure (err (call_failed msg))

  unfoldable pub prune_in_db0 : Str → M W (Result CommandError ℕ)
  prune_in_db0 registry = do
    members ← call R (text "SMEMBERS") plain_options (as_bytes registry ∷ [])
    prune_members registry members

  -- A body in database 0, with the database of the caller restored after it.
  unfoldable pub in_db0 : {A : Type 0} → M W (Result CommandError A) → M W (Result CommandError A)
  in_db0 body = do
    orig_db ← gets (λ s. R.selected_db s.redis)
    selected ← select_db R (pos 0)
    if not selected
        then pure (err select_failed)
        else do out ← body; restored ← select_db R orig_db; pure out

  unfoldable pub prune_on : Option Str → M W (Result CommandError ℕ)
  prune_on none = pure (ok 0)
  prune_on (some seg) = do
    prefix ← gets (λ s. s.settings.prefix)
    in_db0 (prune_in_db0 (prefix ++ (seg ++ text "#streams")))

  -- `args` are the arguments after the name of the command.
  unfoldable pub cmd_prune : List Bytes → M W (Result CommandError ℕ)
  cmd_prune [] = do seg ← gets tag_segment_cached; prune_on seg
  cmd_prune (arg ∷ args) = pure (err wrong_arity)
