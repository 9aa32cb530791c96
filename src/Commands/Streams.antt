-- ===== src/Commands/Streams.antt =====
-- src/commands.rs: `EVENTSTREAM.STREAMS` and `EVENTSTREAM.STATS`.
use redis_event_stream_modul.Base.{
  Str, Bytes, text, as_bytes, from_utf8, ◌=s=◌, ℕ, ◌+◌, leb, ℤ, pos, of_bits, Bool, ◌&&◌, List, [],
  ◌∷◌, ◌++◌, map, Option, none, some, if◌then◌else◌,
}
use redis_event_stream_modul.Base.Result.{Result, ok, err}
use redis_event_stream_modul.Redis.{Value, integer, array, Values, nil, cons, Redis}
use redis_event_stream_modul.Capture.Flush.{plain_options}
use redis_event_stream_modul.Cluster.Tags.{tag_segment_cached}
use redis_event_stream_modul.Stats.Streams.{StreamStats, lookup_stats}
use redis_event_stream_modul.Stats.Snapshot.{StatValue, int, text_value, stats_snapshot}
use redis_event_stream_modul.Commands.{
  CommandError, unknown_argument, wrong_arity, unexpected_reply, not_a_text, call_failed, name_of,
  in_db0,
}
use redis_event_stream_modul.State.{State}
use redis_event_stream_modul.State.Actions.{M, ◌>>=◌, pure, gets, call}

pub data StreamsMode : Type 0 where
  bare with_stats verbose : StreamsMode

-- What a command replies: the reply of the server as it is, or an array that the module builds.
mutual
  pub data Reply : Type 0 where
    raw : Value → Reply
    number : ℤ → Reply
    bulk_text simple_text : Str → Reply
    replies : Replies → Reply

  pub data Replies : Type 0 where
    no_reply : Replies
    reply_then : Reply → Replies → Replies

unfoldable pub reply_list : List Reply → Replies
reply_list [] = no_reply
reply_list (r ∷ rs) = reply_then r (reply_list rs)

abbrev pub row : List Reply → Reply
row rs = replies (reply_list rs)

-- The codes of `A` and `Z` are 65 and 90.
abbrev to_ascii_lowercase : ℕ → ℕ
to_ascii_lowercase c = if leb 65 c && leb c 90 then c + 32 else c

unfoldable pub eq_ignore_ascii_case : Str → Str → Bool
eq_ignore_ascii_case a b = map to_ascii_lowercase a =s= map to_ascii_lowercase b

-- `map_or((0, 0), |s| (s.forwarded, s.dropped))`
abbrev counts_of : Option StreamStats → ℕ × ℕ
counts_of none = (0, 0)
counts_of (some r) = (r.forwarded, r.dropped)

module _ {W : Type 0} where
  -- The row of a stream under `WITHSTATS`.
  unfoldable pub stats_row : State W → Str → Reply
  stats_row s name =
      let (forwarded, dropped) = counts_of (lookup_stats s.stream_stats name) in
      row (
        bulk_text name
        ∷ simple_text (text "forwarded")
        ∷ number (of_bits forwarded)
        ∷ simple_text (text "dropped")
        ∷ number (of_bits dropped)
        ∷ [])

  unfoldable pub stats_rows : State W → Values → Result CommandError (List Reply)
  stats_rows s nil = ok []
  stats_rows s (cons v rest) = elim (name_of v) [
    | none ↦ err not_a_text
    | some name ↦ elim (stats_rows s rest) [
      | ok rows ↦ ok (stats_row s name ∷ rows)
      | err e ↦ err e
    ]
  ]

unfoldable pub streams_mode : Str → Result CommandError StreamsMode
streams_mode arg =
    if eq_ignore_ascii_case arg (text "withstats")
    then ok with_stats
    else if eq_ignore_ascii_case arg (text "verbose")
    then ok verbose
    else err (unknown_argument arg)

-- `args[1].try_as_str()?` and the mode of it.
unfoldable pub mode_of : Option Str → Result CommandError StreamsMode
mode_of none = err not_a_text
mode_of (some arg) = streams_mode arg

-- The number of an integer reply.
unfoldable pub integer_or_zero : Result Str Value → ℤ
integer_or_zero (ok (integer n)) = n
integer_or_zero _ = pos 0

abbrev as_reply : Result CommandError (List Reply) → Result CommandError Reply
as_reply (ok rows) = ok (row rows)
as_reply (err e) = err e

module _ {W : Type 0} (R : Redis W) where
  unfoldable pub stream_liveness : Str → M W (ℤ × ℤ)
  stream_liveness name = do
    exists ← call R (text "EXISTS") plain_options (as_bytes name ∷ [])
    len ← call R (text "XLEN") plain_options (as_bytes name ∷ [])
    pure (integer_or_zero exists, integer_or_zero len)

  abbrev verbose_row : Str → ℤ × ℤ → Reply
  verbose_row name (exists, len) = row (bulk_text name ∷ number exists ∷ number len ∷ [])

  abbrev push_row : Reply → Result CommandError (List Reply) → Result CommandError (List Reply)
  push_row row (ok rows) = ok (row ∷ rows)
  push_row row (err e) = err e

  unfoldable pub verbose_rows : Values → M W (Result CommandError (List Reply))
  verbose_rows nil s = (ok [], s)
  verbose_rows (cons v rest) s = elim (name_of v) [
    | none ↦ (err not_a_text, s)
    | some name ↦
        let (liveness, s') = stream_liveness name s in
        let (rows, s'') = verbose_rows rest s' in (push_row (verbose_row name liveness) rows, s'')
  ]

  -- The body in database 0, behind the `SMEMBERS`.
  unfoldable pub streams_reply : StreamsMode → Result Str Value → M W (Result CommandError Reply)
  streams_reply bare (ok members) = pure (ok (raw members))
  streams_reply mode (err msg) = pure (err (call_failed msg))
  streams_reply with_stats (ok (array names)) = gets (λ s. as_reply (stats_rows s names))
  streams_reply verbose (ok (array names)) = do rows ← verbose_rows names; pure (as_reply rows)
  streams_reply mode (ok _) = pure (err unexpected_reply)

  unfoldable pub streams_in_db0 : Str → StreamsMode → M W (Result CommandError Reply)
  streams_in_db0 registry mode = do
    members ← call R (text "SMEMBERS") plain_options (as_bytes registry ∷ [])
    streams_reply mode members

  unfoldable pub streams_on : StreamsMode → Option Str → M W (Result CommandError Reply)
  streams_on mode none = pure (ok (row []))
  streams_on mode (some seg) = do
    prefix ← gets (λ s. s.settings.prefix)
    in_db0 R (streams_in_db0 (prefix ++ (seg ++ text "#streams")) mode)

  unfoldable pub streams_for : Result CommandError StreamsMode → M W (Result CommandError Reply)
  streams_for (err e) = pure (err e)
  streams_for (ok mode) = do seg ← gets tag_segment_cached; streams_on mode seg

  -- `args` are the arguments after the name of the command.
  unfoldable pub cmd_streams : List Bytes → M W (Result CommandError Reply)
  cmd_streams [] = streams_for (ok bare)
  cmd_streams (arg ∷ []) = streams_for (mode_of (from_utf8 arg))
  cmd_streams (a ∷ b ∷ args) = pure (err wrong_arity)

unfoldable pub stat_reply : StatValue → Reply
stat_reply (int i) = number i
stat_reply (text_value t) = bulk_text t

-- Each name of the snapshot and its value, in turn.
unfoldable pub stats_replies : List (Str × StatValue) → List Reply
stats_replies [] = []
stats_replies ((name, value) ∷ rest) = simple_text name ∷ stat_reply value ∷ stats_replies rest

-- `args` are not looked at.
unfoldable pub cmd_stats : {W : Type 0} → List Bytes → State W → Reply
cmd_stats args s = row (stats_replies (stats_snapshot s))
