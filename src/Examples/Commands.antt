-- ===== src/Examples/Commands.antt =====
-- src/commands.rs: the theorems of the commands at a concrete server.
use redis_event_stream_modul.Base.{
  suc, arith, if◌then◌else◌, of_bits, ℕ, ◌=s=◌, List, ◌∷◌, false, true, text, ℤ, pos, [], ◌≡◌, refl,
  none,
}
use redis_event_stream_modul.Base.Result.{ok}
use redis_event_stream_modul.Redis.{Redis, other, integer, bulk, array, cons, nil}
use redis_event_stream_modul.Commands.{
  cmd_prune, prune_on, in_db0, prune_in_db0, prune_members, prune_names, prune_name, remove_reply,
  forget, forget_entry, is_absent,
}
use redis_event_stream_modul.Stats.Streams.{put_stats, lookup_stats, default_stats}
use redis_event_stream_modul.Capture.Flush.{on_swapdb}
use redis_event_stream_modul.Cluster.Tags.{tag_segment_cached}
use redis_event_stream_modul.State.Actions.{◌>>=◌, gets, pure, call, select_db, when, skip}
use redis_event_stream_modul.Commands.Streams.{cmd_streams}
use redis_event_stream_modul.Counting.Primitive.{counted_streams}
use redis_event_stream_modul.Counting.Reach.{
  Operation, prune, swap, perform, perform_all, perform_all-Counts,
}
use redis_event_stream_modul.Commands.Restore.{SelectsDbs, cmd_prune-Restores, cmd_streams-Restores}
use redis_event_stream_modul.State.{State}
use redis_event_stream_modul.Examples.World.{fresh_on, server, fresh}

-- A server that keeps the database that is selected.
abbrev db_server : Redis ℤ
db_server = record {
  call_ext = λ c o args w. (ok other, w);
  select_db = λ n w. (true, n);
  selected_db = λ w. w;
  milliseconds = λ w. pos 5000;
  unix_now = λ w. 5;
  flags = λ w. record { master = true; loading = false; cluster = false };
  add_job = λ w. (true, w);
  canonical_name = none;
  package_version = text "1.0.0";
}

db_server-SelectsDbs : SelectsDbs db_server
db_server-SelectsDbs = record { selects = λ n w. refl; selects_again = λ v w. refl }

cmd_prune-Restores_example :
    db_server.selected_db (cmd_prune db_server [] (fresh_on (pos 3))).1.redis ≡ pos 3
cmd_prune-Restores_example = cmd_prune-Restores db_server db_server-SelectsDbs [] (fresh_on (pos 3))

cmd_streams-Restores_example :
    db_server.selected_db (cmd_streams db_server (text "verbose" ∷ []) (fresh_on (pos 3))).1.redis
    ≡ pos 3
cmd_streams-Restores_example =
    cmd_streams-Restores db_server db_server-SelectsDbs (text "verbose" ∷ []) (fresh_on (pos 3))

-- A server whose registry holds one stream, which was deleted.
abbrev pruned_server : Redis ℕ
pruned_server = record server {
  call_ext = λ c o args w. (
    if c =s= text "SMEMBERS"
        then ok (array (cons (bulk (text "es:set")) nil))
        else ok (integer (pos 0)),
    suc w,
  );
}

-- Two streams that hold a slot.
abbrev two_streams : State ℕ
two_streams = record fresh {
  stream_stats =
      (text "es:set", record default_stats { counted = true; registered = true })
      ∷ (text "es:del", record default_stats { counted = true; registered = true })
      ∷ [];
  current_streams = pos 2;
}

abbrev operations : List Operation
operations = prune [] ∷ swap (pos 1) (pos 2) ∷ []

operations_counted :
    counted_streams (perform_all pruned_server operations two_streams).stream_stats ≡ 1
unfolding counted_streams perform_all perform cmd_prune prune_on in_db0 prune_in_db0 prune_members
    prune_names prune_name remove_reply forget forget_entry put_stats lookup_stats on_swapdb ◌=s=◌
    ◌>>=◌ gets pure call select_db is_absent tag_segment_cached when skip
operations_counted = refl

perform_all-Counts_example :
    (perform_all pruned_server operations two_streams).current_streams
    ≡ pos (counted_streams (perform_all pruned_server operations two_streams).stream_stats)
perform_all-Counts_example =
    perform_all-Counts pruned_server operations two_streams (unfold counted_streams of_bits in refl)
      (rw operations_counted (omega arith))
