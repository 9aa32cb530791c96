-- ===== src/Examples/Cluster.antt =====
-- src/cluster.rs: the theorems of the tags at a concrete server.
use redis_event_stream_modul.Base.{text, is_empty, any, ℕ, some, ◌≡◌, refl}
use redis_event_stream_modul.Redis.{Redis}
use redis_event_stream_modul.Cluster.Tags.{
  usable, candidate_tag, probe_tag_owned, select_loop, select_owned_tag,
}
use redis_event_stream_modul.Cluster.Owned.{IsOwned, select_owned_tag-IsOwned}
use redis_event_stream_modul.State.Actions.{call, gets, ◌>>=◌}
use redis_event_stream_modul.Examples.World.{server, fresh}

-- A server that names the slot of `k` for every slot.
abbrev cluster_server : Redis ℕ
cluster_server = record server { canonical_name = some (λ slot. some (text "k")) }

is_selected : (select_owned_tag cluster_server fresh).0 ≡ some (text "k")
unfolding select_owned_tag select_loop candidate_tag usable is_empty any probe_tag_owned call gets
    ◌>>=◌
is_selected = refl

select_owned_tag-IsOwned_example :
    IsOwned cluster_server (text "k") (select_owned_tag cluster_server fresh).1
select_owned_tag-IsOwned_example =
    select_owned_tag-IsOwned cluster_server fresh (text "k") is_selected
