-- ===== src/Examples/World.antt =====
-- A server that accepts every write, and states of the module on it.
use redis_event_stream_modul.Base.{Str, text, ℕ, suc, pos, true, false, [], ◌∷◌, none}
use redis_event_stream_modul.Base.Result.{ok}
use redis_event_stream_modul.Redis.{Redis, other}
use redis_event_stream_modul.Config.Filter.{string}
use redis_event_stream_modul.Encode.Event.{PendingEvent, fixed, sync}
use redis_event_stream_modul.State.{State, Settings}

-- The server keeps the number of its calls.
abbrev pub server : Redis ℕ
server = record {
  call_ext = λ c o args w. (ok other, suc w);
  select_db = λ n w. (true, w);
  selected_db = λ w. pos 0;
  milliseconds = λ w. pos 5000;
  unix_now = λ w. 5;
  flags = λ w. record { master = true; loading = false; cluster = false };
  add_job = λ w. (true, w);
  canonical_name = none;
  package_version = text "1.0.0";
}

abbrev pub settings : Settings
settings = record {
  prefix = text "es:";
  enabled = true;
  filter = record { star = true; classes = []; names = [] };
  key_filter = record { star = true; patterns = [] };
  source_dbs = record { star = true; dbs = [] };
  maxlen = pos 100;
  max_streams = pos 0;
  retention_ms = pos 0;
  overrides = [];
  firehose = false;
  verify_oom = true;
  entry_seq = false;
  entry_format = fixed;
  auto_group_enabled = false;
  auto_group = [];
  control_checkpoint_ms = pos 0;
}

abbrev pub fresh_on : {W : Type 0} → W → State W
fresh_on w = record {
  redis = w;
  settings = settings;
  counters = λ c. 0;
  latches = λ l. false;
  stream_stats = [];
  current_streams = pos 0;
  seq = 0;
  per_node = false;
  node_tag = none;
  verified_tag = none;
  pending_markers = [];
  markers_dirty = false;
  generation = text "g";
  last_checkpoint_ms = pos 0;
  jobs = [];
  log = [];
  active_mode = sync;
  event_queue = none;
  next_event_id = 0;
  queue_depth = pos 0;
}

abbrev pub fresh : State ℕ
fresh = fresh_on 0

abbrev pub event_on : Str → PendingEvent
event_on key = record {
  prefix = text "es:";
  suffix = text "set";
  event = text "set";
  key = key;
  db = pos 0;
  class = string ∷ [];
  data_retention = record { maxlen = pos 100; retention_ms = pos 0 };
  control_retention = record { maxlen = pos 100; retention_ms = pos 0 };
  firehose_retention = record { maxlen = pos 100; retention_ms = pos 0 };
  max_streams = pos 0;
  format = fixed;
  entry_seq = false;
}
