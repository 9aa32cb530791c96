-- ===== src/Examples/Settings.antt =====
-- src/config.rs: the settings at concrete inputs.
use redis_event_stream_modul.Base.{text, pos, negsuc, [], ◌∷◌}
use redis_event_stream_modul.Config.Store
use redis_event_stream_modul.Config.Store.{configure, default_configs}
use redis_event_stream_modul.Config.Store.Invariant.{
  IsValid, configure-IsValid, default_configs-IsValid,
}

configure-IsValid_example : IsValid (
    configure
      (Store.maxlen (negsuc 4)
        ∷ Store.async_batch_size (pos 8)
        ∷ Store.events (text "@string")
        ∷ [])
      default_configs)
configure-IsValid_example =
    configure-IsValid
      (Store.maxlen (negsuc 4)
        ∷ Store.async_batch_size (pos 8)
        ∷ Store.events (text "@string")
        ∷ [])
      default_configs default_configs-IsValid
