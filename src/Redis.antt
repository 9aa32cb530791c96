-- ===== src/Redis.antt =====
-- What the module uses of the server: the module API of Redis, as a parameter. `W` stands for all that
-- the server keeps; a call may change it.
use redis_event_stream_modul.Base.{Str, Bytes, ℕ, ℤ, Bool, List, Option}
use redis_event_stream_modul.Base.Result.{Result}

-- src/capture.rs, src/commands.rs: the flags of a call. `verify_oom` is the flag `M`.
pub record CallOptions : Type 0 where
  pub replicate : Bool
  pub errors_as_replies : Bool
  pub verify_oom : Bool

-- A reply, as far as the module looks into it.
mutual
  pub data Value : Type 0 where
    integer : ℤ → Value
    bulk : Str → Value
    array : Values → Value
    other : Value

  pub data Values : Type 0 where
    nil : Values
    cons : Value → Values → Values

-- The context flags that the module reads.
pub record Flags : Type 0 where
  pub master : Bool
  pub loading : Bool
  pub cluster : Bool

pub record Redis (W : Type 0) : Type 0 where
  -- `RM_Call`: the reply, or the text of the error.
  pub call_ext : Str → CallOptions → List Bytes → W → Result Str Value × W
  -- `RM_SelectDb`: whether it returned `REDISMODULE_OK`.
  pub select_db : ℤ → W → Bool × W
  pub selected_db : W → ℤ
  pub milliseconds : W → ℤ
  pub unix_now : W → ℕ
  pub flags : W → Flags
  -- `RM_AddPostNotificationJob`: whether the job was accepted.
  pub add_job : W → Bool × W
  -- `RM_ClusterCanonicalKeyNameInSlot`, where the server has it: null is `none`, and a name is decoded
  -- (`from_utf8_lossy`).
  pub canonical_name : Option (ℕ → Option Str)
  -- `CARGO_PKG_VERSION`, which the build supplies.
  pub package_version : Str
