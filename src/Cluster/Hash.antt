-- ===== src/Cluster/Hash.antt =====
-- src/cluster.rs: `crc16` and the synthetic tags of the fallback path.
use redis_event_stream_modul.Base.{
  Str, Bytes, text, show_nat, as_bytes, ℕ, zero, suc, ◌*◌, ◌%◌, ◌^◌, ◌==◌, leb, [], ◌∷◌, ◌++◌,
  Option, none, some, if◌then◌else◌,
}
use Prim.Native.Nat.{bit_xor}

abbrev pub slot_count : ℕ
slot_count = 16384

-- One of the eight rounds; `crc & 0x8000` is the test of the top bit of a `u16`.
unfoldable pub crc_bit : ℕ → ℕ
crc_bit crc = if leb 0x8000 crc then bit_xor (crc * 2 % 2 ^ 16) 0x1021 else crc * 2 % 2 ^ 16

unfoldable pub crc_rounds : ℕ → ℕ → ℕ
crc_rounds zero crc = crc
crc_rounds (suc n) crc = crc_rounds n (crc_bit crc)

unfoldable pub crc_loop : ℕ → Bytes → ℕ
crc_loop crc [] = crc
crc_loop crc (byte ∷ rest) = crc_loop (crc_rounds 8 (bit_xor crc (byte * 256))) rest

unfoldable pub crc16 : Bytes → ℕ
crc16 data_bytes = crc_loop 0 data_bytes

-- The tag `es{i}`.
unfoldable pub synthetic_tag : ℕ → Str
synthetic_tag i = text "es" ++ show_nat i

-- The lowest index from `i` on whose tag lands on the slot, among `fuel` many.
unfoldable pub tag_index : ℕ → ℕ → ℕ → Option ℕ
tag_index zero i slot = none
tag_index (suc fuel) i slot =
    let next = tag_index fuel (suc i) slot in
    if crc16 (as_bytes (synthetic_tag i)) % slot_count == slot then some i else next

-- The table is full when the index 156393 has been hashed.
abbrev pub table_fuel : ℕ
table_fuel = 156394

unfoldable pub fallback_tag_for_slot : ℕ → Option Str
fallback_tag_for_slot slot = elim (tag_index table_fuel 0 slot) [
  | none ↦ none
  | some i ↦ some (synthetic_tag i)
]
