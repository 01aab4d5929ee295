-- ===== src/Byteorder/RoundTrip.antt =====
-- What the little-endian readers get back from what the writers wrote (byteorder.hpp).
use ipc_data_relay.Common.{ℕ, ◌+◌, ◌*◌, ◌/◌, ◌%◌, ◌^◌, ◌<◌, ◌≡◌, ◌++◌, arith}
use ipc_data_relay.Byteorder.{
  Bytes, put_u16le, put_u32le, put_u64le, get_u16le, get_u32le, get_u64le,
}

pub u16_split : (v : ℕ) → v < 2 ^ 16 → v % 256 + v / 2 ^ 8 % 256 * 2 ^ 8 ≡ v
u16_split v h = omega arith

pub u32_split :
    (v : ℕ)
    → v < 2 ^ 32
    → v % 256 + v / 2 ^ 8 % 256 * 2 ^ 8 + v / 2 ^ 16 % 256 * 2 ^ 16 + v / 2 ^ 24 % 256 * 2 ^ 24 ≡ v
u32_split v h = omega arith

pub get-put_u16le : (v : ℕ) (rest : Bytes) → v < 2 ^ 16 → get_u16le (put_u16le v ++ rest) 0 ≡ v
unfolding get_u16le put_u16le
get-put_u16le v rest h = u16_split v h

pub get-put_u32le : (v : ℕ) (rest : Bytes) → v < 2 ^ 32 → get_u32le (put_u32le v ++ rest) 0 ≡ v
unfolding get_u32le put_u32le
get-put_u32le v rest h = u32_split v h

pub get-put_u64le : (v : ℕ) (rest : Bytes) → v < 2 ^ 64 → get_u64le (put_u64le v ++ rest) 0 ≡ v
unfolding get_u64le put_u64le
get-put_u64le v rest h = omega arith
