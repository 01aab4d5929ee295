-- ===== src/Byteorder.antt =====
-- include/ipcrelay/common/byteorder.hpp: little-endian integers, one byte at a time.
-- A buffer is the list of its bytes. A writer that fills a buffer from front to back is the list
-- that it writes; a reader takes the buffer and the offset that the source adds to the pointer.
-- `(v >> 8 * k) & 0xFF` is division and remainder. Bytes are below 256, so that `|` of bytes shifted
-- to different places is their sum.
pub mod RoundTrip
use ipc_data_relay.Common.{ℕ, zero, suc, ◌+◌, ◌-◌, ◌*◌, ◌/◌, ◌%◌, ◌^◌, ◌<◌, List, [], ◌∷◌, get_or}

abbrev pub Bytes : Type 0
Bytes = List ℕ

-- Every entry is a uint8_t.
abbrev pub IsBytes : Bytes → Type 0
IsBytes [] = Unit {0}
IsBytes (b ∷ bs) = (b < 256) × IsBytes bs

-- p[i]. The callers check the length of the buffer first.
abbrev pub byte_at : Bytes → ℕ → ℕ
byte_at p i = get_or p i 0

unfoldable pub put_u8 : ℕ → Bytes
put_u8 v = v % 256 ∷ []

unfoldable pub put_u16le : ℕ → Bytes
put_u16le v = v % 256 ∷ v / 2 ^ 8 % 256 ∷ []

unfoldable pub put_u32le : ℕ → Bytes
put_u32le v = v % 256 ∷ v / 2 ^ 8 % 256 ∷ v / 2 ^ 16 % 256 ∷ v / 2 ^ 24 % 256 ∷ []

-- the loop of put_u64le from round i on
unfoldable pub put_u64le_loop : ℕ → ℕ → ℕ → Bytes
put_u64le_loop zero i v = []
put_u64le_loop (suc rounds) i v = v / 2 ^ (8 * i) % 256 ∷ put_u64le_loop rounds (i + 1) v

unfoldable pub put_u64le : ℕ → Bytes
unfolding put_u64le_loop
put_u64le v = put_u64le_loop 8 0 v

unfoldable pub get_u8 : Bytes → ℕ → ℕ
get_u8 p i = byte_at p i

unfoldable pub get_u16le : Bytes → ℕ → ℕ
get_u16le p i = byte_at p i + byte_at p (i + 1) * 2 ^ 8

unfoldable pub get_u32le : Bytes → ℕ → ℕ
get_u32le p i =
    byte_at p i
    + byte_at p (i + 1) * 2 ^ 8
    + byte_at p (i + 2) * 2 ^ 16
    + byte_at p (i + 3) * 2 ^ 24

-- the loop of get_u64le; `rounds` is i + 1, and `v << 8` drops what leaves the 64 bits
unfoldable pub get_u64le_loop : ℕ → Bytes → ℕ → ℕ → ℕ
get_u64le_loop zero p at v = v
get_u64le_loop (suc rounds) p at v =
    get_u64le_loop rounds p at (v * 2 ^ 8 % 2 ^ 64 + byte_at p (at + rounds))

unfoldable pub get_u64le : Bytes → ℕ → ℕ
unfolding get_u64le_loop
get_u64le p i = get_u64le_loop 8 p i 0
