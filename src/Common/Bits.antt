-- ===== src/Common/Bits.antt =====
-- A law of the exclusive or of bytes, read off a table of all of them.
use Prim.Native.Nat.{ℕ, zero, suc, ◌<◌, bit_xor}
use ipc_data_relay.Common.Tests.{◌==◌, ==_iff, Bool-cases}
use mathlib.Core.Path.{◌≡◌, refl}
use mathlib.Core.Logic.{inl, inr}
use mathlib.Core.Bool.{Bool, true, ◌&&◌}
use native.Mathlib.Omega.{arith}

-- The test passes at each of the first so many numbers.
unfoldable pub passes : (ℕ → Bool) → ℕ → Bool
passes test zero = true
passes test (suc count) = passes test count && test count

pub passes_at :
    (test : ℕ → Bool) (count i : ℕ) → passes test count ≡ true → i < count → test i ≡ true
unfolding passes
passes_at test zero i all under = absurd (omega arith)
passes_at test (suc count) i all under = elim (Bool-cases (i == count)) [
  | inl same ↦ rw ((==_iff i count).0 same) (ground arith)
  | inr other ↦ passes_at test count i (ground arith) (ground arith)
]

abbrev row : ℕ → ℕ → Bool
row b k = bit_xor (bit_xor b k) k == b

rows : passes (λ b. passes (row b) 256) 256 ≡ true
unfolding passes
rows = refl

-- A byte that is masked twice with one mask is the byte.
pub xor_twice : (x m : ℕ) → x < 256 → m < 256 → bit_xor (bit_xor x m) m ≡ x
xor_twice x m x_byte m_byte =
    let whole_row = passes_at (λ b. passes (row b) 256) 256 x rows x_byte in
    (==_iff (bit_xor (bit_xor x m) m) x).0 (passes_at (row x) 256 m whole_row m_byte)
