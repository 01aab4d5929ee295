-- ===== src/Common/NatKey.antt =====
-- Numbers as keys of a map.
use ipc_data_relay.Common.Assoc.{Eq}
use ipc_data_relay.Common.Tests.{◌==◌, ==_iff}
use Prim.Native.Nat.{ℕ}

instance abbrev pub ℕ-eq : Eq ℕ
ℕ-eq = record { beq = ◌==◌; beq_iff = ==_iff }
