-- ===== src/Common/StringKey.antt =====
-- Native texts as keys of an association list.
use Prim.Native.String.{String}
use text.Mathlib.Text.{◌==◌}
use text.Mathlib.TextEquality.{eq_iff}
use ipc_data_relay.Common.Assoc.{Eq}

instance abbrev pub String-eq : Eq String
String-eq = record { beq = ◌==◌; beq_iff = eq_iff }
