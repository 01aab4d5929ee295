-- ===== src/Json.antt =====
-- tools/receiver/include/ipcrelay/json_writer.hpp and tools/receiver/lib/json_writer.cpp: the writer
-- of the statistics. A double comes as the text that snprintf makes of it.
pub mod Escape
use ipc_data_relay.Common.{
  ℕ, zero, suc, ◌+◌, ◌-◌, ◌/◌, ◌%◌, Bool, true, false, List, [], ◌∷◌, ◌++◌, ltb, ◌==◌,
  if◌then◌else◌,
}
use ipc_data_relay.Text.{Text, codes}

pub record JsonWriter : Type 0 where
  pub out : Text
  pub need_comma : Bool

abbrev pub new_json : JsonWriter
new_json = record { out = []; need_comma = false }

unfoldable pub separator : JsonWriter → JsonWriter
separator w = record { out = if w.need_comma then w.out ++ b',' ∷ [] else w.out; need_comma = true }

-- A digit of %x.
abbrev pub hex_digit : ℕ → ℕ
hex_digit d = if ltb d 10 then b'0' + d else b'a' + (d - 10)

-- The switch of `escape`. `%04x` of a byte below 0x20 begins with two zeros.
unfoldable pub escape_byte : ℕ → Text
escape_byte c =
    if c == b'"'
    then b'\\' ∷ b'"' ∷ []
    else if c == b'\\'
    then b'\\' ∷ b'\\' ∷ []
    else if c == 10
    then b'\\' ∷ b'n' ∷ []
    else if c == 13
    then b'\\' ∷ b'r' ∷ []
    else if c == 9
    then b'\\' ∷ b't' ∷ []
    else if ltb c 32
    then b'\\' ∷ b'u' ∷ b'0' ∷ b'0' ∷ hex_digit (c / 16) ∷ hex_digit (c % 16) ∷ []
    else c ∷ []

-- The loop of `escape`.
unfoldable pub escape_bytes : Text → Text
unfolding escape_byte
escape_bytes [] = []
escape_bytes (c ∷ s) = escape_byte c ++ escape_bytes s

unfoldable pub escape : Text → Text
unfolding escape_bytes
escape s = b'"' ∷ escape_bytes s ++ b'"' ∷ []

-- A value behind the separator.
abbrev pub put_value : JsonWriter → Text → JsonWriter
put_value w v = let q = separator w in record q { out = q.out ++ v }

-- A bracket that opens, and one that closes.
abbrev pub put_open : JsonWriter → ℕ → JsonWriter
put_open w c = record (put_value w (c ∷ [])) { need_comma = false }

abbrev pub put_close : JsonWriter → ℕ → JsonWriter
put_close w c = record { out = w.out ++ c ∷ []; need_comma = true }

unfoldable pub begin_object : JsonWriter → JsonWriter
unfolding separator
begin_object w = put_open w b'{'

unfoldable pub end_object : JsonWriter → JsonWriter
end_object w = put_close w b'}'

unfoldable pub begin_array : JsonWriter → JsonWriter
unfolding separator
begin_array w = put_open w b'['

unfoldable pub end_array : JsonWriter → JsonWriter
end_array w = put_close w b']'

unfoldable pub key : JsonWriter → Text → JsonWriter
unfolding separator escape
key w k = record (put_value w (escape k ++ b':' ∷ [])) { need_comma = false }

unfoldable pub value_text : JsonWriter → Text → JsonWriter
unfolding separator escape
value_text w v = put_value w (escape v)

-- std::to_string of a number below 10 ^ fuel
unfoldable pub decimal : ℕ → ℕ → Text
decimal zero n = []
decimal (suc fuel) n =
    let front = decimal fuel (n / 10) in
    if ltb n 10 then (b'0' + n) ∷ [] else front ++ (b'0' + n % 10) ∷ []

-- A uint64_t has at most twenty digits.
unfoldable pub value_number : JsonWriter → ℕ → JsonWriter
unfolding separator decimal
value_number w n = put_value w (decimal 20 n)

unfoldable pub value_bool : JsonWriter → Bool → JsonWriter
unfolding separator
value_bool w v = put_value w (if v then codes "true" else codes "false")

unfoldable pub null : JsonWriter → JsonWriter
unfolding separator
null w = put_value w (codes "null")

unfoldable pub raw : JsonWriter → Text → JsonWriter
unfolding separator
raw w json = put_value w json
