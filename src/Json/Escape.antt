-- ===== src/Json/Escape.antt =====
-- What a reader makes of an escaped text (`escape` of tools/receiver/lib/json_writer.cpp).
use ipc_data_relay.Common.{
  ℕ, ◌+◌, ◌-◌, ◌*◌, ◌^◌, ◌<◌, ◌≡◌, refl, ◌∙◌, ap, Bool, not, ◌&&◌, ◌||◌, [], ◌∷◌, ◌++◌, Option,
  none, some, arith, ltb, leb, ◌==◌, if◌then◌else◌,
}
use ipc_data_relay.Text.{Text}
use ipc_data_relay.Json.{escape_byte, escape_bytes}

-- Where a reader of RFC 8259 stands within a string: between characters, behind a backslash, or with
-- so many digits of a \u to come; `broken` is no string.
pub data Mode : Type 0 where
  plain slash broken : Mode
  hex : ℕ → ℕ → Mode

is_hex : ℕ → Bool
is_hex c = (leb b'0' c && leb c b'9') || (leb b'a' c && leb c b'f')

hex_value : ℕ → ℕ
hex_value c = if leb c b'9' then c - b'0' else c - b'a' + 10

-- The byte that a backslash and `c` stand for; `none` if they stand for none.
simple : ℕ → Option ℕ
simple c =
    if c == b'"'
    then some b'"'
    else if c == b'\\'
    then some b'\\'
    else if c == b'n'
    then some 10
    else if c == b'r'
    then some 13
    else if c == b't'
    then some 9
    else none

after_simple : Option ℕ → Mode
after_simple none = broken
after_simple (some d) = plain

next : Mode → ℕ → Mode
next plain c = if c == b'\\' then slash else if ltb c 32 || c == b'"' then broken else plain
next slash c = if c == b'u' then hex 4 0 else after_simple (simple c)
next broken c = broken
next (hex left acc) c =
    if not (is_hex c)
    then broken
    else if left == 1
    then plain
    else hex (left - 1) (acc * 16 + hex_value c)

put : ℕ → Option Text → Option Text
put c none = none
put c (some s) = some (c ∷ s)

put_simple : Option ℕ → Option Text → Option Text
put_simple none r = none
put_simple (some d) r = put d r

-- What the byte adds to the text.
emit : Mode → ℕ → Option Text → Option Text
emit plain c r = if c == b'\\' then r else put c r
emit slash c r = if c == b'u' then r else put_simple (simple c) r
emit broken c r = none
emit (hex left acc) c r = if left == 1 then put (acc * 16 + hex_value c) r else r

-- The text of a string, without its quotes; `none` if it is no string.
pub unescape : Mode → Text → Option Text
unescape plain [] = some []
unescape slash [] = none
unescape broken [] = none
unescape (hex left acc) [] = none
unescape m (c ∷ s) = emit m c (unescape (next m c) s)

unescape-escape_byte :
    (c : ℕ) (t : Text) → c < 2 ^ 8 → unescape plain (escape_byte c ++ t) ≡ put c (unescape plain t)
unfolding escape_byte unescape next emit put_simple after_simple simple hex_value is_hex
unescape-escape_byte c t h = ground arith

-- A text of bytes.
abbrev pub AllBytes : Text → Type 0
AllBytes [] = Unit {0}
AllBytes (c ∷ s) = (c < 2 ^ 8) × AllBytes s

-- Between the quotes, a reader of JSON reads back the text that was escaped, whatever its bytes, and
-- meets neither a bare quote nor a control character in it.
pub unescape-escape_bytes : (s : Text) → AllBytes s → unescape plain (escape_bytes s) ≡ some s
unfolding escape_bytes
unescape-escape_bytes [] h = unfold unescape in refl
unescape-escape_bytes (c ∷ s) h =
    unescape-escape_byte c (escape_bytes s) h.0
    ∙ ap (put c) (unescape-escape_bytes s h.1)
    ∙ unfold put in refl
