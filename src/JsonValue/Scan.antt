-- ===== src/JsonValue/Scan.antt =====
-- The tokens of the parser in tools/ctl/backend/json_value.cpp: white space, literals, strings and
-- numbers.
use ipc_data_relay.Common.{
  ℕ, zero, suc, ◌+◌, ◌-◌, ◌*◌, ◌/◌, ◌%◌, ◌^◌, Bool, ◌&&◌, ◌||◌, Option, none, some, [], ◌∷◌, ◌++◌,
  ltb, leb, ◌==◌, if◌then◌else◌, length, take, drop,
}
use ipc_data_relay.Text.{Text, codes}

-- What a step of the parser leaves: a result and the input behind it, or the error and the input at
-- the place where it arose.
pub data Result {ℓ} (A : Type ℓ) : Type ℓ where
  ok : (a : A) (rest : Text) → Result A
  failed : (what : Text) (rest : Text) → Result A
  out_of_fuel : Result A

abbrev pub Parser {ℓ} : Type ℓ → Type ℓ
Parser A = Text → Result A

abbrev pub bind {ℓ κ} : {A : Type ℓ} {B : Type κ} → Result A → (A → Parser B) → Result B
bind (ok a rest) f = f a rest
bind (failed what rest) f = failed what rest
bind out_of_fuel f = out_of_fuel

infixl 1 ◌>>=◌
abbrev pub ◌>>=◌ {ℓ κ} : {A : Type ℓ} {B : Type κ} → Parser A → (A → Parser B) → Parser B
p >>= f = λ s. bind (p s) f

abbrev pub pure {ℓ} : {A : Type ℓ} → A → Parser A
pure a s = ok a s

abbrev pub fail {ℓ} : {A : Type ℓ} → Text → Parser A
fail what s = failed what s

abbrev pub is_ws : ℕ → Bool
is_ws c = c == 32 || (c == 9 || (c == 10 || c == 13))

unfoldable pub skip_ws : Text → Text
skip_ws [] = []
skip_ws (c ∷ s) = let rest = skip_ws s in if is_ws c then rest else c ∷ s

-- What follows the word, if the input begins with it.
unfoldable pub after_word : Text → Text → Option Text
after_word [] s = some s
after_word (w ∷ ws) [] = none
after_word (w ∷ ws) (c ∷ s) = let rest = after_word ws s in if c == w then rest else none

abbrev pub literal_result : Option Text → Text → Result (Unit {0})
literal_result none s = failed (codes "invalid literal") s
literal_result (some rest) s = ok tt rest

unfoldable pub literal : Text → Parser (Unit {0})
unfolding after_word
literal word s = literal_result (after_word word s) s

abbrev pub is_digit : ℕ → Bool
is_digit c = leb b'0' c && leb c b'9'

abbrev pub hex_digit : ℕ → Option ℕ
hex_digit c =
    if is_digit c
    then some (c - b'0')
    else if leb b'a' c && leb c b'f'
    then some (c - b'a' + 10)
    else if leb b'A' c && leb c b'F'
    then some (c - b'A' + 10)
    else none

-- The loop of hex4, with `rounds` digits left.
unfoldable pub hex_loop : ℕ → ℕ → Text → Option ℕ
hex_loop zero acc s = some acc
hex_loop (suc rounds) acc [] = none
hex_loop (suc rounds) acc (c ∷ s) = elim (hex_digit c) [
  | none ↦ none
  | some d ↦ hex_loop rounds (acc * 16 + d) s
]

abbrev pub hex_result : Option ℕ → Text → Result ℕ
hex_result none s = failed (codes "invalid \\u escape") s
hex_result (some cp) s = ok cp (drop 4 s)

unfoldable pub hex4 : Parser ℕ
unfolding hex_loop
hex4 s =
    if ltb (length s) 4
    then failed (codes "truncated \\u escape") s
    else hex_result (hex_loop 4 0 s) s

-- `|` of bits that do not meet is their sum.
unfoldable pub utf8 : ℕ → Text
utf8 cp =
    if ltb cp 0x80
    then cp ∷ []
    else if ltb cp 0x800
    then (0xC0 + cp / 2 ^ 6) ∷ (0x80 + cp % 2 ^ 6) ∷ []
    else if ltb cp 0x10000
    then (0xE0 + cp / 2 ^ 12) ∷ (0x80 + cp / 2 ^ 6 % 2 ^ 6) ∷ (0x80 + cp % 2 ^ 6) ∷ []
    else (0xF0 + cp / 2 ^ 18)
      ∷ (0x80 + cp / 2 ^ 12 % 2 ^ 6)
      ∷ (0x80 + cp / 2 ^ 6 % 2 ^ 6)
      ∷ (0x80 + cp % 2 ^ 6)
      ∷ []

abbrev pub unpaired : Text
unpaired = codes "unpaired surrogate"

abbrev pub low_surrogate : ℕ → ℕ → Parser ℕ
low_surrogate cp lo s =
    if ltb lo 0xDC00 || ltb 0xDFFF lo
    then failed unpaired s
    else ok (0x10000 + (cp - 0xD800) * 2 ^ 10 + (lo - 0xDC00)) s

-- s_.compare(pos_, 2, "\\u")
abbrev pub second_escape : ℕ → Option Text → Text → Result ℕ
second_escape cp none s = failed unpaired s
second_escape cp (some rest) s = (hex4 >>= low_surrogate cp) rest

abbrev pub pair_surrogates : ℕ → Parser ℕ
pair_surrogates cp s =
    if leb 0xD800 cp && leb cp 0xDBFF
    then second_escape cp (after_word (b'\\' ∷ b'u' ∷ []) s) s
    else if leb 0xDC00 cp && leb cp 0xDFFF
    then failed unpaired s
    else ok cp s

-- case 'u'
unfoldable pub unicode_escape : Parser Text
unfolding hex4 after_word utf8
unicode_escape s = (hex4 >>= pair_surrogates >>= λ cp. pure (utf8 cp)) s

abbrev pub simple_escape : ℕ → Option ℕ
simple_escape e =
    if e == b'"'
    then some b'"'
    else if e == b'\\'
    then some b'\\'
    else if e == b'/'
    then some b'/'
    else if e == b'b'
    then some 8
    else if e == b'f'
    then some 12
    else if e == b'n'
    then some 10
    else if e == b'r'
    then some 13
    else if e == b't'
    then some 9
    else none

abbrev pub escape_result : Option ℕ → Parser Text
escape_result none s = failed (codes "invalid escape") s
escape_result (some c) s = ok (c ∷ []) s

-- What stands behind a backslash.
unfoldable pub escape_at : Parser Text
unfolding unicode_escape
escape_at [] = failed (codes "unterminated escape") []
escape_at (e ∷ s) = if e == b'u' then unicode_escape s else escape_result (simple_escape e) s

-- What a byte of a string is to the loop.
pub data Kind : Type 0 where
  end control backslash plain : Kind

abbrev pub kind : ℕ → Kind
kind c =
    if c == b'"'
    then end
    else if ltb c 0x20
    then control
    else if c == b'\\'
    then backslash
    else plain

-- The loop of `string`, behind the opening quote. Each round costs a unit of fuel.
unfoldable pub string_loop : ℕ → Parser Text
unfolding escape_at
string_loop fuel [] = failed (codes "unterminated string") []
string_loop zero (c ∷ s) = out_of_fuel
string_loop (suc fuel) (c ∷ s) = elim (kind c) [
  | end ↦ ok [] s
  | control ↦ failed (codes "control character in string") s
  | backslash ↦ (escape_at >>= λ t. string_loop fuel >>= λ more. pure (t ++ more)) s
  | plain ↦ (string_loop fuel >>= λ more. pure (c ∷ more)) s
]

unfoldable pub string : Parser Text
unfolding string_loop
string s = string_loop (length s) s

unfoldable pub skip_digits : Text → Text
skip_digits [] = []
skip_digits (c ∷ s) = let rest = skip_digits s in if is_digit c then rest else c ∷ s

-- `digits`: the error is the caller's.
abbrev pub digits : Text → Parser (Unit {0})
digits what [] = failed what []
digits what (c ∷ s) =
    let rest = skip_digits s in if is_digit c then ok tt rest else failed what (c ∷ s)

abbrev pub sign : Text → Text
sign [] = []
sign (c ∷ s) = if c == b'-' then s else c ∷ s

abbrev pub exponent_sign : Text → Text
exponent_sign [] = []
exponent_sign (c ∷ s) = if c == b'+' || c == b'-' then s else c ∷ s

abbrev pub integer : Parser (Unit {0})
integer [] = failed (codes "invalid number") []
integer (c ∷ s) = if c == b'0' then ok tt s else digits (codes "invalid value") (c ∷ s)

abbrev pub fraction : Parser (Unit {0})
fraction [] = ok tt []
fraction (c ∷ s) = if c == b'.' then digits (codes "invalid number") s else ok tt (c ∷ s)

abbrev pub exponent : Parser (Unit {0})
exponent [] = ok tt []
exponent (c ∷ s) =
    if c == b'e' || c == b'E'
    then digits (codes "invalid number") (exponent_sign s)
    else ok tt (c ∷ s)

-- s_.substr(start, pos_ - start)
abbrev pub read_between : Text → Text → Text
read_between from to = take (length from - length to) from

unfoldable pub number : Parser Text
unfolding skip_digits
number s =
    (integer >>= λ _. fraction >>= λ _. exponent >>= λ _ rest. ok (read_between s rest) rest)
      (sign s)
