-- ===== src/JsonValue.antt =====
-- tools/ctl/backend/json_value.hpp and json_value.cpp: the JSON parser of the control tool. A double
-- is kept as the text that the parser hands to strtod. The place of the parser in its input is what it
-- has not read.
pub mod Scan
pub mod Tokens
pub mod Total
pub mod Strings
pub mod Nesting
use ipc_data_relay.Common.{
  ℕ, zero, suc, ◌+◌, ◌-◌, ◌*◌, Bool, true, false, Option, none, some, List, [], ◌∷◌, ◌++◌, ltb,
  ◌==◌, if◌then◌else◌, length,
}
use ipc_data_relay.Text.{Text, codes, same_text}
use ipc_data_relay.Json.{decimal}
use ipc_data_relay.JsonValue.Scan.{
  Result, ok, failed, out_of_fuel, Parser, ◌>>=◌, pure, fail, skip_ws, literal, string, number,
}

mutual
  pub data Value : Type 0 where
    null : Value
    boolean : Bool → Value
    number_of : Text → Value
    string_of : Text → Value
    array : Values → Value
    object : Members → Value

  pub data Values : Type 0 where
    no_values : Values
    item : Value → Values → Values

  pub data Members : Type 0 where
    no_members : Members
    member : Text → Value → Members → Members

-- The loop of Value::get.
unfoldable pub find_member : Text → Members → Option Value
find_member name no_members = none
find_member name (member k v rest) =
    let later = find_member name rest in if same_text k name then some v else later

unfoldable pub get : Value → Text → Option Value
unfolding find_member
get (object ms) name = find_member name ms
get v name = none

-- The cases of the switch in `value`.
pub data Start : Type 0 where
  brace bracket quote true_word false_word null_word other : Start

abbrev pub start : ℕ → Start
start c =
    if c == b'{'
    then brace
    else if c == b'['
    then bracket
    else if c == b'"'
    then quote
    else if c == b't'
    then true_word
    else if c == b'f'
    then false_word
    else if c == b'n'
    then null_word
    else other

-- The bracket that opens stands before the input.
abbrev pub check_depth : ℕ → ℕ → ℕ → Parser (Unit {0})
check_depth opening max_depth depth s =
    if ltb max_depth depth then failed (codes "nesting too deep") (opening ∷ s) else ok tt s

-- White space, and then whether the closing bracket follows, which is read.
abbrev pub closes : ℕ → Text → Result Bool
closes close [] = ok false []
closes close (c ∷ s) = if c == close then ok true s else ok false (c ∷ s)

abbrev pub closes_now : ℕ → Parser Bool
closes_now close s = closes close (skip_ws s)

-- After a value: `true` if a comma follows, `false` if the closing bracket does.
abbrev pub separator : ℕ → Text → Text → Text → Result Bool
separator close unterminated expected [] = failed unterminated []
separator close unterminated expected (c ∷ s) =
    if c == b',' then ok true s else if c == close then ok false s else failed expected (c ∷ s)

abbrev pub after_value : ℕ → Text → Text → Parser Bool
after_value close unterminated expected s = separator close unterminated expected (skip_ws s)

abbrev pub key_at : Text → Result Text
key_at [] = failed (codes "expected object key") []
key_at (c ∷ s) =
    let k = string s in if c == b'"' then k else failed (codes "expected object key") (c ∷ s)

abbrev pub colon_at : Text → Result (Unit {0})
colon_at [] = failed (codes "expected ':'") []
colon_at (c ∷ s) = if c == b':' then ok tt s else failed (codes "expected ':'") (c ∷ s)

abbrev pub object_key : Parser Text
object_key s = key_at (skip_ws s)

abbrev pub colon : Parser (Unit {0})
colon s = colon_at (skip_ws s)

-- Each call costs a unit of fuel.
unfoldable mutual
  unfolding skip_ws literal string number

  pub value : ℕ → ℕ → ℕ → Parser Value
  value zero max_depth depth s = out_of_fuel
  value (suc fuel) max_depth depth [] = failed (codes "unexpected end of input") []
  value (suc fuel) max_depth depth (c ∷ s) = elim (start c) [
    | brace ↦ object_at fuel max_depth (depth + 1) s
    | bracket ↦ array_at fuel max_depth (depth + 1) s
    | quote ↦ (string >>= λ t. pure (string_of t)) s
    | true_word ↦ (literal (codes "true") >>= λ _. pure (boolean true)) (c ∷ s)
    | false_word ↦ (literal (codes "false") >>= λ _. pure (boolean false)) (c ∷ s)
    | null_word ↦ (literal (codes "null") >>= λ _. pure null) (c ∷ s)
    | other ↦ (number >>= λ t. pure (number_of t)) (c ∷ s)
  ]

  pub object_at : ℕ → ℕ → ℕ → Parser Value
  object_at zero max_depth depth s = out_of_fuel
  object_at (suc fuel) max_depth depth s =
      (check_depth b'{' max_depth depth >>= λ _. closes_now b'}' >>= λ empty. elim empty [
        | true ↦ pure (object no_members)
        | false ↦ members fuel max_depth depth >>= λ ms. pure (object ms)
      ])
        s

  pub members : ℕ → ℕ → ℕ → Parser Members
  members zero max_depth depth s = out_of_fuel
  members (suc fuel) max_depth depth s =
      (object_key >>= λ k. colon >>= λ _ t.
      (value fuel max_depth depth >>= λ v.
      after_value b'}' (codes "unterminated object") (codes "expected ',' or '}'") >>= λ more.
      elim more [
        | true ↦ members fuel max_depth depth >>= λ ms. pure (member k v ms)
        | false ↦ pure (member k v no_members)
      ])
        (skip_ws t))
        s

  pub array_at : ℕ → ℕ → ℕ → Parser Value
  array_at zero max_depth depth s = out_of_fuel
  array_at (suc fuel) max_depth depth s =
      (check_depth b'[' max_depth depth >>= λ _. closes_now b']' >>= λ empty. elim empty [
        | true ↦ pure (array no_values)
        | false ↦ values fuel max_depth depth >>= λ vs. pure (array vs)
      ])
        s

  pub values : ℕ → ℕ → ℕ → Parser Values
  values zero max_depth depth s = out_of_fuel
  values (suc fuel) max_depth depth s =
      (value fuel max_depth depth >>= λ v.
      after_value b']' (codes "unterminated array") (codes "expected ',' or ']'") >>= λ more.
      elim more [
        | true ↦ values fuel max_depth depth >>= λ vs. pure (item v vs)
        | false ↦ pure (item v no_values)
      ])
        (skip_ws s)

-- The answer of `document`; `stuck` is the model's, for fuel that runs out.
pub data Document : Type 0 where
  accepted : Value → Document
  rejected : Text → Document
  stuck : Document

-- `rest` is what has not been read of the text.
abbrev pub offset_message : Text → Text → Text → Text
offset_message what text rest =
    what ++ codes " at offset " ++ decimal 20 (length text - length rest)

abbrev pub trailing : Text → Value → Text → Document
trailing text v [] = accepted v
trailing text v (c ∷ s) = rejected (offset_message (codes "trailing characters") text (c ∷ s))

abbrev pub finish : Text → Result Value → Document
finish text (ok v rest) = trailing text v (skip_ws rest)
finish text (failed what rest) = rejected (offset_message what text rest)
finish text out_of_fuel = stuck

abbrev pub document : ℕ → ℕ → Text → Document
document fuel max_depth text = finish text (value fuel max_depth 0 (skip_ws text))

-- Three units of fuel for each byte of the input, and one.
unfoldable pub parse : Text → ℕ → Document
unfolding value
parse text max_depth = document (3 * length text + 1) max_depth text
