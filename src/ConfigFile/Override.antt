-- ===== src/ConfigFile/Override.antt =====
-- Overrides from the command line, and the parsers of values (src/common/config.cpp). The functions
-- of the C library that read a number are arguments.
use ipc_data_relay.Common.{
  ℕ, ◌/◌, ◌^◌, Bool, true, false, not, ◌||◌, List, [], ◌∷◌, ◌++◌, Option, none, some, ltb, ◌==◌,
  if◌then◌else◌,
}
use ipc_data_relay.Text.{Text, codes, same_text, trim, to_lower}
use ipc_data_relay.ConfigFile.{
  ConfigEntry, ConfigSection, ConfigSections, no_section, split_at, unquote,
}

pub data OverrideError : Type 0 where
  not_an_assignment override_empty_key : OverrideError
  no_such_section : Text → OverrideError

pub data Overridden : Type 0 where
  overridden : ConfigSections → Overridden
  refused : OverrideError → Overridden

abbrev pub override_entry : Text → Text → ConfigEntry
override_entry key value = record { key = key; value = value; line = 0 }

abbrev pub add_entry : ConfigSection → ConfigEntry → ConfigSection
add_entry s e = record s { entries = s.entries ++ e ∷ [] }

-- The entry goes to the last section of the name; `none` if there is none.
unfoldable pub add_to_named : ConfigSections → Text → ConfigEntry → Option ConfigSections
add_to_named [] name e = none
add_to_named (s ∷ ss) name e = elim (add_to_named ss name e) [
  | some q ↦ some (s ∷ q)
  | none ↦ if same_text s.name name then some (add_entry s e ∷ ss) else none
]

abbrev pub add_to_global : ConfigSections → ConfigEntry → ConfigSections
add_to_global [] e = add_entry no_section e ∷ []
add_to_global (s ∷ ss) e = add_entry s e ∷ ss

abbrev pub with_global : ConfigSections → ConfigSections
with_global [] = no_section ∷ []
with_global (s ∷ ss) = s ∷ ss

abbrev pub named_override : Option ConfigSections → Text → Overridden
named_override none sec = refused (no_such_section sec)
named_override (some ss) sec = overridden ss

-- By the first dot of the key: without one the global section is meant.
unfoldable pub override_at : ConfigSections → Text → Text → Option (Text × Text) → Overridden
unfolding add_to_named
override_at ss key value none = overridden (add_to_global ss (override_entry key value))
override_at ss key value (some (sec, rest)) =
    named_override (add_to_named (with_global ss) sec (override_entry rest value)) sec

unfoldable pub override_pair : ConfigSections → Option (Text × Text) → Overridden
unfolding override_at split_at unquote trim
override_pair ss none = refused not_an_assignment
override_pair ss (some (k, v)) =
    if same_text (trim k) []
    then refused override_empty_key
    else override_at ss (trim k) (unquote (trim v)) (split_at b'.' (trim k))

unfoldable pub apply_override : ConfigSections → Text → Overridden
unfolding override_pair split_at
apply_override ss text = override_pair ss (split_at b'=' text)

abbrev pub any_of : Text → List Text → Bool
any_of s [] = false
any_of s (t ∷ ts) = same_text s t || any_of s ts

unfoldable pub parse_bool : Text → Option Bool
unfolding to_lower trim
parse_bool s =
    let v = to_lower (trim s) in
    if any_of v (codes "1" ∷ codes "true" ∷ codes "yes" ∷ codes "on" ∷ [])
    then some true
    else if any_of v (codes "0" ∷ codes "false" ∷ codes "no" ∷ codes "off" ∷ [])
    then some false
    else none

-- What strtoull leaves: its result, whether errno is set, and whether it took the whole text, which
-- is not empty.
pub record Strtoull : Type 0 where
  pub result : ℕ
  pub failed : Bool
  pub whole : Bool

abbrev pub unsigned : Strtoull → Option ℕ
unsigned r = if r.failed || not r.whole then none else some r.result

-- `strtoull` is the function of the C library.
unfoldable pub parse_u64 : (Text → Strtoull) → Text → Option ℕ
unfolding trim
parse_u64 strtoull s = elim (trim s) [
  | [] ↦ none
  | c ∷ v ↦ if c == b'-' then none else unsigned (strtoull (c ∷ v))
]

abbrev pub at_most : ℕ → Option ℕ → Option ℕ
at_most bound none = none
at_most bound (some v) = if ltb bound v then none else some v

unfoldable pub parse_u32 : (Text → Strtoull) → Text → Option ℕ
unfolding parse_u64
parse_u32 strtoull s = at_most 0xFFFFFFFF (parse_u64 strtoull s)

unfoldable pub parse_u16 : (Text → Strtoull) → Text → Option ℕ
unfolding parse_u64
parse_u16 strtoull s = at_most 0xFFFF (parse_u64 strtoull s)

-- The test of the top four bits.
unfoldable pub is_multicast_ipv4 : ℕ → Bool
is_multicast_ipv4 addr = addr / 2 ^ 28 == 14
