-- ===== src/Tests/ConfigTests.antt =====
-- Configuration files (src/common/config.cpp) and JSON (tools/receiver/lib/json_writer.cpp) on concrete
-- texts.
use ipc_data_relay.Common.{◌≡◌, refl, [], ◌∷◌, ◌++◌, some, true, arith}
use ipc_data_relay.Json.{new_json, begin_object, end_object, key, value_number, escape_bytes}
use ipc_data_relay.Json.Escape.{plain, unescape, AllBytes, unescape-escape_bytes}
use ipc_data_relay.Text.{Text, codes, trim}
use ipc_data_relay.ConfigFile.{
  ConfigSections, ok, error, unterminated_section, parse_config_text, get, split_at, unquote,
}
use ipc_data_relay.ConfigFile.Override.{apply_override, overridden, parse_bool}
use ipc_data_relay.ConfigFile.Lookup.{global, apply_override-get}
use ipc_data_relay.ConfigFile.Parsed.{IsParsed, parse_config_text-IsParsed}

abbrev two_sections : ConfigSections
two_sections =
    record {
      name = [];
      line = 0;
      entries = record { key = codes "port"; value = codes "1"; line = 1 } ∷ [];
    }
    ∷ record {
      name = codes "source";
      line = 2;
      entries = record { key = codes "id"; value = codes "a;b"; line = 3 } ∷ [];
    }
    ∷ []

-- A comment, blanks, quotes and a last line without a newline.
abbrev file_text : Text
file_text =
    codes "port = 1 # all"
    ++ 10 ∷ codes "[ source ]"
    ++ 10 ∷ codes "id="
    ++ b'"' ∷ codes "a;b"
    ++ b'"' ∷ []

file_text-parsed : parse_config_text file_text ≡ ok two_sections
unfolding parse_config_text
file_text-parsed = refl

parse_config_text-IsParsed_example : IsParsed two_sections
parse_config_text-IsParsed_example =
    parse_config_text-IsParsed file_text two_sections file_text-parsed

bad_section : parse_config_text (codes "[source") ≡ error (unterminated_section 1)
unfolding parse_config_text
bad_section = refl

apply_override-get_example :
    (qs : ConfigSections) × (apply_override two_sections (codes "port = 2") ≡ overridden qs)
    × (get (global qs) (trim (codes "port ")) ≡ some (unquote (trim (codes " 2"))))
    × (get (global qs) (codes "group") ≡ get (global two_sections) (codes "group"))
unfolding trim split_at
apply_override-get_example =
    apply_override-get two_sections (codes "port = 2") (codes "port ") (codes " 2") (codes "group")
      refl refl refl refl

yes_is_true : parse_bool (codes " Yes ") ≡ some true
unfolding parse_bool
yes_is_true = refl

-- A quote, a line feed and the control character 1.
abbrev odd_bytes : Text
odd_bytes = b'"' ∷ 10 ∷ 1 ∷ []

odd_bytes-AllBytes : AllBytes odd_bytes
odd_bytes-AllBytes = (omega arith, (omega arith, (omega arith, tt)))

unescape-escape_bytes_example : unescape plain (escape_bytes odd_bytes) ≡ some odd_bytes
unescape-escape_bytes_example = unescape-escape_bytes odd_bytes odd_bytes-AllBytes

small_object :
    (end_object (value_number (key (begin_object new_json) (codes "n")) 120)).out
    ≡ codes "{" ++ b'"' ∷ codes "n" ++ b'"' ∷ codes ":120}"
unfolding begin_object key value_number end_object
small_object = refl
