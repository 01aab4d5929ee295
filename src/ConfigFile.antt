-- ===== src/ConfigFile.antt =====
-- include/ipcrelay/common/config.hpp and src/common/config.cpp: configuration files, and overrides
-- from the command line. An error is a value in place of its text.
pub mod Override
pub mod Lookup
pub mod Parsed
use ipc_data_relay.Common.{
  ℕ, suc, ◌+◌, ◌/◌, ◌<◌, Bool, true, false, not, ◌&&◌, ◌||◌, List, [], ◌∷◌, ◌++◌, Option, none,
  some, leb, ltb, ◌==◌, if◌then◌else◌,
}
use ipc_data_relay.Text.{Text, codes, same_text, trim, to_lower}

pub record ConfigEntry : Type 0 where
  pub key : Text
  pub value : Text
  pub line : ℕ

pub record ConfigSection : Type 0 where
  pub name : Text
  pub line : ℕ
  pub entries : List ConfigEntry

abbrev pub ConfigSections : Type 0
ConfigSections = List ConfigSection

abbrev pub no_section : ConfigSection
no_section = record { name = []; line = 0; entries = [] }

abbrev pub or_else : Option ConfigEntry → Option ConfigEntry → Option ConfigEntry
or_else none o = o
or_else (some e) o = some e

-- ConfigSection::find: the scan from the end meets the later entry first.
unfoldable pub find_entry : List ConfigEntry → Text → Option ConfigEntry
find_entry [] key = none
find_entry (e ∷ es) key = or_else (find_entry es key) (if same_text e.key key then some e else none)

abbrev pub value_of : Option ConfigEntry → Option Text
value_of none = none
value_of (some e) = some e.value

-- ConfigSection::get
unfoldable pub get : ConfigSection → Text → Option Text
unfolding find_entry
get s key = value_of (find_entry s.entries key)

-- ConfigFile::named
unfoldable pub named : ConfigSections → Text → ConfigSections
named [] name = []
named (s ∷ ss) name = let rest = named ss name in if same_text s.name name then s ∷ rest else rest

-- The line up to a '#' or ';' that is not between double quotes.
unfoldable pub strip_from : Bool → Text → Text
strip_from quoted [] = []
strip_from quoted (c ∷ s) =
    let q = if c == b'"' then not quoted else quoted in
    let rest = strip_from q s in if not q && (c == b'#' || c == b';') then [] else c ∷ rest

unfoldable pub strip_comment : Text → Text
unfolding strip_from
strip_comment line = strip_from false line

-- All but the last byte, if that is `c`.
abbrev pub cut_last : ℕ → Text → Option Text
cut_last c [] = none
cut_last c (x ∷ []) = if x == c then some [] else none
cut_last c (x ∷ y ∷ s) = elim (cut_last c (y ∷ s)) [ none ↦ none | some t ↦ some (x ∷ t) ]

abbrev pub text_or : Option Text → Text → Text
text_or none s = s
text_or (some t) s = t

unfoldable pub unquote : Text → Text
unquote [] = []
unquote (c ∷ s) = if c == b'"' then text_or (cut_last b'"' s) (c ∷ s) else c ∷ s

abbrev pub put_left : ℕ → Option (Text × Text) → Option (Text × Text)
put_left x none = none
put_left x (some (l, r)) = some (x ∷ l, r)

-- The text in front of the first `c`, and behind it.
unfoldable pub split_at : ℕ → Text → Option (Text × Text)
split_at c [] = none
split_at c (x ∷ s) = let rest = put_left x (split_at c s) in if x == c then some ([], s) else rest

pub data ConfigError : Type 0 where
  unterminated_section empty_section no_assignment empty_key : ℕ → ConfigError

-- What a line that is not blank stands for.
pub data Line : Type 0 where
  section : Text → Line
  assignment : Text → Text → Line
  bad : (ℕ → ConfigError) → Line

abbrev pub section_line : Option Text → Line
section_line none = bad unterminated_section
section_line (some name) =
    if same_text (trim name) [] then bad empty_section else section (trim name)

abbrev pub assignment_line : Option (Text × Text) → Line
assignment_line none = bad no_assignment
assignment_line (some (k, v)) =
    if same_text (trim k) [] then bad empty_key else assignment (trim k) (unquote (trim v))

-- The line after the comment and the blanks are off; `none` if nothing is left.
unfoldable pub read_line : Text → Option Line
unfolding split_at unquote trim
read_line [] = none
read_line (c ∷ s) =
    some (
      if c == b'[' then section_line (cut_last b']' s) else assignment_line (split_at b'=' (c ∷ s)))

-- sections.back().entries.push_back(e)
unfoldable pub push_entry : ConfigSections → ConfigEntry → ConfigSections
push_entry [] e = []
push_entry (s ∷ []) e = record s { entries = s.entries ++ e ∷ [] } ∷ []
push_entry (s ∷ t ∷ ss) e = s ∷ push_entry (t ∷ ss) e

pub data Outcome : Type 0 where
  ok : ConfigSections → Outcome
  error : ConfigError → Outcome

-- The sections after a line.
unfoldable pub apply_line : ConfigSections → ℕ → Option Line → Outcome
unfolding push_entry
apply_line ss lineno none = ok ss
apply_line ss lineno (some (section name)) =
    ok (ss ++ record { name = name; line = lineno; entries = [] } ∷ [])
apply_line ss lineno (some (assignment k v)) =
    ok (push_entry ss (record { key = k; value = v; line = lineno }))
apply_line ss lineno (some (bad e)) = error (e lineno)

abbrev pub put_front : ℕ → List Text → List Text
put_front c [] = (c ∷ []) ∷ []
put_front c (l ∷ ls) = (c ∷ l) ∷ ls

-- std::getline, called until it fails: a last line needs no newline, and an empty one is no line.
unfoldable pub get_lines : Text → List Text
get_lines [] = []
get_lines (c ∷ s) = let rest = get_lines s in if c == 10 then [] ∷ rest else put_front c rest

abbrev pub on_sections : (ConfigSections → Outcome) → Outcome → Outcome
on_sections next (ok ss) = next ss
on_sections next (error e) = error e

unfoldable pub parse_lines : List Text → ℕ → ConfigSections → Outcome
unfolding apply_line read_line strip_comment
parse_lines [] lineno ss = ok ss
parse_lines (l ∷ ls) lineno ss =
    on_sections (λ q. parse_lines ls (lineno + 1) q)
      (apply_line ss lineno (read_line (trim (strip_comment l))))

unfoldable pub parse_config_text : Text → Outcome
unfolding parse_lines get_lines
parse_config_text text = parse_lines (get_lines text) 1 (no_section ∷ [])
