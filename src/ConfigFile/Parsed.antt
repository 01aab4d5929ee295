-- ===== src/ConfigFile/Parsed.antt =====
-- What every file has that `parse_config_text` accepts (src/common/config.cpp).
use ipc_data_relay.Common.{
  ℕ, ◌+◌, ◌≤◌, ◌≡◌, refl, false, List, [], ◌∷◌, ◌++◌, Option, none, some, arith, inl, inr,
  Bool-cases, ◌==◌, subst,
}
use ipc_data_relay.Text.{Text, same_text, trim}
use ipc_data_relay.ConfigFile.{
  ConfigEntry, ConfigSection, ConfigSections, no_section, Line, section, assignment, bad, Outcome,
  ok, error, section_line, assignment_line, read_line, push_entry, apply_line, on_sections,
  parse_lines, parse_config_text, strip_comment, get_lines, cut_last, split_at,
}

AllKeyed : List ConfigEntry → Type 0
AllKeyed [] = Unit {0}
AllKeyed (e ∷ es) = (same_text e.key [] ≡ false) × AllKeyed es

-- Sections that are written in the file.
AllNamed : ConfigSections → Type 0
AllNamed [] = Unit {0}
AllNamed (s ∷ ss) = (same_text s.name [] ≡ false) × AllKeyed s.entries × AllNamed ss

-- The first section is the global one, which has no name; every other section has a name, and every
-- entry a key.
pub IsParsed : ConfigSections → Type 0
IsParsed [] = 1 ≤ 0
IsParsed (s ∷ ss) = (s.name ≡ []) × AllKeyed s.entries × AllNamed ss

some_section : {A : Type 0} → IsParsed [] → A
unfolding IsParsed
some_section h = absurd (omega (arith, h))

-- A line brings a name or a key that is not empty.
IsLine : Option Line → Type 0
IsLine none = Unit {0}
IsLine (some (section name)) = same_text name [] ≡ false
IsLine (some (assignment k v)) = same_text k [] ≡ false
IsLine (some (bad e)) = Unit {0}

section_line-IsLine : (o : Option Text) → IsLine (some (section_line o))
unfolding IsLine
section_line-IsLine none = tt
section_line-IsLine (some name) = elim (Bool-cases (same_text (trim name) [])) [
  | inl empty ↦ rw empty tt
  | inr full ↦ rw full full
]

assignment_line-IsLine : (o : Option (Text × Text)) → IsLine (some (assignment_line o))
unfolding IsLine
assignment_line-IsLine none = tt
assignment_line-IsLine (some (k, v)) = elim (Bool-cases (same_text (trim k) [])) [
  | inl empty ↦ rw empty tt
  | inr full ↦ rw full full
]

read_line-IsLine : (s : Text) → IsLine (read_line s)
unfolding read_line
read_line-IsLine [] = unfold IsLine in tt
read_line-IsLine (c ∷ s) = elim (Bool-cases (c == b'[')) [
  | inl bracket ↦ rw bracket (section_line-IsLine (cut_last b']' s))
  | inr other ↦ rw other (assignment_line-IsLine (split_at b'=' (c ∷ s)))
]

AllKeyed-append :
    (es : List ConfigEntry) (e : ConfigEntry)
    → AllKeyed es
    → same_text e.key [] ≡ false
    → AllKeyed (es ++ e ∷ [])
unfolding AllKeyed
AllKeyed-append [] e h k = (k, tt)
AllKeyed-append (f ∷ es) e h k = (h.0, AllKeyed-append es e h.1 k)

AllNamed-push_entry :
    (ss : ConfigSections) (e : ConfigEntry)
    → AllNamed ss
    → same_text e.key [] ≡ false
    → AllNamed (push_entry ss e)
unfolding AllNamed push_entry
AllNamed-push_entry [] e h k = tt
AllNamed-push_entry (s ∷ []) e h k = (h.0, AllKeyed-append s.entries e h.1 k, tt)
AllNamed-push_entry (s ∷ t ∷ ss) e h k =
    (h.0, h.1, unfold AllNamed in (AllNamed-push_entry (t ∷ ss) e h.2 k))

push_entry-IsParsed :
    (ss : ConfigSections) (e : ConfigEntry)
    → IsParsed ss
    → same_text e.key [] ≡ false
    → IsParsed (push_entry ss e)
unfolding IsParsed push_entry
push_entry-IsParsed [] e h k = h
push_entry-IsParsed (s ∷ []) e h k = (h.0, AllKeyed-append s.entries e h.1 k, h.2)
push_entry-IsParsed (s ∷ t ∷ ss) e h k = (h.0, h.1, AllNamed-push_entry (t ∷ ss) e h.2 k)

AllNamed-append :
    (ss : ConfigSections) (s : ConfigSection)
    → AllNamed ss
    → same_text s.name [] ≡ false
    → s.entries ≡ []
    → AllNamed (ss ++ s ∷ [])
unfolding AllNamed AllKeyed
AllNamed-append [] s h k e = (k, rw e tt, tt)
AllNamed-append (t ∷ ss) s h k e = (h.0, h.1, AllNamed-append ss s h.2 k e)

ok-inj : {a b : ConfigSections} → ok a ≡ ok b → a ≡ b
ok-inj h = cc h

apply_line-IsParsed :
    (ss qs : ConfigSections) (lineno : ℕ) (l : Option Line)
    → IsParsed ss
    → IsLine l
    → apply_line ss lineno l ≡ ok qs
    → IsParsed qs
unfolding apply_line IsLine
apply_line-IsParsed ss qs lineno none h w e = subst IsParsed (ok-inj e) h
apply_line-IsParsed [] qs lineno (some (section name)) h w e = some_section h
apply_line-IsParsed (s ∷ ss) qs lineno (some (section name)) h w e =
    subst IsParsed (ok-inj e) (unfold IsParsed in (h.0, h.1, AllNamed-append ss _ h.2 w refl))
apply_line-IsParsed ss qs lineno (some (assignment k v)) h w e =
    subst IsParsed (ok-inj e) (push_entry-IsParsed ss _ h w)
apply_line-IsParsed ss qs lineno (some (bad x)) h w e = cc e

on_sections-IsParsed :
    (next : ConfigSections → Outcome) (o : Outcome) (qs : ConfigSections)
    → ((ss : ConfigSections) → o ≡ ok ss → next ss ≡ ok qs → IsParsed qs)
    → on_sections next o ≡ ok qs
    → IsParsed qs
on_sections-IsParsed next (ok ss) qs h e = h ss refl e
on_sections-IsParsed next (error x) qs h e = cc e

parse_lines-IsParsed :
    (ls : List Text) (lineno : ℕ) (ss qs : ConfigSections)
    → IsParsed ss
    → parse_lines ls lineno ss ≡ ok qs
    → IsParsed qs
unfolding parse_lines
parse_lines-IsParsed [] lineno ss qs h e = subst IsParsed (ok-inj e) h
parse_lines-IsParsed (l ∷ ls) lineno ss qs h e =
    let t = trim (strip_comment l) in
    on_sections-IsParsed (λ q. parse_lines ls (lineno + 1) q) (apply_line ss lineno (read_line t))
      qs
      (λ q applied run.
        parse_lines-IsParsed ls (lineno + 1) q qs
          (apply_line-IsParsed ss q lineno (read_line t) h (read_line-IsLine t) applied) run)
      e

start : IsParsed (no_section ∷ [])
unfolding IsParsed AllKeyed AllNamed
start = (refl, tt, tt)

-- Of a text that is accepted the first section is the global one, without a name, so that there
-- always is one; every other section has a name that is not empty, and every entry such a key.
pub parse_config_text-IsParsed :
    (text : Text) (qs : ConfigSections) → parse_config_text text ≡ ok qs → IsParsed qs
unfolding parse_config_text
parse_config_text-IsParsed text qs e =
    parse_lines-IsParsed (get_lines text) 1 (no_section ∷ []) qs start e
