-- ===== src/ConfigFile/Lookup.antt =====
-- Which assignment a lookup finds (ConfigSection::find and apply_override of src/common/config.cpp).
use ipc_data_relay.Common.{
  ◌≡◌, refl, true, false, List, [], ◌∷◌, ◌++◌, none, some, arith, if◌then◌else◌, inl, inr,
  Bool-cases, ==_iff,
}
use ipc_data_relay.Text.{Text, same_text, trim}
use ipc_data_relay.ConfigFile.{
  ConfigEntry, ConfigSection, ConfigSections, find_entry, get, no_section, split_at, unquote,
}
use ipc_data_relay.ConfigFile.Override.{
  apply_override, override_pair, override_at, overridden, override_entry, add_to_global,
}

same_text_refl : (s : Text) → same_text s s ≡ true
same_text_refl [] = refl
same_text_refl (c ∷ s) = ground (arith, ==_iff c c, same_text_refl s)

find_entry-append :
    (es : List ConfigEntry) (e : ConfigEntry) (key : Text)
    → find_entry (es ++ e ∷ []) key ≡ (if same_text e.key key then some e else find_entry es key)
unfolding find_entry
find_entry-append [] e key = elim (Bool-cases (same_text e.key key)) [
  | inl hit ↦ rw hit refl
  | inr miss ↦ rw miss refl
]
find_entry-append (f ∷ es) e key = elim (Bool-cases (same_text e.key key)) [
  | inl hit ↦ rw (find_entry-append es e key, hit) refl
  | inr miss ↦ rw (find_entry-append es e key, miss) refl
]

abbrev pub global : ConfigSections → ConfigSection
global [] = no_section
global (s ∷ ss) = s

get-add_to_global :
    (ss : ConfigSections) (e : ConfigEntry) (key : Text)
    → get (global (add_to_global ss e)) key
      ≡ (if same_text e.key key then some e.value else get (global ss) key)
unfolding get
get-add_to_global [] e key = elim (Bool-cases (same_text e.key key)) [
  | inl hit ↦ rw (find_entry-append [] e key, hit) refl
  | inr miss ↦ rw (find_entry-append [] e key, miss) refl
]
get-add_to_global (s ∷ ss) e key = elim (Bool-cases (same_text e.key key)) [
  | inl hit ↦ rw (find_entry-append s.entries e key, hit) refl
  | inr miss ↦ rw (find_entry-append s.entries e key, miss) refl
]

-- An override `k=v` whose key is not empty and has no dot is accepted. After it the global section
-- gives the key the new value, whatever the file assigned to it, and another key what it had.
pub apply_override-get :
    (ss : ConfigSections) (text k v other : Text)
    → split_at b'=' text ≡ some (k, v)
    → same_text (trim k) [] ≡ false
    → split_at b'.' (trim k) ≡ none
    → same_text (trim k) other ≡ false
    → (qs : ConfigSections) × (apply_override ss text ≡ overridden qs)
      × (get (global qs) (trim k) ≡ some (unquote (trim v)))
      × (get (global qs) other ≡ get (global ss) other)
unfolding apply_override override_pair override_at
apply_override-get ss text k v other split full plain differs =
    let e = override_entry (trim k) (unquote (trim v)) in
    rw (split, full, plain)
      (
        add_to_global ss e,
        refl,
        rw (get-add_to_global ss e (trim k), same_text_refl (trim k)) refl,
        rw (get-add_to_global ss e other, differs) refl,
      )
