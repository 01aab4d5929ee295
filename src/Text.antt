-- ===== src/Text.antt =====
-- The helpers on text of src/common/config.cpp, in the C locale. A std::string is the list of its
-- bytes.
use Prim.Native.Char.{code}
use Prim.Native.String.{String}
use ipc_data_relay.Common.{
  ℕ, ◌+◌, Bool, true, false, ◌&&◌, ◌||◌, List, [], ◌∷◌, map, leb, ◌==◌, if◌then◌else◌,
}

abbrev pub Text : Type 0
Text = List ℕ

-- The bytes of a literal.
abbrev pub codes : String → Text
codes String.[] = []
codes (String.◌∷◌ c s) = code c ∷ codes s

abbrev pub same_text : Text → Text → Bool
same_text [] [] = true
same_text [] (y ∷ ys) = false
same_text (x ∷ xs) [] = false
same_text (x ∷ xs) (y ∷ ys) = x == y && same_text xs ys

-- isspace
abbrev pub is_space : ℕ → Bool
is_space c = c == 32 || (leb 9 c && leb c 13)

-- tolower
abbrev pub lower : ℕ → ℕ
lower c = if leb b'A' c && leb c b'Z' then c + 32 else c

unfoldable pub to_lower : Text → Text
to_lower s = map lower s

-- The first loop of `trim`.
unfoldable pub trim_front : Text → Text
trim_front [] = []
trim_front (c ∷ s) = let rest = trim_front s in if is_space c then rest else c ∷ s

-- The second loop of `trim`: a byte is kept if one that is kept follows, or if it is no space.
abbrev pub keep_back : ℕ → Text → Text
keep_back c [] = if is_space c then [] else c ∷ []
keep_back c (d ∷ s) = c ∷ d ∷ s

unfoldable pub trim_back : Text → Text
trim_back [] = []
trim_back (c ∷ s) = keep_back c (trim_back s)

unfoldable pub trim : Text → Text
unfolding trim_front trim_back
trim s = trim_back (trim_front s)

-- std::replace
unfoldable pub replace : ℕ → ℕ → Text → Text
replace old new s = map (λ c. if c == old then new else c) s
