-- ===== src/JsonValue/Tokens.antt =====
-- Every step of the scanner in tools/ctl/backend/json_value.cpp ends, and says how much it has read.
use ipc_data_relay.Common.{
  ℕ, zero, suc, ◌+◌, ◌≤◌, ◌≡◌, Bool, true, false, Option, none, some, [], ◌∷◌, ◌++◌, ltb, leb, ◌==◌,
  if◌then◌else◌, length, length-drop, arith, ◌&&◌, ◌||◌, Option-cases, inl, inr,
}
use ipc_data_relay.Text.{Text, codes}
use ipc_data_relay.JsonValue.Scan.{
  Result, ok, failed, out_of_fuel, Parser, bind, ◌>>=◌, pure, skip_ws, after_word, literal,
  hex_loop, hex_result, hex4, low_surrogate, second_escape, pair_surrogates, unicode_escape,
  simple_escape, escape_result, escape_at, end, control, backslash, plain, kind, string_loop,
  string, skip_digits, digits, sign, exponent_sign, integer, fraction, exponent, number, utf8,
  unpaired,
}

-- The step ends, and leaves at most `n` bytes of input when it succeeds.
abbrev pub Leaves {ℓ} : {A : Type ℓ} → ℕ → Result A → Type 0
Leaves n (ok a rest) = length rest ≤ n
Leaves n (failed what rest) = Unit {0}
Leaves n out_of_fuel = ⊥

pub bind-Leaves {ℓ κ} :
    {A : Type ℓ} {B : Type κ} (n m : ℕ) (r : Result A) (f : A → Parser B)
    → Leaves n r
    → ((a : A) (rest : Text) → length rest ≤ n → Leaves m (f a rest))
    → Leaves m (bind r f)
bind-Leaves n m (ok a rest) f h k = k a rest h
bind-Leaves n m (failed what rest) f h k = tt
bind-Leaves n m out_of_fuel f h k = absurd h

pub if-Leaves {ℓ} :
    {A : Type ℓ} (n : ℕ) (b : Bool) (r q : Result A)
    → Leaves n r
    → Leaves n q
    → Leaves n (if b then r else q)
if-Leaves n true r q h k = h
if-Leaves n false r q h k = k

pub grow-Leaves {ℓ} : {A : Type ℓ} {n m : ℕ} (r : Result A) → Leaves n r → n ≤ m → Leaves m r
grow-Leaves (ok a rest) h le = omega arith
grow-Leaves (failed what rest) h le = tt
grow-Leaves out_of_fuel h le = absurd h

pub skip_ws_short : (s : Text) → length (skip_ws s) ≤ length s
unfolding skip_ws
skip_ws_short [] = omega arith
skip_ws_short (c ∷ s) = let r = skip_ws_short s in ground arith

skip_digits_short : (s : Text) → length (skip_digits s) ≤ length s
unfolding skip_digits
skip_digits_short [] = omega arith
skip_digits_short (c ∷ s) = let r = skip_digits_short s in ground arith

-- A word takes as many bytes as it has.
length-after_word :
    (w s rest : Text) → after_word w s ≡ some rest → length rest + length w ≡ length s
unfolding after_word
length-after_word [] s rest h = let e : s ≡ rest = cc in rw e (omega arith)
length-after_word (w ∷ ws) [] rest h = absurd (cc)
length-after_word (w ∷ ws) (c ∷ s) rest h = let r = length-after_word ws s rest in ground arith

pub literal-Leaves :
    (w : ℕ) (ws s : Text) (n : ℕ) → length s ≤ suc n → Leaves n (literal (w ∷ ws) s)
unfolding literal
literal-Leaves w ws s n h = elim (Option-cases (after_word (w ∷ ws) s)) [
  | inl e ↦ rw e tt
  | inr (rest, e) ↦ rw e (omega (arith, length-after_word (w ∷ ws) s rest e))
]

hex_result-Leaves : (o : Option ℕ) (s : Text) → Leaves (length s) (hex_result o s)
hex_result-Leaves none s = tt
hex_result-Leaves (some cp) s = omega (arith, length-drop 4 s)

hex4-Leaves : (s : Text) (n : ℕ) → length s ≤ n → Leaves n (hex4 s)
unfolding hex4
hex4-Leaves s n h =
    grow-Leaves _
      (if-Leaves (length s) (ltb (length s) 4) _ (hex_result (hex_loop 4 0 s) s) tt
        (hex_result-Leaves (hex_loop 4 0 s) s))
      h

low_surrogate-Leaves :
    (cp lo : ℕ) (s : Text) (n : ℕ) → length s ≤ n → Leaves n (low_surrogate cp lo s)
low_surrogate-Leaves cp lo s n h =
    if-Leaves n (ltb lo 0xDC00 || ltb 0xDFFF lo) (failed unpaired s) _ tt h

second_escape-Leaves :
    (cp : ℕ) (s : Text) (n : ℕ)
    → length s ≤ n
    → Leaves n (second_escape cp (after_word (b'\\' ∷ b'u' ∷ []) s) s)
second_escape-Leaves cp s n h = elim (Option-cases (after_word (b'\\' ∷ b'u' ∷ []) s)) [
  | inl e ↦ rw e tt
  | inr (rest, e) ↦
      let l = length-after_word (b'\\' ∷ b'u' ∷ []) s rest e in
      rw e (
        bind-Leaves n n (hex4 rest) (low_surrogate cp) (hex4-Leaves rest n (omega arith))
          (λ lo t le. low_surrogate-Leaves cp lo t n le))
]

pair_surrogates-Leaves :
    (cp : ℕ) (s : Text) (n : ℕ) → length s ≤ n → Leaves n (pair_surrogates cp s)
pair_surrogates-Leaves cp s n h =
    if-Leaves n (leb 0xD800 cp && leb cp 0xDBFF)
      (second_escape cp (after_word (b'\\' ∷ b'u' ∷ []) s) s) _ (second_escape-Leaves cp s n h)
      (if-Leaves n (leb 0xDC00 cp && leb cp 0xDFFF) (failed unpaired s) _ tt h)

unicode_escape-Leaves : (s : Text) (n : ℕ) → length s ≤ n → Leaves n (unicode_escape s)
unfolding unicode_escape
unicode_escape-Leaves s n h =
    bind-Leaves n n (bind (hex4 s) pair_surrogates) (λ cp. pure (utf8 cp))
      (bind-Leaves n n (hex4 s) pair_surrogates (hex4-Leaves s n h)
        (λ cp t le. pair_surrogates-Leaves cp t n le))
      (λ cp t le. le)

escape_result-Leaves :
    (o : Option ℕ) (s : Text) (n : ℕ) → length s ≤ n → Leaves n (escape_result o s)
escape_result-Leaves none s n h = tt
escape_result-Leaves (some c) s n h = h

escape_at-Leaves : (s : Text) (n : ℕ) → length s ≤ n → Leaves n (escape_at s)
unfolding escape_at
escape_at-Leaves [] n h = tt
escape_at-Leaves (e ∷ s) n h =
    if-Leaves n (e == b'u') (unicode_escape s) (escape_result (simple_escape e) s)
      (unicode_escape-Leaves s n (omega arith))
      (escape_result-Leaves (simple_escape e) s n (omega arith))

string_loop-Leaves :
    (fuel : ℕ) (s : Text) (n : ℕ) → length s ≤ fuel → length s ≤ n → Leaves n (string_loop fuel s)
unfolding string_loop
string_loop-Leaves fuel [] n h k = tt
string_loop-Leaves zero (c ∷ s) n h k = absurd (omega arith)
string_loop-Leaves (suc fuel) (c ∷ s) n h k =
    let l : length s ≤ fuel = omega arith in
    elim (kind c)
      as (λ q. Leaves n (elim q as (λ _. Result Text) [
        | end ↦ ok [] s
        | control ↦ failed (codes "control character in string") s
        | backslash ↦ (escape_at >>= λ t. string_loop fuel >>= λ more. pure (t ++ more)) s
        | plain ↦ (string_loop fuel >>= λ more. pure (c ∷ more)) s
      ])) [
        | end ↦ omega arith
        | control ↦ tt
        | backslash ↦
            bind-Leaves (length s) n (escape_at s) _ (escape_at-Leaves s (length s) (omega arith))
              (λ t r le.
                bind-Leaves n n (string_loop fuel r) _
                  (string_loop-Leaves fuel r n (omega arith) (omega arith)) (λ more q le2. le2))
        | plain ↦
            bind-Leaves n n (string_loop fuel s) _ (string_loop-Leaves fuel s n l (omega arith))
              (λ more q le. le)
      ]

pub string-Leaves : (s : Text) (n : ℕ) → length s ≤ n → Leaves n (string s)
unfolding string
string-Leaves s n h = string_loop-Leaves (length s) s n (omega arith) h

pub digits-Leaves : (what s : Text) (n : ℕ) → length s ≤ suc n → Leaves n (digits what s)
digits-Leaves what [] n h = tt
digits-Leaves what (c ∷ s) n h =
    if-Leaves n (leb b'0' c && leb c b'9') (ok tt (skip_digits s)) (failed what (c ∷ s))
      (omega (arith, skip_digits_short s)) tt

sign_short : (s : Text) → length (sign s) ≤ length s
sign_short [] = omega arith
sign_short (c ∷ s) = ground arith

exponent_sign_short : (s : Text) → length (exponent_sign s) ≤ length s
exponent_sign_short [] = omega arith
exponent_sign_short (c ∷ s) = ground arith

integer-Leaves : (s : Text) (n : ℕ) → length s ≤ suc n → Leaves n (integer s)
integer-Leaves [] n h = tt
integer-Leaves (c ∷ s) n h =
    if-Leaves n (c == b'0') (ok tt s) (digits (codes "invalid value") (c ∷ s)) (omega arith)
      (digits-Leaves (codes "invalid value") (c ∷ s) n h)

fraction-Leaves : (s : Text) (n : ℕ) → length s ≤ n → Leaves n (fraction s)
fraction-Leaves [] n h = h
fraction-Leaves (c ∷ s) n h =
    if-Leaves n (c == b'.') (digits (codes "invalid number") s) (ok tt (c ∷ s))
      (digits-Leaves (codes "invalid number") s n (omega arith)) h

exponent-Leaves : (s : Text) (n : ℕ) → length s ≤ n → Leaves n (exponent s)
exponent-Leaves [] n h = h
exponent-Leaves (c ∷ s) n h =
    if-Leaves n (c == b'e' || c == b'E') (digits (codes "invalid number") (exponent_sign s))
      (ok tt (c ∷ s))
      (digits-Leaves (codes "invalid number") (exponent_sign s) n
        (omega (arith, exponent_sign_short s)))
      h

pub number-Leaves : (s : Text) (n : ℕ) → length s ≤ suc n → Leaves n (number s)
unfolding number
number-Leaves s n h =
    bind-Leaves n n (integer (sign s)) _ (integer-Leaves (sign s) n (omega (arith, sign_short s)))
      (λ _ t le.
        bind-Leaves n n (fraction t) _ (fraction-Leaves t n le)
          (λ _ u le. bind-Leaves n n (exponent u) _ (exponent-Leaves u n le) (λ _ v le. le)))
