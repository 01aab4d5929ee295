-- ===== src/JsonValue/Strings.antt =====
-- The parser of tools/ctl/backend/json_value.cpp on what the writer of tools/receiver/lib/json_writer.cpp
-- makes of a text.
use ipc_data_relay.Common.{
  ℕ, zero, suc, ◌+◌, ◌*◌, ◌/◌, ◌%◌, ◌<◌, ◌≤◌, ◌≡◌, refl, ap, ◌∙◌, false, Option, none, some, [],
  ◌∷◌, ◌++◌, ltb, ◌==◌, length, length-append, drop, arith, Bool-cases, inl, inr, ltb→lt, lt→ltb,
  ==_iff, append_assoc,
}
use ipc_data_relay.Text.{Text, codes}
use ipc_data_relay.Json
use ipc_data_relay.Json.{escape_byte, escape_bytes, escape}
use ipc_data_relay.JsonValue.Scan.{
  Result, ok, failed, bind, ◌>>=◌, pure, hex_digit, hex_loop, hex4, pair_surrogates, unicode_escape,
  utf8, escape_at, string_loop, string, kind, end, control, backslash, plain,
}

hex_loop_step :
    (rounds acc c d n : ℕ) (t : Text)
    → acc * 16 + d ≡ n
    → hex_digit c ≡ some d
    → hex_loop (suc rounds) acc (c ∷ t) ≡ hex_loop rounds n t
unfolding hex_loop
hex_loop_step rounds acc c d n t q e =
    ap (λ o. elim o as (λ _. Option ℕ) [ none ↦ none | some d ↦ hex_loop rounds (acc * 16 + d) t ])
      e
    ∙ ap (λ m. hex_loop rounds m t) q

hex_digit-hex_digit : (n : ℕ) → n < 16 → hex_digit (Json.hex_digit n) ≡ some n
hex_digit-hex_digit n h = ground arith

hex_loop_done : (n : ℕ) (t : Text) → hex_loop 0 n t ≡ some n
unfolding hex_loop
hex_loop_done n t = refl

-- Four digits of which the first two are zero.
hex4_byte :
    (d e : ℕ) (t : Text)
    → d < 16
    → e < 16
    → hex4 (b'0' ∷ b'0' ∷ Json.hex_digit d ∷ Json.hex_digit e ∷ t) ≡ ok (d * 16 + e) t
unfolding hex4
hex4_byte d e t hd he =
    let long : ltb (suc (suc (suc (suc (length t))))) 4 ≡ false = ground arith in
    let s = b'0' ∷ b'0' ∷ Json.hex_digit d ∷ Json.hex_digit e ∷ t in
    let loop : hex_loop 4 0 s ≡ some (d * 16 + e) =
      hex_loop_step 3 0 b'0' 0 0 (b'0' ∷ Json.hex_digit d ∷ Json.hex_digit e ∷ t) refl refl
      ∙ hex_loop_step 2 0 b'0' 0 0 (Json.hex_digit d ∷ Json.hex_digit e ∷ t) refl refl
      ∙ hex_loop_step 1 0 (Json.hex_digit d) d d (Json.hex_digit e ∷ t) (omega arith)
          (hex_digit-hex_digit d hd)
      ∙ hex_loop_step 0 d (Json.hex_digit e) e (d * 16 + e) t refl (hex_digit-hex_digit e he)
      ∙ hex_loop_done (d * 16 + e) t in
    rw (long, loop) refl

unicode_escape_byte :
    (c : ℕ) (t : Text)
    → c < 32
    → unicode_escape (b'0' ∷ b'0' ∷ Json.hex_digit (c / 16) ∷ Json.hex_digit (c % 16) ∷ t)
      ≡ ok (c ∷ []) t
unfolding unicode_escape utf8
unicode_escape_byte c t h =
    let e : c / 16 * 16 + c % 16 ≡ c = omega arith in
    let k = lt→ltb c 0x80 (omega arith) in
    let p : pair_surrogates c t ≡ ok c t = ground arith in
    rw (hex4_byte (c / 16) (c % 16) t (omega arith) (omega arith), e, p, k) refl

escape_loop :
    (fuel c : ℕ) (e r t : Text)
    → escape_at e ≡ ok (c ∷ []) t
    → string_loop (suc fuel) (b'\\' ∷ e) ≡ bind (string_loop fuel t) (λ more. pure (c ∷ more))
unfolding string_loop
escape_loop fuel c e r t h = rw h refl

plain_loop :
    (fuel c : ℕ) (t : Text)
    → kind c ≡ plain
    → string_loop (suc fuel) (c ∷ t) ≡ bind (string_loop fuel t) (λ more. pure (c ∷ more))
unfolding string_loop
plain_loop fuel c t e =
    ap
      (λ k. elim k as (λ _. Result Text) [
        | end ↦ ok [] t
        | control ↦ failed (codes "control character in string") t
        | backslash ↦ (escape_at >>= λ r. string_loop fuel >>= λ more. pure (r ++ more)) t
        | plain ↦ (string_loop fuel >>= λ more. pure (c ∷ more)) t
      ])
      e

string_loop-escape_byte :
    (fuel c : ℕ) (t : Text)
    → string_loop (suc fuel) (escape_byte c ++ t)
      ≡ bind (string_loop fuel t) (λ more. pure (c ∷ more))
unfolding string_loop escape_byte escape_at
string_loop-escape_byte fuel c t = elim (Bool-cases (c == b'"')) [
  | inl e ↦ rw (e, (==_iff c _).0 e) refl
  | inr q ↦ elim (Bool-cases (c == b'\\')) [
    | inl e ↦ rw (q, e, (==_iff c _).0 e) refl
    | inr b ↦ elim (Bool-cases (c == 10)) [
      | inl e ↦ rw (q, b, e, (==_iff c _).0 e) refl
      | inr n ↦ elim (Bool-cases (c == 13)) [
        | inl e ↦ rw (q, b, n, e, (==_iff c _).0 e) refl
        | inr r ↦ elim (Bool-cases (c == 9)) [
          | inl e ↦ rw (q, b, n, r, e, (==_iff c _).0 e) refl
          | inr t' ↦ elim (Bool-cases (ltb c 32)) [
            | inl e ↦
                rw (q, b, n, r, t', e)
                  (escape_loop fuel c
                    (b'u' ∷ b'0' ∷ b'0' ∷ Json.hex_digit (c / 16) ∷ Json.hex_digit (c % 16) ∷ t) t t
                    (unicode_escape_byte c t (ltb→lt c 32 e)))
            | inr e ↦ rw (q, b, n, r, t', e) (plain_loop fuel c t (rw (q, e, b) refl))
          ]
        ]
      ]
    ]
  ]
]

string_loop_end : (fuel : ℕ) (rest : Text) → string_loop (suc fuel) (b'"' ∷ rest) ≡ ok [] rest
unfolding string_loop
string_loop_end fuel rest = refl

escape_byte_long : (c : ℕ) → 1 ≤ length (escape_byte c)
unfolding escape_byte
escape_byte_long c = ground arith

longer : (s rest : Text) → length s < length (escape_bytes s ++ b'"' ∷ rest)
unfolding escape_bytes
longer [] rest = omega arith
longer (c ∷ s) rest = omega (
  arith,
  longer s rest,
  escape_byte_long c,
  length-append (escape_byte c) (escape_bytes s),
  length-append (escape_byte c ++ escape_bytes s) (b'"' ∷ rest),
  length-append (escape_bytes s) (b'"' ∷ rest),
)

string_loop-escape_bytes :
    (s rest : Text) (fuel : ℕ)
    → length s < fuel
    → string_loop fuel (escape_bytes s ++ b'"' ∷ rest) ≡ ok s rest
unfolding escape_bytes
string_loop-escape_bytes s rest zero h = absurd (omega arith)
string_loop-escape_bytes [] rest (suc fuel) h = string_loop_end fuel rest
string_loop-escape_bytes (c ∷ s) rest (suc fuel) h =
    ap (string_loop (suc fuel)) (append_assoc (escape_byte c) (escape_bytes s) (b'"' ∷ rest))
    ∙ string_loop-escape_byte fuel c (escape_bytes s ++ b'"' ∷ rest)
    ∙ ap (λ r. bind r (λ more. pure (c ∷ more)))
        (string_loop-escape_bytes s rest fuel (omega arith))

-- The parser reads back what `escape` writes: from the text of any string, with whatever stands behind
-- it, `string` gets that string behind the opening quote, and leaves what stands behind the closing
-- quote.
pub string-escape : (s rest : Text) → string (drop 1 (escape s ++ rest)) ≡ ok s rest
unfolding escape string
string-escape s rest =
    rw (append_assoc (escape_bytes s) (b'"' ∷ []) rest)
      (string_loop-escape_bytes s rest (length (escape_bytes s ++ b'"' ∷ rest)) (longer s rest))
