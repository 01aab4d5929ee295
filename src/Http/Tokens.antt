-- ===== src/Http/Tokens.antt =====
-- header_has_token of tools/ctl/backend/http.cpp against the list of a header's values.
use ipc_data_relay.Common.{
  ℕ, zero, suc, ◌+◌, ◌-◌, ◌<◌, ◌≤◌, ◌≡◌, refl, sym, ap, ◌∙◌, Bool, true, false, ◌||◌, Option, none,
  some, List, [], ◌∷◌, leb, ◌==◌, if◌then◌else◌, length, take, drop, length-drop, drop-drop,
  Bool-cases, Option-cases, inl, inr, some-inj, arith,
}
use ipc_data_relay.Text.{Text, same_text, to_lower, trim}
use ipc_data_relay.Http.{find, find_from, further, token_loop, header_has_token}

-- The pieces between the commas.
abbrev add_to_first : ℕ → List Text → List Text
add_to_first c [] = (c ∷ []) ∷ []
add_to_first c (p ∷ ps) = (c ∷ p) ∷ ps

unfoldable pub pieces : Text → List Text
pieces [] = [] ∷ []
pieces (c ∷ s) = let rest = pieces s in if b',' == c then [] ∷ rest else add_to_first c rest

-- One of the pieces is the token, but for case and white space.
abbrev pub some_piece : Text → List Text → Bool
some_piece want [] = false
some_piece want (p ∷ ps) = same_text (to_lower (trim p)) want || some_piece want ps

-- The pieces by way of the first comma.
abbrev cut_at : Text → Option ℕ → List Text
cut_at s none = s ∷ []
cut_at s (some n) = take n s ∷ pieces (drop (n + 1) s)

pieces_find_later :
    (c : ℕ) (s : Text) (o : Option ℕ) → add_to_first c (cut_at s o) ≡ cut_at (c ∷ s) (further 1 o)
pieces_find_later c s none = refl
pieces_find_later c s (some n) = rw (let e : 1 + n ≡ suc n = omega arith in e) (
    ap (λ k. (c ∷ take n s) ∷ pieces (drop k (c ∷ s)))
      (let e : suc (n + 1) ≡ suc n + 1 = omega arith in e))

pieces-find : (s : Text) → pieces s ≡ cut_at s (find (b',' ∷ []) s)
unfolding pieces find
pieces-find [] = refl
pieces-find (c ∷ s) = elim (Bool-cases (b',' == c)) [
  | inl e ↦ rw e refl
  | inr e ↦ rw e (ap (add_to_first c) (pieces-find s) ∙ pieces_find_later c s (find (b',' ∷ []) s))
]

find_short : (s : Text) (n : ℕ) → find (b',' ∷ []) s ≡ some n → n < length s
unfolding find
find_short [] n h = absurd (cc)
find_short (c ∷ s) n h = elim (Bool-cases (b',' == c)) [
  | inl e ↦ let q : some 0 ≡ some n = rw e at h in omega (arith, some-inj q)
  | inr e ↦ elim (Option-cases (find (b',' ∷ []) s)) [
    | inl g ↦ absurd (let q : none ≡ some n = rw (e, g) at h in cc)
    | inr (m, g) ↦
        let q : some (1 + m) ≡ some n = rw (e, g) at h in
        omega (arith, some-inj q, find_short s m g)
  ]
]

take_all : (s : Text) (n : ℕ) → length s ≤ n → take n s ≡ s
take_all [] zero h = refl
take_all [] (suc n) h = refl
take_all (c ∷ s) zero h = absurd (omega arith)
take_all (c ∷ s) (suc n) h = ap (λ t. c ∷ t) (take_all s n (omega arith))

token_loop_past :
    (fuel : ℕ) (value want : Text) (start : ℕ)
    → length value < start
    → token_loop fuel value want start ≡ false
unfolding token_loop
token_loop_past zero value want start h = refl
token_loop_past (suc fuel) value want start h =
    let l : leb start (length value) ≡ false = ground arith in rw l refl

token_loop-pieces :
    (fuel : ℕ) (value want : Text) (start : ℕ)
    → start ≤ length value
    → length value < start + fuel
    → token_loop fuel value want start ≡ some_piece want (pieces (drop start value))
unfolding token_loop find_from
token_loop-pieces zero value want start h f = absurd (omega arith)
token_loop-pieces (suc fuel) value want start h f =
    let l : leb start (length value) ≡ true = ground arith in
    elim (Option-cases (find (b',' ∷ []) (drop start value))) [
      | inl e ↦
          rw
            (
              l,
              pieces-find (drop start value),
              e,
              take_all (drop start value) (length value - start)
                  (omega (arith, length-drop start value)),
              token_loop_past fuel value want (length value + 1) (omega arith),
            )
            refl
      | inr (n, e) ↦
          let short = find_short (drop start value) n e in
          let k : start + n - start ≡ n = omega arith in
          rw (l, pieces-find (drop start value), e, k)
            (ap (λ b. same_text (to_lower (trim (take n (drop start value)))) want || b)
              (token_loop-pieces fuel value want (start + n + 1)
                  (omega (arith, length-drop start value)) (omega arith)
                ∙ ap (λ t. some_piece want (pieces t))
                    (sym (drop-drop (n + 1) start (start + n + 1) value (omega arith)))))
    ]

-- header_has_token says whether one of the pieces between the commas of the value, without the white
-- space around it and without regard to case, is the token.
pub header_has_token-pieces :
    (value token : Text) → header_has_token value token ≡ some_piece (to_lower token) (pieces value)
unfolding header_has_token
header_has_token-pieces value token =
    token_loop-pieces (length value + 1) value (to_lower token) 0 (omega arith) (omega arith)
