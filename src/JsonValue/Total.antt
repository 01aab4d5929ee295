-- ===== src/JsonValue/Total.antt =====
-- The parser of tools/ctl/backend/json_value.cpp comes to an end: every step reads on, and the fuel of
-- the model is enough.
use ipc_data_relay.Common.{
  ℕ, zero, suc, ◌+◌, ◌*◌, ◌≤◌, ◌≢◌, Bool, true, false, [], ◌∷◌, ltb, ◌==◌, if◌then◌else◌, length,
  arith,
}
use ipc_data_relay.Text.{Text, codes}
use ipc_data_relay.JsonValue.Scan.{
  Result, ok, failed, out_of_fuel, Parser, ◌>>=◌, pure, skip_ws, literal, string, number,
}
use ipc_data_relay.JsonValue.{
  Value, string_of, boolean, number_of, null, object, array, member, no_members, item, no_values,
  brace, bracket, quote, true_word, false_word, null_word, other, start, check_depth, closes,
  closes_now, separator, after_value, key_at, colon_at, object_key, colon, value, object_at,
  members, array_at, values, stuck, parse, finish, trailing,
}
use ipc_data_relay.JsonValue.Tokens.{
  Leaves, bind-Leaves, if-Leaves, skip_ws_short, string-Leaves, literal-Leaves, number-Leaves,
}

-- The steps between values.
check_depth-Leaves :
    (opening max_depth depth : ℕ) (s : Text) (n : ℕ)
    → length s ≤ n
    → Leaves n (check_depth opening max_depth depth s)
check_depth-Leaves opening max_depth depth s n h =
    if-Leaves n (ltb max_depth depth) (failed (codes "nesting too deep") (opening ∷ s)) (ok tt s) tt
      h

closes-Leaves : (close : ℕ) (s : Text) (n : ℕ) → length s ≤ n → Leaves n (closes close s)
closes-Leaves close [] n h = h
closes-Leaves close (c ∷ s) n h =
    if-Leaves n (c == close) (ok true s) (ok false (c ∷ s)) (omega arith) h

closes_now-Leaves : (close : ℕ) (s : Text) (n : ℕ) → length s ≤ n → Leaves n (closes_now close s)
closes_now-Leaves close s n h = closes-Leaves close (skip_ws s) n (omega (arith, skip_ws_short s))

separator-Leaves :
    (close : ℕ) (u e s : Text) (n : ℕ) → length s ≤ n → Leaves n (separator close u e s)
separator-Leaves close u e [] n h = tt
separator-Leaves close u e (c ∷ s) n h =
    if-Leaves n (c == b',') (ok true s) (if c == close then ok false s else failed e (c ∷ s))
      (omega arith) (if-Leaves n (c == close) (ok false s) (failed e (c ∷ s)) (omega arith) tt)

after_value-Leaves :
    (close : ℕ) (u e s : Text) (n : ℕ) → length s ≤ n → Leaves n (after_value close u e s)
after_value-Leaves close u e s n h =
    separator-Leaves close u e (skip_ws s) n (omega (arith, skip_ws_short s))

key_at-Leaves : (s : Text) (n : ℕ) → length s ≤ suc n → Leaves n (key_at s)
key_at-Leaves [] n h = tt
key_at-Leaves (c ∷ s) n h =
    if-Leaves n (c == b'"') (string s) (failed (codes "expected object key") (c ∷ s))
      (string-Leaves s n (omega arith)) tt

colon_at-Leaves : (s : Text) (n : ℕ) → length s ≤ n → Leaves n (colon_at s)
colon_at-Leaves [] n h = tt
colon_at-Leaves (c ∷ s) n h =
    if-Leaves n (c == b':') (ok tt s) (failed (codes "expected ':'") (c ∷ s)) (omega arith) tt

choice-Leaves {ℓ} :
    {A : Type ℓ} (n : ℕ) (b : Bool) (p q : Parser A) (s : Text)
    → Leaves n (p s)
    → Leaves n (q s)
    → Leaves n ((elim b as (λ _. Parser A) [ true ↦ p | false ↦ q ]) s)
choice-Leaves n true p q s h k = h
choice-Leaves n false p q s h k = k

mutual
  unfolding value object_at members array_at values

  value-Leaves :
      (fuel max_depth depth : ℕ) (s : Text) (n : ℕ)
      → 3 * length s + 1 ≤ fuel
      → length s ≤ suc n
      → Leaves n (value fuel max_depth depth s)
  value-Leaves zero max_depth depth s n f h = absurd (omega arith)
  value-Leaves (suc fuel) max_depth depth [] n f h = tt
  value-Leaves (suc fuel) max_depth depth (c ∷ s) n f h =
      elim (start c)
        as (λ q. Leaves n (elim q as (λ _. Result Value) [
          | brace ↦ object_at fuel max_depth (depth + 1) s
          | bracket ↦ array_at fuel max_depth (depth + 1) s
          | quote ↦ (string >>= λ t. pure (string_of t)) s
          | true_word ↦ (literal (codes "true") >>= λ _. pure (boolean true)) (c ∷ s)
          | false_word ↦ (literal (codes "false") >>= λ _. pure (boolean false)) (c ∷ s)
          | null_word ↦ (literal (codes "null") >>= λ _. pure null) (c ∷ s)
          | other ↦ (number >>= λ t. pure (number_of t)) (c ∷ s)
        ])) [
          | brace ↦ object_at-Leaves fuel max_depth (depth + 1) s n (omega arith) (omega arith)
          | bracket ↦ array_at-Leaves fuel max_depth (depth + 1) s n (omega arith) (omega arith)
          | quote ↦ bind-Leaves n n (string s) _ (string-Leaves s n (omega arith)) (λ t r le. le)
          | true_word ↦
              bind-Leaves n n (literal (codes "true") (c ∷ s)) _
                (literal-Leaves b't' (codes "rue") (c ∷ s) n h) (λ t r le. le)
          | false_word ↦
              bind-Leaves n n (literal (codes "false") (c ∷ s)) _
                (literal-Leaves b'f' (codes "alse") (c ∷ s) n h) (λ t r le. le)
          | null_word ↦
              bind-Leaves n n (literal (codes "null") (c ∷ s)) _
                (literal-Leaves b'n' (codes "ull") (c ∷ s) n h) (λ t r le. le)
          | other ↦ bind-Leaves n n (number (c ∷ s)) _ (number-Leaves (c ∷ s) n h) (λ t r le. le)
        ]

  object_at-Leaves :
      (fuel max_depth depth : ℕ) (s : Text) (n : ℕ)
      → 3 * length s + 3 ≤ fuel
      → length s ≤ n
      → Leaves n (object_at fuel max_depth depth s)
  object_at-Leaves zero max_depth depth s n f h = absurd (omega arith)
  object_at-Leaves (suc fuel) max_depth depth s n f h =
      bind-Leaves (length s) n (check_depth b'{' max_depth depth s) _
        (check_depth-Leaves b'{' max_depth depth s (length s) (omega arith))
        (λ _ t le.
          bind-Leaves (length s) n (closes_now b'}' t) _ (closes_now-Leaves b'}' t (length s) le)
            (λ empty u le.
              choice-Leaves n empty (pure (object no_members))
                (members fuel max_depth depth >>= λ ms. pure (object ms)) u (omega arith)
                (bind-Leaves n n (members fuel max_depth depth u) _
                  (members-Leaves fuel max_depth depth u n (omega arith) (omega arith))
                  (λ ms r le. le))))

  members-Leaves :
      (fuel max_depth depth : ℕ) (s : Text) (n : ℕ)
      → 3 * length s + 2 ≤ fuel
      → length s ≤ n
      → Leaves n (members fuel max_depth depth s)
  members-Leaves zero max_depth depth s n f h = absurd (omega arith)
  members-Leaves (suc fuel) max_depth depth [] n f h = tt
  members-Leaves (suc fuel) max_depth depth (c ∷ s) n f h =
      bind-Leaves (length s) n (object_key (c ∷ s)) _
        (key_at-Leaves (skip_ws (c ∷ s)) (length s) (skip_ws_short (c ∷ s)))
        (λ k t le.
          bind-Leaves (length s) n (colon t) _
            (colon_at-Leaves (skip_ws t) (length s) (omega (arith, skip_ws_short t)))
            (λ _ u le.
              bind-Leaves (length s) n (value fuel max_depth depth (skip_ws u)) _
                (value-Leaves fuel max_depth depth (skip_ws u) (length s)
                  (omega (arith, skip_ws_short u)) (omega (arith, skip_ws_short u)))
                (λ v w le.
                  bind-Leaves (length s) n
                    (after_value b'}' (codes "unterminated object") (codes "expected ',' or '}'") w)
                    _ (after_value-Leaves b'}' _ _ w (length s) le)
                    (λ more x le.
                      choice-Leaves n more
                        (members fuel max_depth depth >>= λ ms. pure (member k v ms))
                        (pure (member k v no_members)) x
                        (bind-Leaves n n (members fuel max_depth depth x) _
                          (members-Leaves fuel max_depth depth x n (omega arith) (omega arith))
                          (λ ms r le. le))
                        (omega arith)))))

  array_at-Leaves :
      (fuel max_depth depth : ℕ) (s : Text) (n : ℕ)
      → 3 * length s + 3 ≤ fuel
      → length s ≤ n
      → Leaves n (array_at fuel max_depth depth s)
  array_at-Leaves zero max_depth depth s n f h = absurd (omega arith)
  array_at-Leaves (suc fuel) max_depth depth s n f h =
      bind-Leaves (length s) n (check_depth b'[' max_depth depth s) _
        (check_depth-Leaves b'[' max_depth depth s (length s) (omega arith))
        (λ _ t le.
          bind-Leaves (length s) n (closes_now b']' t) _ (closes_now-Leaves b']' t (length s) le)
            (λ empty u le.
              choice-Leaves n empty (pure (array no_values))
                (values fuel max_depth depth >>= λ vs. pure (array vs)) u (omega arith)
                (bind-Leaves n n (values fuel max_depth depth u) _
                  (values-Leaves fuel max_depth depth u n (omega arith) (omega arith))
                  (λ vs r le. le))))

  values-Leaves :
      (fuel max_depth depth : ℕ) (s : Text) (n : ℕ)
      → 3 * length s + 2 ≤ fuel
      → length s ≤ n
      → Leaves n (values fuel max_depth depth s)
  values-Leaves zero max_depth depth s n f h = absurd (omega arith)
  values-Leaves (suc zero) max_depth depth [] n f h = absurd (omega arith)
  values-Leaves (suc (suc fuel)) max_depth depth [] n f h = tt
  values-Leaves (suc fuel) max_depth depth (c ∷ s) n f h =
      bind-Leaves (length s) n (value fuel max_depth depth (skip_ws (c ∷ s))) _
        (value-Leaves fuel max_depth depth (skip_ws (c ∷ s)) (length s)
          (omega (arith, skip_ws_short (c ∷ s))) (skip_ws_short (c ∷ s)))
        (λ v w le.
          bind-Leaves (length s) n
            (after_value b']' (codes "unterminated array") (codes "expected ',' or ']'") w) _
            (after_value-Leaves b']' _ _ w (length s) le)
            (λ more x le.
              choice-Leaves n more (values fuel max_depth depth >>= λ vs. pure (item v vs))
                (pure (item v no_values)) x
                (bind-Leaves n n (values fuel max_depth depth x) _
                  (values-Leaves fuel max_depth depth x n (omega arith) (omega arith))
                  (λ vs r le. le))
                (omega arith)))

trailing_not_stuck : (text : Text) (v : Value) (s : Text) → trailing text v s ≢ stuck
trailing_not_stuck text v [] e = cc
trailing_not_stuck text v (c ∷ s) e = cc

finish_not_stuck : (text : Text) (n : ℕ) (r : Result Value) → Leaves n r → finish text r ≢ stuck
finish_not_stuck text n (ok v rest) h e = trailing_not_stuck text v (skip_ws rest) e
finish_not_stuck text n (failed what rest) h e = cc
finish_not_stuck text n out_of_fuel h e = h

-- The parser comes to an end on every text and with every limit on the nesting: three units of fuel
-- for each byte, and one, are enough.
pub parse_terminates : (text : Text) (max_depth : ℕ) → parse text max_depth ≢ stuck
unfolding parse
parse_terminates text max_depth =
    finish_not_stuck text (length text) (value (3 * length text + 1) max_depth 0 (skip_ws text)) (
      value-Leaves (3 * length text + 1) max_depth 0 (skip_ws text) (length text)
        (omega (arith, skip_ws_short text)) (omega (arith, skip_ws_short text)))
