-- ===== src/JsonValue/Nesting.antt =====
-- How deep a value of the parser in tools/ctl/backend/json_value.cpp can be nested.
use ipc_data_relay.Common.{
  ℕ, zero, suc, ◌+◌, ◌*◌, ◌≤◌, ◌≡◌, subst, max, Bool, true, false, [], ◌∷◌, ltb, length, arith,
  Bool-cases, inl, inr,
}
use ipc_data_relay.Text.{Text, codes}
use ipc_data_relay.JsonValue.Scan.{
  Result, ok, failed, out_of_fuel, Parser, bind, ◌>>=◌, pure, skip_ws, literal, string, number,
}
use ipc_data_relay.JsonValue.{
  Value, Values, Members, null, boolean, number_of, string_of, array, object, no_values, item,
  no_members, member, start, brace, bracket, quote, true_word, false_word, null_word, other,
  check_depth, closes_now, after_value, object_key, colon, value, object_at, members, array_at,
  values, accepted, finish, trailing, parse,
}

-- The number of brackets around the innermost value.
mutual
  pub nesting : Value → ℕ
  nesting null = 0
  nesting (boolean b) = 0
  nesting (number_of t) = 0
  nesting (string_of t) = 0
  nesting (array vs) = 1 + nesting_values vs
  nesting (object ms) = 1 + nesting_members ms

  nesting_values : Values → ℕ
  nesting_values no_values = 0
  nesting_values (item v vs) = max (nesting v) (nesting_values vs)

  nesting_members : Members → ℕ
  nesting_members no_members = 0
  nesting_members (member k v ms) = max (nesting v) (nesting_members ms)

-- What a step hands on when it succeeds.
abbrev Gives {ℓ} : {A : Type ℓ} → (A → Type 0) → Result A → Type 0
Gives P (ok a rest) = P a
Gives P (failed what rest) = Unit {0}
Gives P out_of_fuel = Unit {0}

bind-Gives {ℓ κ} :
    {A : Type ℓ} {B : Type κ} (P : A → Type 0) (Q : B → Type 0) (r : Result A) (f : A → Parser B)
    → Gives P r
    → ((a : A) (rest : Text) → P a → Gives Q (f a rest))
    → Gives Q (bind r f)
bind-Gives P Q (ok a rest) f h k = k a rest h
bind-Gives P Q (failed what rest) f h k = tt
bind-Gives P Q out_of_fuel f h k = tt

abbrev Anything {ℓ} : {A : Type ℓ} → A → Type 0
Anything a = Unit {0}

any-Gives {ℓ} : {A : Type ℓ} (r : Result A) → Gives Anything r
any-Gives (ok a rest) = tt
any-Gives (failed what rest) = tt
any-Gives out_of_fuel = tt

choice-Gives {ℓ} :
    {A : Type ℓ} (P : A → Type 0) (b : Bool) (p q : Parser A) (s : Text)
    → Gives P (p s)
    → Gives P (q s)
    → Gives P ((elim b as (λ _. Parser A) [ true ↦ p | false ↦ q ]) s)
choice-Gives P true p q s h k = h
choice-Gives P false p q s h k = k

check_depth-Gives :
    (opening limit depth : ℕ) (s : Text)
    → Gives (λ _. depth ≤ limit) (check_depth opening limit depth s)
check_depth-Gives opening limit depth s = elim (Bool-cases (ltb limit depth)) [
  | inl e ↦ rw e tt
  | inr e ↦ rw e (ground arith)
]

mutual
  unfolding value object_at members array_at values nesting

  value-Gives :
      (fuel limit depth : ℕ) (s : Text)
      → depth ≤ limit
      → Gives (λ v. depth + nesting v ≤ limit) (value fuel limit depth s)
  value-Gives zero limit depth s h = tt
  value-Gives (suc fuel) limit depth [] h = tt
  value-Gives (suc fuel) limit depth (c ∷ s) h =
      elim (start c)
        as (λ q.
          Gives (λ v. depth + nesting v ≤ limit)
            (elim q as (λ _. Result Value) [
              | brace ↦ object_at fuel limit (depth + 1) s
              | bracket ↦ array_at fuel limit (depth + 1) s
              | quote ↦ (string >>= λ t. pure (string_of t)) s
              | true_word ↦ (literal (codes "true") >>= λ _. pure (boolean true)) (c ∷ s)
              | false_word ↦ (literal (codes "false") >>= λ _. pure (boolean false)) (c ∷ s)
              | null_word ↦ (literal (codes "null") >>= λ _. pure null) (c ∷ s)
              | other ↦ (number >>= λ t. pure (number_of t)) (c ∷ s)
            ])) [
              | brace ↦ object_at-Gives fuel limit depth s
              | bracket ↦ array_at-Gives fuel limit depth s
              | quote ↦
                  bind-Gives Anything _ (string s) _ (any-Gives (string s)) (λ t r a. omega arith)
              | true_word ↦
                  bind-Gives Anything _ (literal (codes "true") (c ∷ s)) _ (any-Gives _)
                    (λ t r a. omega arith)
              | false_word ↦
                  bind-Gives Anything _ (literal (codes "false") (c ∷ s)) _ (any-Gives _)
                    (λ t r a. omega arith)
              | null_word ↦
                  bind-Gives Anything _ (literal (codes "null") (c ∷ s)) _ (any-Gives _)
                    (λ t r a. omega arith)
              | other ↦
                  bind-Gives Anything _ (number (c ∷ s)) _ (any-Gives (number (c ∷ s)))
                    (λ t r a. omega arith)
            ]

  object_at-Gives :
      (fuel limit depth : ℕ) (s : Text)
      → Gives (λ v. depth + nesting v ≤ limit) (object_at fuel limit (depth + 1) s)
  object_at-Gives zero limit depth s = tt
  object_at-Gives (suc fuel) limit depth s =
      bind-Gives (λ _. depth + 1 ≤ limit) _ (check_depth b'{' limit (depth + 1) s) _
        (check_depth-Gives b'{' limit (depth + 1) s)
        (λ _ t le. bind-Gives Anything _ (closes_now b'}' t) _ (any-Gives _) (λ empty u a.
          choice-Gives (λ v. depth + nesting v ≤ limit) empty (pure (object no_members))
            (members fuel limit (depth + 1) >>= λ ms. pure (object ms)) u (omega arith)
            (bind-Gives (λ ms. depth + 1 + nesting_members ms ≤ limit) _
              (members fuel limit (depth + 1) u) _ (members-Gives fuel limit (depth + 1) u le)
              (λ ms r m. omega arith))))

  members-Gives :
      (fuel limit depth : ℕ) (s : Text)
      → depth ≤ limit
      → Gives (λ ms. depth + nesting_members ms ≤ limit) (members fuel limit depth s)
  members-Gives zero limit depth s h = tt
  members-Gives (suc fuel) limit depth s h =
      bind-Gives Anything _ (object_key s) _ (any-Gives _) (λ k t a.
        bind-Gives Anything _ (colon t) _ (any-Gives _) (λ _ u a.
          bind-Gives (λ v. depth + nesting v ≤ limit) _ (value fuel limit depth (skip_ws u)) _
            (value-Gives fuel limit depth (skip_ws u) h)
            (λ v w n.
              bind-Gives Anything _
                (after_value b'}' (codes "unterminated object") (codes "expected ',' or '}'") w) _
                (any-Gives _)
                (λ more x a.
                  choice-Gives (λ ms. depth + nesting_members ms ≤ limit) more
                    (members fuel limit depth >>= λ ms. pure (member k v ms))
                    (pure (member k v no_members)) x
                    (bind-Gives (λ ms. depth + nesting_members ms ≤ limit) _
                      (members fuel limit depth x) _ (members-Gives fuel limit depth x h)
                      (λ ms r m. omega arith))
                    (omega arith)))))

  array_at-Gives :
      (fuel limit depth : ℕ) (s : Text)
      → Gives (λ v. depth + nesting v ≤ limit) (array_at fuel limit (depth + 1) s)
  array_at-Gives zero limit depth s = tt
  array_at-Gives (suc fuel) limit depth s =
      bind-Gives (λ _. depth + 1 ≤ limit) _ (check_depth b'[' limit (depth + 1) s) _
        (check_depth-Gives b'[' limit (depth + 1) s)
        (λ _ t le. bind-Gives Anything _ (closes_now b']' t) _ (any-Gives _) (λ empty u a.
          choice-Gives (λ v. depth + nesting v ≤ limit) empty (pure (array no_values))
            (values fuel limit (depth + 1) >>= λ vs. pure (array vs)) u (omega arith)
            (bind-Gives (λ vs. depth + 1 + nesting_values vs ≤ limit) _
              (values fuel limit (depth + 1) u) _ (values-Gives fuel limit (depth + 1) u le)
              (λ vs r m. omega arith))))

  values-Gives :
      (fuel limit depth : ℕ) (s : Text)
      → depth ≤ limit
      → Gives (λ vs. depth + nesting_values vs ≤ limit) (values fuel limit depth s)
  values-Gives zero limit depth s h = tt
  values-Gives (suc fuel) limit depth s h =
      bind-Gives (λ v. depth + nesting v ≤ limit) _ (value fuel limit depth (skip_ws s)) _
        (value-Gives fuel limit depth (skip_ws s) h)
        (λ v w n.
          bind-Gives Anything _
            (after_value b']' (codes "unterminated array") (codes "expected ',' or ']'") w) _
            (any-Gives _)
            (λ more x a.
              choice-Gives (λ vs. depth + nesting_values vs ≤ limit) more
                (values fuel limit depth >>= λ vs. pure (item v vs)) (pure (item v no_values)) x
                (bind-Gives (λ vs. depth + nesting_values vs ≤ limit) _ (values fuel limit depth x)
                  _ (values-Gives fuel limit depth x h) (λ vs r m. omega arith))
                (omega arith)))

trailing_same :
    (text : Text) (u : Value) (s : Text) (v : Value) → trailing text u s ≡ accepted v → u ≡ v
trailing_same text u [] v e = cc
trailing_same text u (c ∷ s) v e = absurd (cc)

finish-Gives :
    (text : Text) (P : Value → Type 0) (r : Result Value) (v : Value)
    → Gives P r
    → finish text r ≡ accepted v
    → P v
finish-Gives text P (ok u rest) v h e = subst P (trailing_same text u (skip_ws rest) v e) h
finish-Gives text P (failed what rest) v h e = absurd (cc)
finish-Gives text P out_of_fuel v h e = absurd (cc)

-- A document that the parser accepts has no value inside more arrays and objects than the limit allows.
pub nesting-parse :
    (text : Text) (max_depth : ℕ) (v : Value)
    → parse text max_depth ≡ accepted v
    → nesting v ≤ max_depth
unfolding parse
nesting-parse text max_depth v h =
    let bound : 0 + nesting v ≤ max_depth =
      finish-Gives text (λ v. 0 + nesting v ≤ max_depth)
        (value (3 * length text + 1) max_depth 0 (skip_ws text)) v
        (value-Gives (3 * length text + 1) max_depth 0 (skip_ws text) (omega arith)) h in
    omega arith
