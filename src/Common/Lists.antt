-- ===== src/Common/Lists.antt =====
-- Lists measured and indexed by native numbers, under the library's names.
use Prim.Native.Nat.{ℕ, zero, suc, ◌+◌, ◌-◌, ◌<◌, ◌≤◌, min}
use ipc_data_relay.Common.Tests.{◌==◌, if◌then◌else◌}
use mathlib.Core.Path.{◌≡◌, refl, ap, ap₂, ◌∙◌}
use mathlib.Core.Logic.{◌≢◌, ◌⊎◌}
use mathlib.Core.List.{List, [], ◌∷◌, ◌++◌, map}
use mathlib.Core.Option.{Option, none, some}
use native.Mathlib.Omega.{arith}

module _ {ℓ} {A : Type ℓ} where
  abbrev pub length : List A → ℕ
  length [] = 0
  length (x ∷ xs) = suc (length xs)

  abbrev pub get_elem? : List A → ℕ → Option A
  get_elem? [] i = none
  get_elem? (x ∷ xs) zero = some x
  get_elem? (x ∷ xs) (suc i) = get_elem? xs i

  -- A write out of bounds changes nothing.
  abbrev pub set : List A → ℕ → A → List A
  set [] i v = []
  set (x ∷ xs) zero v = v ∷ xs
  set (x ∷ xs) (suc i) v = x ∷ set xs i v

  pub length-append : (xs ys : List A) → length (xs ++ ys) ≡ length xs + length ys
  length-append [] ys = omega arith
  length-append (x ∷ xs) ys = omega (arith, length-append xs ys)

module _ {ℓ} {A : Type ℓ} where
  pub length-set : (xs : List A) (i : ℕ) (v : A) → length (set xs i v) ≡ length xs
  length-set [] i v = refl
  length-set (x ∷ xs) zero v = refl
  length-set (x ∷ xs) (suc i) v = ap suc (length-set xs i v)

  pub get_elem?-set_self :
      (xs : List A) (i : ℕ) (v : A) → i < length xs → get_elem? (set xs i v) i ≡ some v
  get_elem?-set_self [] i v h = elim h [ ]
  get_elem?-set_self (x ∷ xs) zero v h = refl
  get_elem?-set_self (x ∷ xs) (suc i) v h = get_elem?-set_self xs i v (omega arith)

  pub get_elem?-set_ne :
      (xs : List A) {i j : ℕ} (v : A) → i ≢ j → get_elem? (set xs i v) j ≡ get_elem? xs j
  get_elem?-set_ne [] v h = refl
  get_elem?-set_ne (x ∷ xs) {i = zero} {j = zero} v h = absurd (h refl)
  get_elem?-set_ne (x ∷ xs) {i = zero} {j = suc j} v h = refl
  get_elem?-set_ne (x ∷ xs) {i = suc i} {j = zero} v h = refl
  get_elem?-set_ne (x ∷ xs) {i = suc i} {j = suc j} v h = get_elem?-set_ne xs v (λ e. h (ap suc e))

module _ {ℓ} {A : Type ℓ} where
  abbrev pub get_or : List A → ℕ → A → A
  get_or [] i d = d
  get_or (x ∷ xs) zero d = x
  get_or (x ∷ xs) (suc i) d = get_or xs i d

  abbrev pub take : ℕ → List A → List A
  take zero xs = []
  take (suc n) [] = []
  take (suc n) (x ∷ xs) = x ∷ take n xs

  abbrev pub drop : ℕ → List A → List A
  drop zero xs = xs
  drop (suc n) [] = []
  drop (suc n) (x ∷ xs) = drop n xs

  abbrev pub replicate : ℕ → A → List A
  replicate zero a = []
  replicate (suc n) a = a ∷ replicate n a

  pub take-append-drop : (n : ℕ) (xs : List A) → take n xs ++ drop n xs ≡ xs
  take-append-drop zero xs = refl
  take-append-drop (suc n) [] = refl
  take-append-drop (suc n) (x ∷ xs) = rw (take-append-drop n xs)

  pub length-take : (n : ℕ) (xs : List A) → length (take n xs) ≡ min n (length xs)
  length-take zero xs = omega arith
  length-take (suc n) [] = omega arith
  length-take (suc n) (x ∷ xs) = omega (arith, length-take n xs)

  pub length-drop : (n : ℕ) (xs : List A) → length (drop n xs) ≡ length xs - n
  length-drop zero xs = omega arith
  length-drop (suc n) [] = omega arith
  length-drop (suc n) (x ∷ xs) = omega (arith, length-drop n xs)

  pub length-replicate : (n : ℕ) (a : A) → length (replicate n a) ≡ n
  length-replicate zero a = refl
  length-replicate (suc n) a = ap suc (length-replicate n a)

  pub length-map {κ} : {B : Type κ} (xs : List A) (f : A → B) → length (map f xs) ≡ length xs
  length-map [] f = refl
  length-map (x ∷ xs) f = ap suc (length-map xs f)

module _ {ℓ} {A : Type ℓ} where
  pub drop-append : (n : ℕ) (xs ys : List A) → length xs ≡ n → drop n (xs ++ ys) ≡ ys
  drop-append zero [] ys h = refl
  drop-append zero (x ∷ xs) ys h = absurd (omega arith)
  drop-append (suc n) [] ys h = absurd (omega arith)
  drop-append (suc n) (x ∷ xs) ys h = drop-append n xs ys (omega arith)

  pub take-append : (n : ℕ) (xs ys : List A) → length xs ≡ n → take n (xs ++ ys) ≡ xs
  take-append zero [] ys h = refl
  take-append zero (x ∷ xs) ys h = absurd (omega arith)
  take-append (suc n) [] ys h = absurd (omega arith)
  take-append (suc n) (x ∷ xs) ys h = ap (λ t. x ∷ t) (take-append n xs ys (omega arith))

  pub take-append_more :
      (n m : ℕ) (xs ys : List A) → length xs + m ≡ n → take n (xs ++ ys) ≡ xs ++ take m ys
  take-append_more n m [] ys h = ap (λ k. take k ys) (let e : n ≡ m = omega arith in e)
  take-append_more zero m (x ∷ xs) ys h = absurd (omega arith)
  take-append_more (suc n) m (x ∷ xs) ys h =
      ap (λ t. x ∷ t) (take-append_more n m xs ys (omega arith))

  pub take-length : (xs : List A) → take (length xs) xs ≡ xs
  take-length [] = refl
  take-length (x ∷ xs) = ap (λ t. x ∷ t) (take-length xs)

  pub drop-drop : (m n k : ℕ) (xs : List A) → n + m ≡ k → drop m (drop n xs) ≡ drop k xs
  drop-drop m zero k xs h = ap (λ i. drop i xs) (let e : m ≡ k = omega arith in e)
  drop-drop m (suc n) zero xs h = absurd (omega arith)
  drop-drop zero (suc n) (suc k) [] h = refl
  drop-drop (suc m) (suc n) (suc k) [] h = refl
  drop-drop m (suc n) (suc k) (x ∷ xs) h = drop-drop m n k xs (omega arith)

  -- `get_or` of a prefix, and of what stands behind it.
  pub get_or-append_left :
      (xs ys : List A) (i : ℕ) (d : A) → i < length xs → get_or (xs ++ ys) i d ≡ get_or xs i d
  get_or-append_left [] ys i d h = absurd (omega arith)
  get_or-append_left (x ∷ xs) ys zero d h = refl
  get_or-append_left (x ∷ xs) ys (suc i) d h = get_or-append_left xs ys i d (omega arith)

  pub get_or-drop :
      (xs : List A) (n i k : ℕ) (d : A) → n + i ≡ k → get_or (drop n xs) i d ≡ get_or xs k d
  get_or-drop xs zero i k d h = ap (λ j. get_or xs j d) (let e : i ≡ k = omega arith in e)
  get_or-drop [] (suc n) i k d h = refl
  get_or-drop (x ∷ xs) (suc n) i zero d h = absurd (omega arith)
  get_or-drop (x ∷ xs) (suc n) i (suc k) d h = get_or-drop xs n i k d (omega arith)

  pub get_or-take : (xs : List A) (n i : ℕ) (d : A) → i < n → get_or (take n xs) i d ≡ get_or xs i d
  get_or-take xs zero i d h = absurd (omega arith)
  get_or-take [] (suc n) i d h = refl
  get_or-take (x ∷ xs) (suc n) zero d h = refl
  get_or-take (x ∷ xs) (suc n) (suc i) d h = get_or-take xs n i d (omega arith)

  -- Two arrays of one length are equal if they agree below it.
  pub list_ext :
      (xs ys : List A) (d : A)
      → length xs ≡ length ys
      → ((i : ℕ) → i < length ys → get_or xs i d ≡ get_or ys i d)
      → xs ≡ ys
  list_ext [] [] d h f = refl
  list_ext [] (y ∷ ys) d h f = absurd (omega arith)
  list_ext (x ∷ xs) [] d h f = absurd (omega arith)
  list_ext (x ∷ xs) (y ∷ ys) d h f =
      ap₂ ◌∷◌ (f 0 (omega arith)) (list_ext xs ys d (omega arith) (λ i p. f (suc i) (omega arith)))

  pub get_or-set :
      (xs : List A) (i j : ℕ) (v d : A)
      → i < length xs
      → get_or (set xs i v) j d ≡ (if i == j then v else get_or xs j d)
  get_or-set [] i j v d h = absurd (omega arith)
  get_or-set (x ∷ xs) zero zero v d h = refl
  get_or-set (x ∷ xs) zero (suc j) v d h = ground arith
  get_or-set (x ∷ xs) (suc i) zero v d h = ground arith
  get_or-set (x ∷ xs) (suc i) (suc j) v d h = get_or-set xs i j v d (omega arith) ∙ ground arith

  -- memcpy: the bytes of `ys` over those of `xs` from place `i` on; nothing is written past the end.
  pub write : List A → ℕ → List A → List A
  write [] i ys = []
  write (x ∷ xs) (suc i) ys = x ∷ write xs i ys
  write (x ∷ xs) zero [] = x ∷ xs
  write (x ∷ xs) zero (y ∷ ys) = y ∷ write xs zero ys

  pub length-write : (xs : List A) (i : ℕ) (ys : List A) → length (write xs i ys) ≡ length xs
  unfolding write
  length-write [] i ys = refl
  length-write (x ∷ xs) (suc i) ys = ap suc (length-write xs i ys)
  length-write (x ∷ xs) zero [] = refl
  length-write (x ∷ xs) zero (y ∷ ys) = ap suc (length-write xs zero ys)

  -- Inside the block that was copied the array holds the copy, elsewhere what it held.
  pub get_or-write_in :
      (xs : List A) (i : ℕ) (ys : List A) (j k : ℕ) (d : A)
      → j < length ys
      → i + j ≡ k
      → k < length xs
      → get_or (write xs i ys) k d ≡ get_or ys j d
  unfolding write
  get_or-write_in [] i ys j k d p e q = absurd (omega arith)
  get_or-write_in (x ∷ xs) (suc i) ys j zero d p e q = absurd (omega arith)
  get_or-write_in (x ∷ xs) (suc i) ys j (suc k) d p e q =
      get_or-write_in xs i ys j k d p (omega arith) (omega arith)
  get_or-write_in (x ∷ xs) zero [] j k d p e q = absurd (omega arith)
  get_or-write_in (x ∷ xs) zero (y ∷ ys) zero zero d p e q = refl
  get_or-write_in (x ∷ xs) zero (y ∷ ys) zero (suc k) d p e q = absurd (omega arith)
  get_or-write_in (x ∷ xs) zero (y ∷ ys) (suc j) zero d p e q = absurd (omega arith)
  get_or-write_in (x ∷ xs) zero (y ∷ ys) (suc j) (suc k) d p e q =
      get_or-write_in xs zero ys j k d (omega arith) (omega arith) (omega arith)

  pub get_or-write_out :
      (xs : List A) (i : ℕ) (ys : List A) (j : ℕ) (d : A)
      → (j < i) ⊎ (i + length ys ≤ j)
      → get_or (write xs i ys) j d ≡ get_or xs j d
  unfolding write
  get_or-write_out [] i ys j d h = refl
  get_or-write_out (x ∷ xs) (suc i) ys zero d h = refl
  get_or-write_out (x ∷ xs) (suc i) ys (suc j) d h = get_or-write_out xs i ys j d (omega arith)
  get_or-write_out (x ∷ xs) zero [] j d h = refl
  get_or-write_out (x ∷ xs) zero (y ∷ ys) zero d h = absurd (omega arith)
  get_or-write_out (x ∷ xs) zero (y ∷ ys) (suc j) d h =
      get_or-write_out xs zero ys j d (omega arith)
