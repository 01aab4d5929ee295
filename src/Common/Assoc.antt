-- ===== src/Common/Assoc.antt =====
-- Maps as association lists over a key with a Boolean equality: `find`, `insert_or_assign` and
-- `erase` of the C++ containers. The program never reads the order of an unordered_map.
use Prim.Native.Nat.{suc, ◌≤◌, ◌<◌}
use mathlib.Core.Path.{◌≡◌, refl}
use mathlib.Core.Logic.{◌↔◌}
use mathlib.Core.Bool.{Bool, true}
use mathlib.Core.Option.{Option, none, some}
use mathlib.Core.List.{List, [], ◌∷◌}
use native.Mathlib.Omega.{arith}
use ipc_data_relay.Common.Tests.{if◌then◌else◌}
use ipc_data_relay.Common.Lists.{length}

pub record Eq {ℓ} (K : Type ℓ) : Type ℓ where
  pub beq : K → K → Bool
  pub beq_iff : (a b : K) → (beq a b ≡ true) ↔ (a ≡ b)

module _ {ℓ κ} {K : Type ℓ} ⦃e : Eq K⦄ {V : Type κ} where
  unfoldable pub find : List (K × V) → K → Option V
  find [] k = none
  find ((j, v) ∷ m) k = if e.beq j k then some v else find m k

  unfoldable pub assign : List (K × V) → K → V → List (K × V)
  assign [] k v = (k, v) ∷ []
  assign ((j, w) ∷ m) k v = if e.beq j k then (k, v) ∷ m else (j, w) ∷ assign m k v

  unfoldable pub erase : List (K × V) → K → List (K × V)
  erase [] k = []
  erase ((j, w) ∷ m) k = let rest = erase m k in if e.beq j k then rest else (j, w) ∷ rest

  pub find-assign :
      (m : List (K × V)) (k j : K) (v : V)
      → find (assign m k v) j ≡ (if e.beq k j then some v else find m j)
  unfolding find assign
  find-assign [] k j v = refl
  find-assign ((i, w) ∷ m) k j v =
      ground (arith, e.beq_iff k j, e.beq_iff i k, e.beq_iff i j, find-assign m k j v)

  pub find-erase :
      (m : List (K × V)) (k j : K) → find (erase m k) j ≡ (if e.beq k j then none else find m j)
  unfolding find erase
  find-erase [] k j = ground arith
  find-erase ((i, w) ∷ m) k j =
      ground (arith, e.beq_iff k j, e.beq_iff i k, e.beq_iff i j, find-erase m k j)

  pub length-erase-le : (m : List (K × V)) (k : K) → length (erase m k) ≤ length m
  unfolding erase
  length-erase-le [] k = omega arith
  length-erase-le ((i, w) ∷ m) k = ground (arith, length-erase-le m k)

  -- Erasing a key that is there makes the map shorter.
  pub length-erase-lt :
      (m : List (K × V)) (k : K) (v : V) → find m k ≡ some v → length (erase m k) < length m
  unfolding find erase
  length-erase-lt [] k v h = absurd (cc)
  length-erase-lt ((i, w) ∷ m) k v h = ground (arith, length-erase-le m k, length-erase-lt m k v)

  pub length-assign-new :
      (m : List (K × V)) (k : K) (v : V) → find m k ≡ none → length (assign m k v) ≡ suc (length m)
  unfolding find assign
  length-assign-new [] k v h = refl
  length-assign-new ((i, w) ∷ m) k v h = ground (arith, length-assign-new m k v)

  pub length-assign-old :
      (m : List (K × V)) (k : K) (v w : V) → find m k ≡ some w → length (assign m k v) ≡ length m
  unfolding find assign
  length-assign-old [] k v w h = absurd (cc)
  length-assign-old ((i, x) ∷ m) k v w h = ground (arith, length-assign-old m k v w)

  pub length-assign-le : (m : List (K × V)) (k : K) (v : V) → length (assign m k v) ≤ suc (length m)
  unfolding assign
  length-assign-le [] k v = omega arith
  length-assign-le ((i, x) ∷ m) k v = ground (arith, length-assign-le m k v)

  pub find-assign_self : (m : List (K × V)) (k : K) (v : V) → find (assign m k v) k ≡ some v
  find-assign_self m k v = ground (arith, find-assign m k k v, e.beq_iff k k)
