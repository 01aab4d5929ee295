-- ===== src/Reassembler/Tracks.antt =====
-- The keys of the map and the keys of the deque in the reassembler (reassembler.cpp).
use ipc_data_relay.Common.{
  ◌<◌, ◌≡◌, refl, Bool, true, false, ◌||◌, List, [], ◌∷◌, ◌++◌, none, some, inl, inr, arith, length,
  Option-cases,
}
use ipc_data_relay.Common.Assoc.{find, assign, erase, find-assign, find-erase, length-erase-lt}
use ipc_data_relay.Reassembler.{
  Reassembler, Key, Entry, key_eq, key_eq_iff, Key-eq, pending, evict_order,
}

unfoldable pub contains : List Key → Key → Bool
contains [] k = false
contains (j ∷ ks) k = key_eq j k || contains ks k

pub contains-append :
    (ks : List Key) (j k : Key) → contains ks k ≡ true → contains (ks ++ j ∷ []) k ≡ true
unfolding contains
contains-append [] j k h = cc
contains-append (i ∷ ks) j k h = ground (arith, contains-append ks j k)

pub contains-append_last : (ks : List Key) (k : Key) → contains (ks ++ k ∷ []) k ≡ true
unfolding contains
contains-append_last [] k = ground (arith, key_eq_iff k k)
contains-append_last (i ∷ ks) k = ground (arith, contains-append_last ks k)

-- Every key of the map stands in the deque.
unfoldable pub Tracks : List (Key × Entry) → List Key → Type 0
Tracks m ks = (k : Key) (e : Entry) → find m k ≡ some e → contains ks k ≡ true

pub Tracks-skip :
    (m : List (Key × Entry)) (j : Key) (ks : List Key)
    → Tracks m (j ∷ ks)
    → find m j ≡ none
    → Tracks m ks
unfolding Tracks contains
Tracks-skip m j ks t h k e f = ground (arith, t k e f, key_eq_iff j k)

pub Tracks-erase :
    (m : List (Key × Entry)) (j : Key) (ks : List Key) → Tracks m (j ∷ ks) → Tracks (erase m j) ks
unfolding Tracks contains
Tracks-erase m j ks t k e f = ground (arith, t k e, key_eq_iff j k, find-erase m j k)

pub Tracks-erase_only :
    (m : List (Key × Entry)) (j : Key) (ks : List Key) → Tracks m ks → Tracks (erase m j) ks
unfolding Tracks
Tracks-erase_only m j ks t k e f = ground (arith, t k e, find-erase m j k)

pub Tracks-assign_old :
    (m : List (Key × Entry)) (j : Key) (v w : Entry) (ks : List Key)
    → Tracks m ks
    → find m j ≡ some w
    → Tracks (assign m j v) ks
unfolding Tracks
Tracks-assign_old m j v w ks t h k e f =
    ground (arith, t k e, t j w h, key_eq_iff j k, find-assign m j k v)

pub Tracks-assign_new :
    (m : List (Key × Entry)) (j : Key) (v : Entry) (ks : List Key)
    → Tracks m ks
    → Tracks (assign m j v) (ks ++ j ∷ [])
unfolding Tracks
Tracks-assign_new m j v ks t k e f = ground (
  arith,
  t k e,
  key_eq_iff j k,
  find-assign m j k v,
  contains-append ks j k,
  contains-append_last ks j,
)

-- One eviction over a deque that tracks the map.
module _ (r : Reassembler) where
  pub evict_order-Tracks :
      (ks : List Key)
      → Tracks r.entries ks
      → Tracks (evict_order r ks).0.entries (evict_order r ks).0.order
  unfolding evict_order
  evict_order-Tracks [] t = t
  evict_order-Tracks (k ∷ ks) t = elim (Option-cases (find r.entries k)) [
    | inl e ↦ rw (e, evict_order) (evict_order-Tracks ks (Tracks-skip r.entries k ks t e))
    | inr (v, e) ↦ rw (e, evict_order) (Tracks-erase r.entries k ks t)
  ]

  pub evict_order-cfg : (ks : List Key) → (evict_order r ks).0.cfg ≡ r.cfg
  unfolding evict_order
  evict_order-cfg [] = refl
  evict_order-cfg (k ∷ ks) = ground (arith, evict_order-cfg ks)

  pub evict_order-shrinks :
      (ks : List Key) (k : Key) (v : Entry)
      → find r.entries k ≡ some v
      → contains ks k ≡ true
      → pending (evict_order r ks).0 < pending r
  unfolding evict_order contains
  evict_order-shrinks [] k v f c = cc
  evict_order-shrinks (j ∷ ks) k v f c = elim (Option-cases (find r.entries j)) [
    | inl e ↦ rw (e, evict_order) (evict_order-shrinks ks k v f (ground (arith, key_eq_iff j k)))
    | inr (w, e) ↦ rw (e, evict_order) (length-erase-lt r.entries j w e)
  ]

pub some_key :
    (m : List (Key × Entry)) → 0 < length m → (k : Key) × (e : Entry) × (find m k ≡ some e)
unfolding find
some_key [] h = absurd (omega arith)
some_key ((k, e) ∷ m) h = (k, e, ground (arith, key_eq_iff k k))
