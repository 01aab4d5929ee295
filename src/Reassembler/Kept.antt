-- ===== src/Reassembler/Kept.antt =====
-- What `Reassembler::expire` (tools/receiver/lib/reassembler.cpp) drops.
use ipc_data_relay.Common.{
  ℕ, ◌+◌, ◌-◌, ◌%◌, ◌^◌, ◌≤◌, ◌≡◌, ◌∙◌, ◌⊎◌, inl, inr, refl, sym, ap, subst, List, [], ◌∷◌, some,
  arith, ltb, length, ◌*◌, Bool-cases, Option-cases, some-inj,
}
use ipc_data_relay.Common.Assoc.{find, erase, find-erase}
use ipc_data_relay.Reassembler.{
  Reassembler, Key, Entry, Key-eq, key_eq_iff, expire_order, compact, expire,
}

-- The age of an entry, a difference of uint64_t.
abbrev age : ℕ → Entry → ℕ
age now_ns e = (now_ns + 2 ^ 64 - e.first_seen_ns) % 2 ^ 64

expire_order-kept :
    (now_ns : ℕ) (ks : List Key) (r : Reassembler) (k : Key) (e : Entry)
    → find r.entries k ≡ some e
    → (find (expire_order now_ns r ks).state.entries k ≡ some e) ⊎ (r.cfg.timeout_ns ≤ age now_ns e)
unfolding expire_order
expire_order-kept now_ns [] r k e h = inl h
expire_order-kept now_ns (j ∷ ks) r k e h = elim (Option-cases (find r.entries j)) [
  | inl gone ↦ rw (gone, expire_order) (expire_order-kept now_ns ks r k e h)
  | inr (f, found) ↦ elim (Bool-cases (ltb (age now_ns f) r.cfg.timeout_ns)) [
    | inl young ↦ rw (found, expire_order, young) (inl h)
    | inr old ↦ elim (Bool-cases (Key-eq.beq j k)) [
      | inl hit ↦
          let same : f ≡ e =
            some-inj (sym found ∙ ap (find r.entries) ((key_eq_iff j k).0 hit) ∙ h) in
          let late : r.cfg.timeout_ns ≤ age now_ns f = ground (arith, old) in
          inr (subst (λ x. r.cfg.timeout_ns ≤ age now_ns x) same late)
      | inr miss ↦
          rw (found, expire_order, old)
            (expire_order-kept now_ns ks (record r { entries = erase r.entries j }) k e
              (find-erase r.entries j k ∙ rw miss h))
    ]
  ]
]

compact-entries : (r : Reassembler) → (compact r).entries ≡ r.entries
unfolding compact
compact-entries r = elim (Bool-cases (ltb (length r.entries * 4 + 64) (length r.order))) [
  | inl long ↦ rw long refl
  | inr short ↦ rw short refl
]

-- A message in flight is still there after `expire`, as it was, unless its first fragment came at
-- least `timeout_ns` ago.
pub expire_kept :
    (now_ns : ℕ) (r : Reassembler) (k : Key) (e : Entry)
    → find r.entries k ≡ some e
    → (find (expire now_ns r).state.entries k ≡ some e)
      ⊎ (r.cfg.timeout_ns ≤ (now_ns + 2 ^ 64 - e.first_seen_ns) % 2 ^ 64)
unfolding expire
expire_kept now_ns r k e h = elim (expire_order-kept now_ns r.order r k e h) [
  | inl kept ↦
      inl (ap (λ m. find m k) (compact-entries (expire_order now_ns r r.order).state) ∙ kept)
  | inr old ↦ inr old
]
