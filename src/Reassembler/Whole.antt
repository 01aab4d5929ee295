-- ===== src/Reassembler/Whole.antt =====
-- `Reassembler::add` (tools/receiver/lib/reassembler.cpp) on all fragments of a message.
use ipc_data_relay.Common.{
  ℕ, ◌+◌, ◌≤◌, ◌<◌, ◌≡◌, ◌≢◌, refl, sym, ap, ◌∙◌, subst, inl, inr, Bool, true, false, List, [], ◌∷◌,
  ◌++◌, Option, none, some, some-inj, arith, length, get_or, get_or-set,
}
use ipc_data_relay.Common.Assoc.{find, assign}
use ipc_data_relay.Byteorder.{Bytes}
use ipc_data_relay.Wire.{Header, fragment_count_for}
use ipc_data_relay.Wire.Fragments.{fragment_count_for_bounds}
use ipc_data_relay.Reassembler.{
  Key, Key-eq, Entry, Reassembler, Added, CompletedMessage, complete, incomplete, fresh_entry,
  header_key, receive, settle, add_to_entry, add_new, add_fragment, add,
}
use ipc_data_relay.Reassembler.Entries.{
  IsFragmentOf, IsPartial, get_or-replicate, fresh_entry-IsPartial,
}
use ipc_data_relay.Reassembler.Room.{IsBounded, make_room_ends}
use ipc_data_relay.Reassembler.Sound.{Sent, IsFaithful, sent_message}
use ipc_data_relay.Reassembler.Stores.{Stores, entry_for}
use ipc_data_relay.Reassembler.Delivers.{Delivers, add-Delivers}

-- A fragment, and the time at which it is given to `add`.
pub record Incoming : Type 0 where
  pub hdr : Header
  pub payload : Bytes
  pub now_ns : ℕ

abbrev pub add_one : Reassembler → Incoming → Option Added
add_one r x = add r x.hdr x.payload x.now_ns

-- Given to `add` one after the other, all but the last one are answered by `incomplete`, and the last
-- one by the message.
abbrev pub Completes : CompletedMessage → Reassembler → List Incoming → Type 0
Completes m r [] = ⊥
Completes m r (x ∷ []) = (a : Added) × (add_one r x ≡ some a) × (a.result ≡ complete) × (a.out ≡ m)
Completes m r (x ∷ y ∷ ys) =
    (a : Added) × (add_one r x ≡ some a) × (a.result ≡ incomplete) × Completes m a.state (y ∷ ys)

-- No fragment has this index; no two fragments have the same one.
abbrev pub Misses : ℕ → List Incoming → Type 0
Misses i [] = Unit {0}
Misses i (x ∷ xs) = (i ≢ x.hdr.fragment_index) × Misses i xs

abbrev pub AllDiffer : List Incoming → Type 0
AllDiffer [] = Unit {0}
AllDiffer (x ∷ xs) = Misses x.hdr.fragment_index xs × AllDiffer xs

abbrev Unmarked : Entry → List Incoming → Type 0
Unmarked e [] = Unit {0}
Unmarked e (x ∷ xs) = (get_or e.received x.hdr.fragment_index 0 ≡ 0) × Unmarked e xs

Unmarked-receive :
    (e : Entry) (hdr : Header) (payload : Bytes) (xs : List Incoming)
    → hdr.fragment_index < length e.received
    → Misses hdr.fragment_index xs
    → Unmarked e xs
    → Unmarked (receive e hdr payload) xs
unfolding receive
Unmarked-receive e hdr payload [] lt m u = tt
Unmarked-receive e hdr payload (x ∷ xs) lt m u = (
  ground (arith, m.0, u.0, get_or-set e.received hdr.fragment_index x.hdr.fragment_index 1 0 lt),
  Unmarked-receive e hdr payload xs lt m.1 u.1,
)

Unmarked-fresh_entry :
    (hdr : Header) (now_ns : ℕ) (xs : List Incoming) → Unmarked (fresh_entry hdr now_ns) xs
Unmarked-fresh_entry hdr now_ns [] = tt
Unmarked-fresh_entry hdr now_ns (x ∷ xs) =
    (get_or-replicate hdr.fragment_count x.hdr.fragment_index, Unmarked-fresh_entry hdr now_ns xs)

-- A fragment that fits its entry and has not been received yet is received.
add_to_entry_new :
    (r : Reassembler) (hdr : Header) (payload : Bytes) (e : Entry) (new : Bool)
    → hdr.fragment_count ≡ e.fragment_count
    → hdr.message_length ≡ e.message_length
    → get_or e.received hdr.fragment_index 0 ≡ 0
    → add_to_entry r hdr payload e new ≡ settle r hdr (receive e hdr payload) new
unfolding add_to_entry
add_to_entry_new r hdr payload e new c l z = ground arith

settle_more :
    (r : Reassembler) (hdr : Header) (e : Entry) (new : Bool)
    → e.fragments_received < e.fragment_count
    → ((settle r hdr e new).result ≡ incomplete) × ((settle r hdr e new).state.cfg ≡ r.cfg)
unfolding settle
settle_more r hdr e new lt = (ground arith, ground arith)

settle_last :
    (r : Reassembler) (hdr : Header) (e : Entry) (new : Bool)
    → e.fragments_received ≡ e.fragment_count
    → (settle r hdr e new).result ≡ complete
unfolding settle
settle_last r hdr e new same = ground arith

add_several :
    (r : Reassembler) (x : Incoming)
    → 1 < x.hdr.fragment_count
    → x.hdr.message_length ≤ r.cfg.max_message_length
    → add_one r x ≡ add_fragment r x.hdr x.payload x.now_ns (find r.entries (header_key x.hdr))
unfolding add
add_several r x many fits = ground arith

add_single :
    (r : Reassembler) (x : Incoming) (a : Added)
    → x.hdr.fragment_count ≡ 1
    → add_one r x ≡ some a
    → a.result ≡ complete
unfolding add
add_single r x a one run = let e = some-inj (rw one at run) in ap (λ (y : Added). y.result) (sym e)

module _ (chunk : ℕ) (sent : Sent) (k : Key) where
  abbrev body_size : ℕ
  body_size = length (sent k).body

  abbrev pieces : ℕ
  pieces = fragment_count_for body_size chunk

  -- Fragments of the message that was sent under the key.
  abbrev pub AreFragments : List Incoming → Type 0
  AreFragments [] = Unit {0}
  AreFragments (x ∷ xs) =
      (header_key x.hdr ≡ k) × IsFragmentOf chunk (sent k) x.hdr x.payload × AreFragments xs

  module _ (pos : 0 < chunk) where
    -- The reassembler holds the message, and what is missing of it is still to come.
    record Awaits (r : Reassembler) (xs : List Incoming) : Type 0 where
      pub entry : Entry
      pub found : find r.entries k ≡ some entry
      pub tally : entry.fragments_received + length xs ≡ pieces
      pub unmarked : Unmarked entry xs
      pub limit : body_size ≤ r.cfg.max_message_length
      pub faithful : IsFaithful chunk sent r
      pub bounded : IsBounded r

    abbrev Rest : List Incoming → Type 0
    Rest [] = Unit {0}
    Rest (y ∷ ys) =
        (r : Reassembler) → Awaits r (y ∷ ys) → Completes (sent_message sent k) r (y ∷ ys)

    is_message :
        (a : Added) (j : Key)
        → j ≡ k
        → a.result ≡ complete
        → Delivers (sent_message sent j) a
        → a.out ≡ sent_message sent k
    is_message a j key c (inl (_, out)) = out ∙ ap (sent_message sent) key
    is_message a j key c (inr (inl i)) = absurd (cc)
    is_message a j key c (inr (inr d)) = absurd (cc)

    -- One fragment, which `add` puts into the entry `e` of the reassembler `r0`.
    Completes-next :
        (r r0 : Reassembler) (x : Incoming) (xs : List Incoming) (e : Entry) (new : Bool)
        → header_key x.hdr ≡ k
        → IsFragmentOf chunk (sent k) x.hdr x.payload
        → Misses x.hdr.fragment_index xs
        → Rest xs
        → add_one r x ≡ some (add_to_entry r0 x.hdr x.payload e new)
        → r0.cfg ≡ r.cfg
        → entry_for (find r.entries (header_key x.hdr)) x.hdr x.now_ns ≡ e
        → IsPartial chunk (sent k) e
        → e.fragments_received + length (x ∷ xs) ≡ pieces
        → Unmarked e (x ∷ xs)
        → body_size ≤ r.cfg.max_message_length
        → IsFaithful chunk sent r
        → IsBounded r
        → Completes (sent_message sent k) r (x ∷ xs)
    unfolding receive
    Completes-next r r0 x xs e new key f miss rest run0 cfg0 is_e p tally u limit faithful bounded =
        let e' = receive e x.hdr x.payload in
        let genuine : IsFragmentOf chunk (sent (header_key x.hdr)) x.hdr x.payload =
          subst (λ j. IsFragmentOf chunk (sent j) x.hdr x.payload) (sym key) f in
        let (a, run, faithful', bounded', delivers, stores) =
          add-Delivers chunk sent x.hdr x.payload r x.now_ns pos genuine
            (omega (arith, f.total, limit)) faithful bounded in
        let same : a ≡ settle r0 x.hdr e' new =
          some-inj (sym run ∙ run0)
          ∙ add_to_entry_new r0 x.hdr x.payload e new (f.count ∙ sym p.count)
              (f.total ∙ sym p.total) u.0 in
        go xs a run faithful' bounded' delivers stores same miss rest tally u
      where
        go :
            (xs : List Incoming) (a : Added)
            → add_one r x ≡ some a
            → IsFaithful chunk sent a.state
            → IsBounded a.state
            → Delivers (sent_message sent (header_key x.hdr)) a
            → Stores r x.hdr x.payload x.now_ns a
            → a ≡ settle r0 x.hdr (receive e x.hdr x.payload) new
            → Misses x.hdr.fragment_index xs
            → Rest xs
            → e.fragments_received + length (x ∷ xs) ≡ pieces
            → Unmarked e (x ∷ xs)
            → Completes (sent_message sent k) r (x ∷ xs)
        go [] a run faithful' bounded' delivers stores same miss rest tally u =
            let c : a.result ≡ complete =
              ap (λ (y : Added). y.result) same
              ∙ settle_last r0 x.hdr (receive e x.hdr x.payload) new
                  (omega (arith, tally, p.count, p.small)) in
            (a, run, c, is_message a (header_key x.hdr) key c delivers)
        go (y ∷ ys) a run faithful' bounded' delivers stores same miss rest tally u =
            let e' = receive e x.hdr x.payload in
            let more = settle_more r0 x.hdr e' new (omega (arith, tally, p.count, p.small)) in
            let i : a.result ≡ incomplete = ap (λ (y : Added). y.result) same ∙ more.0 in
            let stored : find a.state.entries (header_key x.hdr) ≡ some e' =
              stores.0 i ∙ ap (λ v. some (receive v x.hdr x.payload)) is_e in
            let limits = ap (λ (y : Added). y.state.cfg) same ∙ more.1 ∙ cfg0 in
            (
              a,
              run,
              i,
              rest a.state (record {
                entry = e';
                found = subst (λ j. find a.state.entries j ≡ some e') key stored;
                tally = omega (arith, tally, p.count, p.small);
                unmarked =
                    Unmarked-receive e x.hdr x.payload (y ∷ ys)
                      (omega (arith, f.index, f.count, p.slots, p.count)) miss u.1;
                limit = rw limits limit;
                faithful = faithful';
                bounded = bounded';
              }),
            )

    Completes-Rest : (xs : List Incoming) → 1 < pieces → AreFragments xs → AllDiffer xs → Rest xs
    unfolding add_fragment
    Completes-Rest [] many fs differ = tt
    Completes-Rest (x ∷ xs) many (key, f, fs) (miss, differ) = λ r w.
        let found : find r.entries (header_key x.hdr) ≡ some w.entry =
          subst (λ j. find r.entries j ≡ some w.entry) (sym key) w.found in
        let run : add_one r x ≡ some (add_to_entry r x.hdr x.payload w.entry false) =
          add_several r x (omega (arith, f.count)) (omega (arith, f.total, w.limit))
          ∙ ap (add_fragment r x.hdr x.payload x.now_ns) found in
        Completes-next r r x xs w.entry false key f miss (Completes-Rest xs many fs differ) run refl
          (ap (λ o. entry_for o x.hdr x.now_ns) found) (w.faithful.partial k w.entry w.found)
          w.tally w.unmarked w.limit w.faithful w.bounded

    Completes-first :
        (x : Incoming) (xs : List Incoming) (r : Reassembler)
        → 1 < pieces
        → AreFragments (x ∷ xs)
        → AllDiffer (x ∷ xs)
        → length (x ∷ xs) ≡ pieces
        → find r.entries k ≡ none
        → body_size ≤ r.cfg.max_message_length
        → IsFaithful chunk sent r
        → IsBounded r
        → Completes (sent_message sent k) r (x ∷ xs)
    unfolding add_fragment add_new
    Completes-first x xs r many (key, f, fs) (miss, differ) size new limit faithful bounded =
        let (q, made, cfg) = make_room_ends r bounded in
        let e = fresh_entry x.hdr x.now_ns in
        let j = header_key x.hdr in
        let r0 : Reassembler = record q {
          entries = assign q.entries j e;
          order = q.order ++ j ∷ [];
        } in
        let absent : find r.entries j ≡ none = subst (λ i. find r.entries i ≡ none) (sym key) new in
        let run : add_one r x ≡ some (add_to_entry r0 x.hdr x.payload e true) =
          add_several r x (omega (arith, f.count)) (omega (arith, f.total, limit))
          ∙ ap (add_fragment r x.hdr x.payload x.now_ns) absent
          ∙ ap (λ o. add_new o x.hdr x.payload x.now_ns) made in
        Completes-next r r0 x xs e true key f miss (Completes-Rest xs many fs differ) run cfg
          (ap (λ o. entry_for o x.hdr x.now_ns) absent)
          (fresh_entry-IsPartial chunk (sent k) x.hdr x.payload x.now_ns f) (omega (arith, size))
          (Unmarked-fresh_entry x.hdr x.now_ns (x ∷ xs)) limit faithful bounded

    -- The one fragment of a message that was not cut.
    Completes-single :
        (x : Incoming) (r : Reassembler)
        → pieces ≡ 1
        → AreFragments (x ∷ [])
        → body_size ≤ r.cfg.max_message_length
        → IsFaithful chunk sent r
        → IsBounded r
        → Completes (sent_message sent k) r (x ∷ [])
    Completes-single x r one (key, f, fs) limit faithful bounded =
        let genuine : IsFragmentOf chunk (sent (header_key x.hdr)) x.hdr x.payload =
          subst (λ j. IsFragmentOf chunk (sent j) x.hdr x.payload) (sym key) f in
        let (a, run, faithful', bounded', delivers, stores) =
          add-Delivers chunk sent x.hdr x.payload r x.now_ns pos genuine
            (omega (arith, f.total, limit)) faithful bounded in
        let c = add_single r x a (f.count ∙ one) run in
        (a, run, c, is_message a (header_key x.hdr) key c delivers)

    -- All fragments of a message, cut into pieces of more than 0 bytes, each one once and in any order,
    -- given to a bounded reassembler that holds genuine fragments only, allows the message's length and
    -- has no entry for its key: each call of `add` returns, all but the last are answered by `incomplete`,
    -- and the last one by the message that was sent, byte for byte. No other fragment comes between
    -- them, and nothing expires.
    pub add-Completes :
        (xs : List Incoming) (r : Reassembler)
        → AreFragments xs
        → AllDiffer xs
        → length xs ≡ pieces
        → find r.entries k ≡ none
        → body_size ≤ r.cfg.max_message_length
        → IsFaithful chunk sent r
        → IsBounded r
        → Completes (sent_message sent k) r xs
    add-Completes [] r fs differ size new limit faithful bounded =
        let b = (fragment_count_for_bounds body_size chunk pos).0 in absurd (omega (arith, b, size))
    add-Completes (x ∷ []) r fs differ size new limit faithful bounded =
        Completes-single x r (omega (arith, size)) fs limit faithful bounded
    add-Completes (x ∷ y ∷ ys) r fs differ size new limit faithful bounded =
        Completes-first x (y ∷ ys) r (omega (arith, size)) fs differ size new limit faithful bounded
