-- ===== src/ControlServer/Poll/Rounds.antt =====
-- What holds after each call of poll_once of tools/ctl/backend/control_server.cpp.
use ipc_data_relay.Common.{
  ℕ, ◌+◌, ◌*◌, ◌%◌, ◌^◌, drop, ◌==◌, ◌<◌, ◌≡◌, refl, ap, ◌∙◌, ◌⊎◌, Bool, true, false, not, ◌&&◌,
  List, [], ◌∷◌, Option, none, some, leb, if◌then◌else◌, Bool-cases, Option-cases, inl, inr, arith,
}
use ipc_data_relay.ControlServer.{Client, ControlServer, World, Turn, k_ns_per_ms}
use ipc_data_relay.ControlServer.Browser.{is_empty}
use ipc_data_relay.ControlServer.Clients.{
  State, Send, took, again, full, failed, write_client, close_fd, close_client, broadcast_stats,
}
use ipc_data_relay.ControlServer.Messages.{stats_envelope}
use ipc_data_relay.ControlServer.Limits.{some_due, broadcast_stats_updates}
use ipc_data_relay.ControlServer.Poll.{
  Round, interval_ns, next_after, tick, close_if_dead, flush_client, kept, kept_with, sweep,
  before_sweep, poll_round,
}

-- A client that the server still serves: it has a socket and is not dead.
pub record IsLive (c : Client) : Type 0 where
  pub socket : (fd : ℕ) × (c.fd ≡ some fd)
  pub alive : c.dead ≡ false

pub AllLive : List Client → Type 0
AllLive [] = Unit
AllLive (c ∷ cs) = IsLive c × AllLive cs

kept_with-AllLive :
    (o : Option ℕ) (c : Client) (rest : State)
    → (o ≡ none) ⊎ IsLive c
    → AllLive rest.clients
    → AllLive (kept_with o c rest).clients
unfolding AllLive
kept_with-AllLive none c rest l h = h
kept_with-AllLive (some fd) c rest (inl e) h = absurd (cc)
kept_with-AllLive (some fd) c rest (inr l) h = (l, h)

flushed_with :
    (d : Bool) (s : ControlServer) (c : Client) (u : Turn)
    → c.dead ≡ d
    → u ≡ (if d then close_client s c else record { server = s; client = c })
    → (u.client.fd ≡ none) ⊎ IsLive u.client
unfolding close_client
flushed_with true s c u e h = inl (ap (λ t. t.client.fd) h)
flushed_with false s c u e h = elim (Option-cases c.fd) [
  | inl n ↦ inl (ap (λ t. t.client.fd) h ∙ n)
  | inr some_fd ↦ inr (record {
    socket = (some_fd.0, ap (λ t. t.client.fd) h ∙ some_fd.1);
    alive = ap (λ t. t.client.dead) h ∙ e;
  })
]

flushed :
    (s : ControlServer) (c : Client)
    → ((close_if_dead s c).client.fd ≡ none) ⊎ IsLive (close_if_dead s c).client
flushed s c = flushed_with c.dead s c (close_if_dead s c) refl refl

-- The client of the last loop, once the loop has written to it.
abbrev wrote : Client → List Send → Client
wrote c sends = if not c.dead && not (is_empty c.out) then write_client c sends else c

sweep-AllLive :
    (s : ControlServer) (cs : List Client) (sends : List (List Send))
    → AllLive (sweep s cs sends).clients
unfolding sweep flush_client AllLive
sweep-AllLive s [] sends = tt
sweep-AllLive s (c ∷ cs) [] =
    let u = flush_client s c [] in
    kept_with-AllLive u.client.fd u.client (sweep u.server cs []) (flushed s (wrote c []))
      (sweep-AllLive u.server cs [])
sweep-AllLive s (c ∷ cs) (a ∷ sends) =
    let u = flush_client s c a in
    kept_with-AllLive u.client.fd u.client (sweep u.server cs sends) (flushed s (wrote c a))
      (sweep-AllLive u.server cs sends)

-- How often a descriptor stands in a list.
pub count : ℕ → List ℕ → ℕ
count x [] = 0
count x (y ∷ ys) = (if x == y then 1 else 0) + count x ys

abbrev pub descriptors : List Client → List ℕ
descriptors [] = []
descriptors (c ∷ cs) = close_fd c.fd (descriptors cs)

-- How often a descriptor is in the hands of a client, or has been given to close.
abbrev pub held : ℕ → State → ℕ
held x t = count x (descriptors t.clients) + count x t.server.closed

count-close_fd :
    (x : ℕ) (o : Option ℕ) (ys : List ℕ)
    → count x (close_fd o ys) ≡ count x (close_fd o []) + count x ys
unfolding count
count-close_fd x none ys = omega arith
count-close_fd x (some fd) ys = omega arith

write_client-fd : (c : Client) (sends : List Send) → (write_client c sends).fd ≡ c.fd
unfolding write_client
write_client-fd c [] = ground arith
write_client-fd c (took n ∷ rest) =
    let ih = write_client-fd (record c { out = drop n c.out }) rest in ground arith
write_client-fd c (again ∷ rest) = let ih = write_client-fd c rest in ground arith
write_client-fd c (full ∷ rest) = ground arith
write_client-fd c (failed ∷ rest) = ground arith

wrote-fd : (c : Client) (sends : List Send) → (wrote c sends).fd ≡ c.fd
wrote-fd c sends = elim (Bool-cases (not c.dead && not (is_empty c.out))) [
  | inl e ↦ rw e (write_client-fd c sends)
  | inr e ↦ rw e refl
]

-- A descriptor that close_if_dead takes from its client is given to close.
close_if_dead_held :
    (x : ℕ) (s : ControlServer) (c : Client)
    → count x (close_fd (close_if_dead s c).client.fd [])
        + count x (close_if_dead s c).server.closed
      ≡ count x (close_fd c.fd []) + count x s.closed
unfolding close_client count
close_if_dead_held x s c = go c.dead
  where
    go :
        (d : Bool)
        → let u : Turn = if d then close_client s c else record { server = s; client = c } in
          count x (close_fd u.client.fd []) + count x u.server.closed
          ≡ count x (close_fd c.fd []) + count x s.closed
    go true = omega (arith, count-close_fd x c.fd s.closed)
    go false = refl

held-kept_with :
    (x : ℕ) (o : Option ℕ) (c : Client) (rest : State)
    → c.fd ≡ o
    → held x (kept_with o c rest) ≡ count x (close_fd o []) + held x rest
unfolding count
held-kept_with x none c rest e = omega arith
held-kept_with x (some fd) c rest e = rw e (omega arith)

-- One round of the last loop.
held-kept :
    (x : ℕ) (s : ControlServer) (c : Client) (a : List Send) (cs : List Client) (rest : State)
    → held x rest ≡ count x (descriptors cs) + count x (flush_client s c a).server.closed
    → held x (kept (flush_client s c a).client rest)
      ≡ count x (close_fd c.fd (descriptors cs)) + count x s.closed
unfolding flush_client
held-kept x s c a cs rest e =
    let u = flush_client s c a in
    let k = held-kept_with x u.client.fd u.client rest refl in
    let m = close_if_dead_held x s (wrote c a) in
    let w = ap (λ o. count x (close_fd o [])) (wrote-fd c a) in
    let l = count-close_fd x c.fd (descriptors cs) in omega (arith, k, e, m, w, l)

held-sweep :
    (x : ℕ) (s : ControlServer) (cs : List Client) (sends : List (List Send))
    → held x (sweep s cs sends) ≡ count x (descriptors cs) + count x s.closed
unfolding sweep
held-sweep x s [] sends = refl
held-sweep x s (c ∷ cs) [] =
    let u = flush_client s c [] in
    held-kept x s c [] cs (sweep u.server cs []) (held-sweep x u.server cs [])
held-sweep x s (c ∷ cs) (a ∷ sends) =
    let u = flush_client s c a in
    held-kept x s c a cs (sweep u.server cs sends) (held-sweep x u.server cs sends)

-- After a round of poll_once, whatever the sockets have answered, every client that is left has a socket
-- and is not dead; and the last loop loses no descriptor and closes none twice: each one is as often in
-- the hands of a client or given to close as it was before the loop, so that the descriptor of a client
-- that has been removed has been closed.
pub poll_round-AllLive :
    (t : State) (r : Round)
    → AllLive (poll_round t r).clients
      × ((x : ℕ) → held x (poll_round t r) ≡ held x (before_sweep t r))
unfolding poll_round
poll_round-AllLive t r =
    let u = before_sweep t r in
    (
      sweep-AllLive u.server u.clients r.last_sends,
      λ x. held-sweep x u.server u.clients r.last_sends,
    )

stats_envelope_cfg : (w : World) (s : ControlServer) → (stats_envelope w s).server.cfg ≡ s.cfg
unfolding stats_envelope
stats_envelope_cfg w s = refl

-- The configuration is not touched by an update.
broadcast_stats_cfg : (w : World) (t : State) → (broadcast_stats w t).server.cfg ≡ t.server.cfg
broadcast_stats_cfg w t = ap (λ u. u.server.cfg) (broadcast_stats_updates w t) ∙ same
  where
    same :
        (if some_due t.clients then (stats_envelope w t.server).server else t.server).cfg
        ≡ t.server.cfg
    same = elim (Bool-cases (some_due t.clients)) [
      | inl e ↦ rw e (stats_envelope_cfg w t.server)
      | inr e ↦ rw e refl
    ]

next_after_ahead :
    (s : ControlServer) (now i : ℕ)
    → interval_ns s ≡ i
    → 0 < i
    → now + i < 2 ^ 64
    → now < next_after s now
next_after_ahead s now i e pos lt =
    elim (Bool-cases (leb ((s.next_update_ns + interval_ns s) % 2 ^ 64) now)) [
      | inl h ↦ rw (h, e) (omega arith)
      | inr h ↦ rw h (ground arith)
    ]

-- The timer of poll_once does not fall behind: with an interval of more than 0 ms, and a clock that stays
-- below 2 ^ 64 ns for one more interval, the next update lies after the time of the call, whether an
-- update was due or several had been missed.
pub tick_ahead :
    (w : World) (t : State) (now : ℕ)
    → 0 < t.server.cfg.update_interval_ms
    → now + t.server.cfg.update_interval_ms * k_ns_per_ms < 2 ^ 64
    → now < (tick w t now).server.next_update_ns
unfolding tick
tick_ahead w t now h k = elim (Bool-cases (leb t.server.next_update_ns now)) [
  | inr e ↦ rw e (ground arith)
  | inl e ↦
      let u = broadcast_stats w t in
      let c = broadcast_stats_cfg w t in
      let p : interval_ns u.server ≡ t.server.cfg.update_interval_ms * k_ns_per_ms =
        rw c (omega arith) in
      rw e (next_after_ahead u.server now _ p (omega arith) k)
]
