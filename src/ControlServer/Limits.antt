-- ===== src/ControlServer/Limits.antt =====
-- What broadcast_stats and accept_clients of tools/ctl/backend/control_server.cpp do to every client.
use ipc_data_relay.Common.{
  ℕ, zero, suc, ◌<◌, ◌≡◌, refl, sym, ap, ◌∙◌, Bool, true, false, not, ◌&&◌, ◌||◌, List, [], ◌∷◌,
  ◌++◌, map, none, some, leb, if◌then◌else◌, length, length-append, Bool-cases, inl, inr, arith,
  append_assoc, append-nil, leb→le, take, drop, ◌-◌,
}
use ipc_data_relay.Byteorder.{Bytes}
use ipc_data_relay.Text.{codes}
use ipc_data_relay.Http.{http_response}
use ipc_data_relay.ControlServer.Serve.{plain_text}
use ipc_data_relay.WebSocket.{ws_encode_frame, k_text}
use ipc_data_relay.ControlServer.{Client, ControlServer, World, new_client}
use ipc_data_relay.ControlServer.Messages.{stats_envelope}
use ipc_data_relay.ControlServer.Browser.{put_out}
use ipc_data_relay.ControlServer.Clients.{
  State, gets_update, in_front, broadcast_loop, broadcast_stats, Accepted, accepted_client,
  accept_clients,
}

-- The frame of the update that the server would send now.
abbrev pub update_frame : World → ControlServer → Bytes
update_frame w s = ws_encode_frame k_text (stats_envelope w s).text

-- A browser that is connected, neither dead nor about to be closed, and not more than 1 MiB behind.
abbrev pub is_due : Client → Bool
is_due c = c.websocket && (not c.dead && (not c.close_after_write && leb (length c.out) 1048576))

gets_update-is_due : (c : Client) → gets_update c ≡ is_due c
gets_update-is_due c = ground arith

-- An update, as it concerns each client on its own.
abbrev pub update_client : Bytes → Client → Client
update_client frame c = if is_due c then record c { out = c.out ++ frame } else c

abbrev pub some_due : List Client → Bool
some_due [] = false
some_due (c ∷ rest) = is_due c || some_due rest

broadcast_loop_made :
    (w : World) (s : ControlServer) (frame : Bytes) (cs : List Client)
    → broadcast_loop w s (some frame) cs
      ≡ record { server = s; clients = map (update_client frame) cs }
unfolding broadcast_loop
broadcast_loop_made w s frame [] = refl
broadcast_loop_made w s frame (c ∷ rest) = elim (Bool-cases (is_due c)) [
  | inl e ↦
      rw (gets_update-is_due c, e)
        (ap (in_front (put_out c frame)) (broadcast_loop_made w s frame rest))
  | inr e ↦ rw (gets_update-is_due c, e) (ap (in_front c) (broadcast_loop_made w s frame rest))
]

pub broadcast_stats_updates :
    (w : World) (t : State)
    → broadcast_stats w t ≡ record {
      server = if some_due t.clients then (stats_envelope w t.server).server else t.server;
      clients = map (update_client (update_frame w t.server)) t.clients;
    }
unfolding broadcast_stats broadcast_loop
broadcast_stats_updates w t = go t.server t.clients
  where
    go :
        (s : ControlServer) (cs : List Client)
        → broadcast_loop w s none cs ≡ record {
          server = if some_due cs then (stats_envelope w s).server else s;
          clients = map (update_client (update_frame w s)) cs;
        }
    go s [] = refl
    go s (c ∷ rest) = elim (Bool-cases (is_due c)) [
      | inl e ↦
          rw (gets_update-is_due c, e)
            (ap (in_front (put_out c (update_frame w s)))
              (broadcast_loop_made w (stats_envelope w s).server (update_frame w s) rest))
      | inr e ↦ rw (gets_update-is_due c, e) (ap (in_front c) (go s rest))
    ]

abbrev pub admit : Accepted → Client
admit a = new_client a.fd a.peer

-- The client that is told that there are too many, and closed once it has been.
abbrev pub turn_away : Accepted → Client
turn_away a = record (new_client a.fd a.peer) {
  out = http_response 503 plain_text (codes "too many clients" ++ 10 ∷ []) false [];
  close_after_write = true;
}

-- Those who wait, when there is room for so many.
abbrev placed : ℕ → List Accepted → List Client
placed room waiting = map admit (take room waiting) ++ map turn_away (drop room waiting)

placed_none : (room : ℕ) → placed room [] ≡ []
placed_none zero = refl
placed_none (suc n) = refl

place_one :
    (s : ControlServer) (n : ℕ) (a : Accepted) (rest : List Accepted) (later : ℕ)
    → later ≡ s.cfg.max_clients - n - 1
    → accepted_client s n a ∷ placed later rest ≡ placed (s.cfg.max_clients - n) (a ∷ rest)
unfolding accepted_client
place_one s n a rest later h = elim (Bool-cases (leb s.cfg.max_clients n)) [
  | inl e ↦
      let none_now : s.cfg.max_clients - n ≡ 0 = omega (arith, leb→le _ _ e) in
      let none_later : later ≡ 0 = omega arith in rw (e, none_now, none_later) refl
  | inr e ↦
      let less : n < s.cfg.max_clients = ground arith in
      let one : s.cfg.max_clients - n ≡ suc later = omega arith in rw (e, one) refl
]

-- accept_clients lets in as many of those that wait as there is room for below max_clients, in their
-- order, and behind them puts the others, which are told that there are too many and are then closed;
-- the clients that were there stay as they are.
pub accept_clients_admits :
    (s : ControlServer) (clients : List Client) (waiting : List Accepted)
    → accept_clients s clients waiting
      ≡ clients
        ++ (map admit (take (s.cfg.max_clients - length clients) waiting)
            ++ map turn_away (drop (s.cfg.max_clients - length clients) waiting))
unfolding accept_clients accepted_client
accept_clients_admits s clients [] =
    sym (append-nil clients)
    ∙ ap (λ t. clients ++ t) (sym (placed_none (s.cfg.max_clients - length clients)))
accept_clients_admits s clients (a ∷ rest) =
    let x = accepted_client s (length clients) a in
    let later = s.cfg.max_clients - length (clients ++ x ∷ []) in
    let l = length-append clients (x ∷ []) in
    accept_clients_admits s (clients ++ x ∷ []) rest
    ∙ append_assoc clients (x ∷ []) (placed later rest)
    ∙ ap (λ t. clients ++ t) (place_one s (length clients) a rest later (omega arith))
