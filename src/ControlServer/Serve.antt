-- ===== src/ControlServer/Serve.antt =====
-- The HTTP side of tools/ctl/backend/control_server.cpp: handle_http, load_asset, serve_http and
-- upgrade_websocket.
use ipc_data_relay.Common.{
  ℕ, ◌+◌, Bool, true, false, not, ◌&&◌, ◌||◌, List, [], ◌∷◌, ◌++◌, Option, none, some, ◌==◌,
  if◌then◌else◌, length, drop,
}
use ipc_data_relay.Byteorder.{Bytes}
use ipc_data_relay.Text.{Text, codes, same_text, to_lower}
use ipc_data_relay.Http
use ipc_data_relay.Http.{
  HttpRequest, Headers, HttpParse, header, has_header, find, crlf, parse_http_request,
  header_has_token, http_response,
}
use ipc_data_relay.WebSocket.Handshake.{websocket_accept_key}
use ipc_data_relay.ControlServer.{
  ControlServerConfig, Client, ControlServer, WebAsset, World, Turn, k_max_header_bytes,
}
use ipc_data_relay.ControlServer.Messages.{ws_send, Envelope, hello_json, stats_envelope}
use ipc_data_relay.ControlServer.Browser.{
  is_empty, put_out, mentions, erase_front, handle_ws_frames,
}

-- The host of an origin is what stands behind `://`.
abbrev pub same_host : Text → Text → Option ℕ → Bool
same_host origin host none = false
same_host origin host (some p) = same_text (to_lower (drop (p + 3) origin)) (to_lower host)

unfoldable pub origin_allowed : HttpRequest → Bool
unfolding has_header header find to_lower
origin_allowed req =
    if not (has_header req (codes "origin"))
    then true
    else same_host (header req (codes "origin")) (header req (codes "host"))
        (find (codes "://") (header req (codes "origin")))

-- A body with its type.
pub record Asset : Type 0 where
  pub body : Bytes
  pub content_type : Text

abbrev pub asset_body : Option Bytes → Bytes → Bytes
asset_body none embedded = embedded
asset_body (some bytes) embedded = bytes

abbrev pub from_web_root : World → ControlServerConfig → Text → Option Bytes
from_web_root w cfg path =
    if same_text cfg.web_root [] then none else w.read_file (cfg.web_root ++ path)

-- The loop over the assets of the build.
unfoldable pub find_asset : World → ControlServerConfig → Text → List WebAsset → Option Asset
find_asset w cfg path [] = none
find_asset w cfg path (a ∷ rest) =
    let later = find_asset w cfg path rest in
    if same_text path a.path
    then some (record {
      body = asset_body (from_web_root w cfg a.path) a.bytes;
      content_type = a.content_type;
    })
    else later

unfoldable pub load_asset : World → ControlServerConfig → Text → Option Asset
unfolding find_asset
load_asset w cfg path = find_asset w cfg path w.web_assets

abbrev pub plain_text : Text
plain_text = codes "text/plain; charset=utf-8"

abbrev pub close_soon : Client → Bytes → Client
close_soon c response = record c { out = c.out ++ response; close_after_write = true }

abbrev pub asset_response : Option Asset → Bool → Text
asset_response none head = http_response 404 plain_text (codes "not found" ++ 10 ∷ []) head []
asset_response (some a) head = http_response 200 a.content_type a.body head (
    (
      codes "Content-Security-Policy",
      codes "default-src 'self'; connect-src 'self' ws: wss:; frame-ancestors 'none'",
    )
    ∷ [])

abbrev pub served_path : Text → Text
served_path path = if same_text path (codes "/") then codes "/index.html" else path

abbrev pub serve_stats : Envelope → Client → Bool → Turn
serve_stats e c head = record {
  server = e.server;
  client = close_soon c (http_response 200 (codes "application/json") e.text head []);
}

unfoldable pub serve_http : World → ControlServer → Client → HttpRequest → Turn
unfolding load_asset http_response stats_envelope
serve_http w s c req =
    let head = same_text req.method (codes "HEAD") in
    if not (same_text req.method (codes "GET")) && not head
    then record {
      server = s;
      client = close_soon c (
          http_response 405 plain_text (codes "method not allowed" ++ 10 ∷ []) false
            ((codes "Allow", codes "GET, HEAD") ∷ []));
    }
    else if same_text req.path (codes "/api/stats")
    then serve_stats (stats_envelope w s) c head
    else record {
      server = s;
      client = close_soon c (asset_response (load_asset w s.cfg (served_path req.path)) head);
    }

-- The lambda of upgrade_websocket.
unfoldable pub reject : ControlServer → Client → ℕ → Text → Headers → Turn
unfolding http_response
reject s c status why extra = record {
  server = s;
  client = close_soon c (http_response status plain_text (why ++ 10 ∷ []) false extra);
}

abbrev pub upgrade_response : Text → Bytes
upgrade_response key =
    codes "HTTP/1.1 101 Switching Protocols"
    ++ (crlf
        ++ (codes "Upgrade: websocket"
            ++ (crlf
                ++ (codes "Connection: Upgrade"
                    ++ (crlf
                        ++ (codes "Sec-WebSocket-Accept: "
                            ++ (websocket_accept_key key ++ (crlf ++ crlf))))))))

-- A browser that has been let in gets the two first messages; frames may stand behind the handshake.
unfoldable pub greet : World → ControlServer → Client → Text → Turn
unfolding ws_send hello_json stats_envelope handle_ws_frames
greet w s c key =
    let c1 = record (put_out c (upgrade_response key)) { websocket = true } in
    let c2 = ws_send c1 (hello_json w s) in
    let e = stats_envelope w s in
    let t : Turn = record { server = e.server; client = ws_send c2 e.text } in
    if is_empty c.input then t else handle_ws_frames w t

-- The checks of the upgrade, in their order; `none` if they all pass.
pub record Refusal : Type 0 where
  pub status : ℕ
  pub why : Text
  pub extra : Headers

unfoldable pub check_upgrade : HttpRequest → Option Refusal
unfolding header header_has_token origin_allowed
check_upgrade req =
    if not (same_text req.method (codes "GET"))
    then some (record { status = 405; why = codes "WebSocket upgrade requires GET"; extra = [] })
    else if not (header_has_token (header req (codes "upgrade")) (codes "websocket"))
        || not (header_has_token (header req (codes "connection")) (codes "upgrade"))
    then some (record {
      status = 426;
      why = codes "WebSocket upgrade required";
      extra = (codes "Upgrade", codes "websocket") ∷ [];
    })
    else if not (same_text (header req (codes "sec-websocket-version")) (codes "13"))
    then some (record {
      status = 426;
      why = codes "unsupported WebSocket version";
      extra = (codes "Sec-WebSocket-Version", codes "13") ∷ [];
    })
    else if not (length (header req (codes "sec-websocket-key")) == 24)
    then some
        (record { status = 400; why = codes "missing or invalid Sec-WebSocket-Key"; extra = [] })
    else if not (origin_allowed req)
    then some (record {
      status = 403;
      why =
          codes "cross-origin WebSocket not allowed (Origin "
          ++ header req (codes "origin")
          ++ codes ")";
      extra = [];
    })
    else none

abbrev pub after_check : World → ControlServer → Client → HttpRequest → Option Refusal → Turn
after_check w s c req none = greet w s c (header req (codes "sec-websocket-key"))
after_check w s c req (some r) = reject s c r.status r.why r.extra

unfoldable pub upgrade_websocket : World → ControlServer → Client → HttpRequest → Turn
unfolding check_upgrade greet reject
upgrade_websocket w s c req = after_check w s c req (check_upgrade req)

abbrev pub status_for : Text → ℕ
status_for message = if mentions (find (codes "too large") message) then 431 else 400

unfoldable pub on_request : World → ControlServer → Client → HttpParse → Turn
unfolding upgrade_websocket serve_http http_response find
on_request w s c Http.need_more = record { server = s; client = c }
on_request w s c (Http.error message) = record {
  server = s;
  client =
      close_soon c (http_response (status_for message) plain_text (message ++ 10 ∷ []) false []);
}
on_request w s c (Http.request req consumed) =
    if same_text req.path (codes "/ws")
    then upgrade_websocket w s (erase_front c consumed) req
    else serve_http w s (erase_front c consumed) req

unfoldable pub handle_http : World → Turn → Turn
unfolding on_request parse_http_request
handle_http w t =
    on_request w t.server t.client (parse_http_request t.client.input k_max_header_bytes)
