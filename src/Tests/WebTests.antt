-- ===== src/Tests/WebTests.antt =====
-- WebSocket, HTTP and JSON of the control tool (tools/ctl/backend) on concrete inputs.
use ipc_data_relay.Common.{
  ◌+◌, ◌≤◌, ◌≡◌, ◌≢◌, refl, inl, [], ◌∷◌, ◌++◌, ℕ, some, true, length, drop, arith,
}
use ipc_data_relay.Text.{Text, codes, to_lower}
use ipc_data_relay.Json.{escape}
use ipc_data_relay.JsonValue.Scan.{ok, string}
use ipc_data_relay.JsonValue.{
  Value, accepted, stuck, object, array, member, item, no_members, no_values, number_of, string_of,
  parse,
}
use ipc_data_relay.JsonValue.Total.{parse_terminates}
use ipc_data_relay.JsonValue.Nesting.{nesting, nesting-parse}
use ipc_data_relay.JsonValue.Strings.{string-escape}
use ipc_data_relay.Http.{HttpRequest, request, find, crlf, parse_http_request, header_has_token}
use ipc_data_relay.Http.Bounds.{parse_http_request_consumed}
use ipc_data_relay.Http.Tokens.{some_piece, pieces, header_has_token-pieces}
use ipc_data_relay.WebSocket.{WsFrame, frame, ws_parse_frame, ws_encode_frame}
use ipc_data_relay.WebSocket.Masks.{Mask}
use ipc_data_relay.WebSocket.Frames.{client_frame, ws_parse_frame-client_frame}
use ipc_data_relay.WebSocket.Server.{receive, receive-ws_encode_frame}
use ipc_data_relay.WebSocket.Sha1.{sha1}
use ipc_data_relay.WebSocket.Handshake.{
  websocket_accept_key, base64_encode, base64_decode, base64_decode-base64_encode,
}

-- The text frame of RFC 6455, section 5.7.
abbrev hello : WsFrame
hello = record { fin = true; opcode = 1; payload = codes "Hello" }

abbrev key_bytes : Mask
key_bytes = record { m0 = 0x37; m1 = 0xFA; m2 = 0x21; m3 = 0x3D }

hello_bytes :
    client_frame hello key_bytes
    ≡ 0x81 ∷ 0x85 ∷ 0x37 ∷ 0xFA ∷ 0x21 ∷ 0x3D ∷ 0x7F ∷ 0x9F ∷ 0x4D ∷ 0x51 ∷ 0x58 ∷ []
unfolding client_frame
hello_bytes = refl

ws_parse_frame-client_frame_example :
    ws_parse_frame (client_frame hello key_bytes ++ 1 ∷ []) 65536
    ≡ frame hello (length (client_frame hello key_bytes))
ws_parse_frame-client_frame_example =
    ws_parse_frame-client_frame hello key_bytes (1 ∷ []) 65536
      (record {
        opcode = refl;
        control = inl (omega arith);
        bytes = (omega arith, (omega arith, (omega arith, (omega arith, (omega arith, tt)))));
      })
      (record { b0 = omega arith; b1 = omega arith; b2 = omega arith; b3 = omega arith })
      (omega arith) (omega arith)

receive-ws_encode_frame_example :
    receive (ws_encode_frame 1 (codes "Hello") ++ 7 ∷ []) ≡ record { frame = hello; rest = 7 ∷ [] }
receive-ws_encode_frame_example =
    receive-ws_encode_frame 1 (codes "Hello") (7 ∷ []) (omega arith) (omega arith)

-- The handshake of RFC 6455, section 1.3.
abbrev sample_nonce : Text
sample_nonce = codes "dGhlIHNhbXBsZSBub25jZQ=="

sample_accept : websocket_accept_key sample_nonce ≡ codes "s3pPLMBiTxaQ9kYGzzhZRbK+xOo="
unfolding websocket_accept_key sha1
sample_accept = refl

base64_decode-base64_encode_example :
    base64_decode (base64_encode (0 ∷ 255 ∷ 16 ∷ 131 ∷ [])) ≡ 0 ∷ 255 ∷ 16 ∷ 131 ∷ []
base64_decode-base64_encode_example =
    base64_decode-base64_encode (0 ∷ 255 ∷ 16 ∷ 131 ∷ [])
      (omega arith, (omega arith, (omega arith, (omega arith, tt))))

-- White space, nesting, a number with an exponent and an escape.
abbrev json_text : Text
json_text = codes " {\"a\": [1, -2.5e3], \"b\":\"x\\n\"} "

abbrev json_tree : Value
json_tree = object (
    member (codes "a")
      (array (item (number_of (codes "1")) (item (number_of (codes "-2.5e3")) no_values)))
      (member (codes "b") (string_of (b'x' ∷ 10 ∷ [])) no_members))

json_value : parse json_text 2 ≡ accepted json_tree
unfolding parse
json_value = refl

nesting-parse_example : nesting json_tree ≤ 2
nesting-parse_example = nesting-parse json_text 2 json_tree json_value

parse_terminates_example : parse json_text 1 ≢ stuck
parse_terminates_example = parse_terminates json_text 1

string-escape_example :
    string (drop 1 (escape (b'"' ∷ 10 ∷ 1 ∷ 200 ∷ []) ++ codes ", 1"))
    ≡ ok (b'"' ∷ 10 ∷ 1 ∷ 200 ∷ []) (codes ", 1")
string-escape_example = string-escape (b'"' ∷ 10 ∷ 1 ∷ 200 ∷ []) (codes ", 1")

header_has_token-pieces_example :
    header_has_token (codes "keep-alive, Upgrade") (codes "upgrade")
    ≡ some_piece (to_lower (codes "upgrade")) (pieces (codes "keep-alive, Upgrade"))
header_has_token-pieces_example =
    header_has_token-pieces (codes "keep-alive, Upgrade") (codes "upgrade")

keep_alive_upgrade : header_has_token (codes "keep-alive, Upgrade") (codes "upgrade") ≡ true
unfolding header_has_token
keep_alive_upgrade = refl

abbrev get_stats : Text
get_stats =
    codes "GET /api/stats?x=1 HTTP/1.1"
    ++ crlf
    ++ codes "Host:  relay "
    ++ crlf
    ++ crlf
    ++ codes "rest"

abbrev stats_request : HttpRequest
stats_request = record {
  method = codes "GET";
  target = codes "/api/stats?x=1";
  path = codes "/api/stats";
  version = codes "HTTP/1.1";
  headers = (codes "host", codes "relay") ∷ [];
}

get_stats_parsed : parse_http_request get_stats 16384 ≡ request stats_request 46
unfolding parse_http_request
get_stats_parsed = refl

parse_http_request_consumed_example :
    ((end : ℕ) × (find (crlf ++ crlf) get_stats ≡ some end) × (46 ≡ end + 4))
    × (46 ≤ length get_stats)
    × (46 ≤ 16384)
parse_http_request_consumed_example =
    parse_http_request_consumed get_stats 16384 stats_request 46 get_stats_parsed
