-- ===== src/Wire/RoundTrip.antt =====
-- Parsing what `encode_header` wrote (wire_protocol.cpp).
use ipc_data_relay.Common.{◌+◌, ◌-◌, ◌≡◌, refl, sym, ◌∙◌, subst₂, ◌++◌, arith, length, drop}
use ipc_data_relay.Byteorder.{Bytes, get_u16le, get_u32le}
use ipc_data_relay.Wire.{
  Header, no_error, IsHeader, IsFragment, encode_header, parse_datagram, read_fields, k_version,
}
use ipc_data_relay.Wire.Accept.{Accepts, Accepts-parse_datagram}

pub length-encode_header :
    (h : Header) (payload : Bytes) → length (encode_header h ++ payload) ≡ 44 + length payload
unfolding encode_header
length-encode_header h payload = omega arith

Header_ext :
    (a b : Header)
    → a.version ≡ b.version
    → a.flags ≡ b.flags
    → a.source_id ≡ b.source_id
    → a.message_length ≡ b.message_length
    → a.sequence ≡ b.sequence
    → a.timestamp_ns ≡ b.timestamp_ns
    → a.fragment_offset ≡ b.fragment_offset
    → a.fragment_index ≡ b.fragment_index
    → a.fragment_count ≡ b.fragment_count
    → a.fragment_length ≡ b.fragment_length
    → a ≡ b
Header_ext a b e0 e1 e2 e3 e4 e5 e6 e7 e8 e9 = λ i. record {
  version = e0 i;
  flags = e1 i;
  source_id = e2 i;
  message_length = e3 i;
  sequence = e4 i;
  timestamp_ns = e5 i;
  fragment_offset = e6 i;
  fragment_index = e7 i;
  fragment_count = e8 i;
  fragment_length = e9 i;
}

pub read_fields-encode_header :
    (h : Header) (payload : Bytes) → IsHeader h → read_fields (encode_header h ++ payload) ≡ h
unfolding encode_header read_fields
read_fields-encode_header h payload w =
    Header_ext _ h (omega arith) (omega arith) (omega arith) (omega arith) (omega arith)
      (omega arith) (omega arith) (omega arith) (omega arith) (omega arith)

encode_header-Accepts :
    (h : Header) (payload : Bytes)
    → IsHeader h
    → h.version ≡ k_version
    → IsFragment h (length payload)
    → Accepts (encode_header h ++ payload)
unfolding encode_header get_u16le get_u32le
encode_header-Accepts h payload w v f = record {
  size = omega arith;
  magic = refl;
  version = omega arith;
  fragment =
      subst₂ IsFragment (sym (read_fields-encode_header h payload w))
        (let e : length payload ≡ length (encode_header h ++ payload) - 44 = omega arith in e) f;
}

drop-encode_header : (h : Header) (payload : Bytes) → drop 44 (encode_header h ++ payload) ≡ payload
unfolding encode_header
drop-encode_header h payload = refl

-- A header that fits its payload is parsed back with that payload, whatever the caller's header
-- held before.
pub parse_datagram-encode_header :
    (h h0 : Header) (payload : Bytes)
    → IsHeader h
    → h.version ≡ k_version
    → IsFragment h (length payload)
    → parse_datagram (encode_header h ++ payload) h0
      ≡ record { err = no_error; hdr = h; payload = payload }
parse_datagram-encode_header h h0 payload w v f =
    let (e, r, p) = Accepts-parse_datagram _ h0 (encode_header-Accepts h payload w v f) in
    let r' = r ∙ read_fields-encode_header h payload w in
    let p' = p ∙ drop-encode_header h payload in
    λ i. record { err = e i; hdr = r' i; payload = p' i }
