-- ===== src/Tests/WireTests.antt =====
-- The wire protocol (src/common/wire_protocol.cpp) on concrete datagrams.
use ipc_data_relay.Common.{◌≡◌, ◌↔◌, refl, arith}
use ipc_data_relay.Wire.{default_header, no_error, parse_datagram, IsHeader, IsFragment}
use ipc_data_relay.Wire.Accept.{Accepts, parse_datagram_iff}
use ipc_data_relay.Wire.RoundTrip.{parse_datagram-encode_header}
use ipc_data_relay.Tests.Data.{first_header, first_payload, first_datagram}

pub first_header-IsHeader : IsHeader first_header
first_header-IsHeader = record {
  version = omega arith;
  flags = omega arith;
  source_id = omega arith;
  message_length = omega arith;
  sequence = omega arith;
  timestamp_ns = omega arith;
  fragment_offset = omega arith;
  fragment_index = omega arith;
  fragment_count = omega arith;
  fragment_length = omega arith;
}

pub first_header-IsFragment : IsFragment first_header 2
first_header-IsFragment = record {
  index = omega arith;
  size = refl;
  range = omega arith;
  flag = refl;
  single = λ one. absurd (omega (arith, one));
  last = λ many end. absurd (omega (arith, end));
  middle = λ many more. omega arith;
}

parse_datagram-encode_header_example :
    parse_datagram first_datagram default_header
    ≡ record { err = no_error; hdr = first_header; payload = first_payload }
parse_datagram-encode_header_example =
    parse_datagram-encode_header first_header default_header first_payload first_header-IsHeader
      refl first_header-IsFragment

parse_datagram_iff_example :
    ((parse_datagram first_datagram default_header).err ≡ no_error) ↔ Accepts first_datagram
parse_datagram_iff_example = parse_datagram_iff first_datagram default_header

first_datagram-Accepts : Accepts first_datagram
first_datagram-Accepts = (parse_datagram_iff first_datagram default_header).0 (
    cc (
      parse_datagram-encode_header first_header default_header first_payload first_header-IsHeader
        refl first_header-IsFragment))
