-- ===== src/WebSocket/Handshake.antt =====
-- base64_encode and websocket_accept_key of tools/ctl/backend/websocket.cpp.
use ipc_data_relay.Common.{
  ℕ, ◌+◌, ◌-◌, ◌*◌, ◌/◌, ◌%◌, ◌^◌, ◌≡◌, refl, ap₂, true, false, not, ◌&&◌, [], ◌∷◌, ◌++◌, leb, ◌==◌,
  if◌then◌else◌, length, get_or, ==_iff, not-false, arith,
}
use ipc_data_relay.Common.Bits.{passes, passes_at}
use ipc_data_relay.Byteorder.{Bytes, IsBytes}
use ipc_data_relay.Text.{Text, codes}
use ipc_data_relay.WebSocket.Sha1.{sha1}

abbrev pub k_table : Text
k_table = codes "ABCDEFGHIJKLMNOPQRSTUVWXYZabcdefghijklmnopqrstuvwxyz0123456789+/"

-- kTable[i & 63]
abbrev pub letter : ℕ → ℕ
letter i = get_or k_table (i % 64) 0

-- A round of the loop takes three bytes; the last round takes what is left.
unfoldable pub base64_encode : Bytes → Text
base64_encode [] = []
base64_encode (a ∷ []) =
    let v = a * 2 ^ 16 in letter (v / 2 ^ 18) ∷ letter (v / 2 ^ 12) ∷ b'=' ∷ b'=' ∷ []
base64_encode (a ∷ b ∷ []) =
    let v = a * 2 ^ 16 + b * 2 ^ 8 in
    letter (v / 2 ^ 18) ∷ letter (v / 2 ^ 12) ∷ letter (v / 2 ^ 6) ∷ b'=' ∷ []
base64_encode (a ∷ b ∷ c ∷ rest) =
    let v = a * 2 ^ 16 + b * 2 ^ 8 + c in
    letter (v / 2 ^ 18) ∷ letter (v / 2 ^ 12) ∷ letter (v / 2 ^ 6) ∷ letter v ∷ base64_encode rest

unfoldable pub websocket_accept_key : Text → Text
unfolding base64_encode
websocket_accept_key client_key =
    base64_encode (sha1 (client_key ++ codes "258EAFA5-E914-47DA-95CA-C5AB0DC85B11"))

-- RFC 4648, table 1, from a letter back to its value.
abbrev pub value_of : ℕ → ℕ
value_of c =
    if leb b'A' c && leb c b'Z'
    then c - b'A'
    else if leb b'a' c && leb c b'z'
    then c - b'a' + 26
    else if leb b'0' c && leb c b'9'
    then c - b'0' + 52
    else if c == b'+'
    then 62
    else 63

-- The quantum of RFC 4648, section 4: four letters are three bytes; `=` at the end stands for a byte
-- that is not there.
abbrev pub quantum : ℕ → ℕ → ℕ → ℕ → Bytes
quantum p q r s =
    let v = value_of p * 2 ^ 18 + value_of q * 2 ^ 12 in
    if r == b'='
    then v / 2 ^ 16 ∷ []
    else if s == b'='
    then v / 2 ^ 16 ∷ (v + value_of r * 2 ^ 6) / 2 ^ 8 % 2 ^ 8 ∷ []
    else v / 2 ^ 16
      ∷ (v + value_of r * 2 ^ 6) / 2 ^ 8 % 2 ^ 8
      ∷ (v + value_of r * 2 ^ 6 + value_of s) % 2 ^ 8
      ∷ []

unfoldable pub base64_decode : Text → Bytes
base64_decode (p ∷ q ∷ r ∷ s ∷ rest) = quantum p q r s ++ base64_decode rest
base64_decode _ = []

value_of-table : passes (λ i. value_of (get_or k_table i 0) == i) 64 ≡ true
unfolding passes
value_of-table = refl

pad_free-table : passes (λ i. not (get_or k_table i 0 == b'=')) 64 ≡ true
unfolding passes
pad_free-table = refl

value_of-letter : (i : ℕ) → value_of (letter i) ≡ i % 64
value_of-letter i =
    (==_iff _ (i % 64)).0
      (passes_at (λ i. value_of (get_or k_table i 0) == i) 64 (i % 64) value_of-table (omega arith))

letter_pad_free : (i : ℕ) → (letter i == b'=') ≡ false
letter_pad_free i =
    not-false (letter i == b'=')
      (passes_at (λ i. not (get_or k_table i 0 == b'=')) 64 (i % 64) pad_free-table (omega arith))

-- A decoder of RFC 4648 gets back from base64_encode the bytes that went in, whatever their number,
-- which covers the three forms of the end, with two signs of padding, one and none.
pub base64_decode-base64_encode :
    (input : Bytes) → IsBytes input → base64_decode (base64_encode input) ≡ input
unfolding base64_decode base64_encode
base64_decode-base64_encode [] h = refl
base64_decode-base64_encode (a ∷ []) h =
    let v = a * 2 ^ 16 in
    let p = value_of-letter (v / 2 ^ 18) in
    let q = value_of-letter (v / 2 ^ 12) in ap₂ ◌∷◌ (omega (arith, p, q)) refl
base64_decode-base64_encode (a ∷ b ∷ []) h =
    let v = a * 2 ^ 16 + b * 2 ^ 8 in
    rw
      (
        letter_pad_free (v / 2 ^ 6),
        value_of-letter (v / 2 ^ 18),
        value_of-letter (v / 2 ^ 12),
        value_of-letter (v / 2 ^ 6),
      )
      (ap₂ ◌∷◌ (omega arith) (ap₂ ◌∷◌ (omega arith) refl))
base64_decode-base64_encode (a ∷ b ∷ c ∷ rest) h =
    let v = a * 2 ^ 16 + b * 2 ^ 8 + c in
    rw
      (
        letter_pad_free (v / 2 ^ 6),
        letter_pad_free v,
        value_of-letter (v / 2 ^ 18),
        value_of-letter (v / 2 ^ 12),
        value_of-letter (v / 2 ^ 6),
        value_of-letter v,
        base64_decode-base64_encode rest h.1.1.1,
      )
      (ap₂ ◌∷◌ (omega arith) (ap₂ ◌∷◌ (omega arith) (ap₂ ◌∷◌ (omega arith) refl)))

-- The size that base64_encode reserves is the size of what it returns.
length-base64_encode : (input : Bytes) → length (base64_encode input) ≡ (length input + 2) / 3 * 4
unfolding base64_encode
length-base64_encode [] = refl
length-base64_encode (a ∷ []) = refl
length-base64_encode (a ∷ b ∷ []) = refl
length-base64_encode (a ∷ b ∷ c ∷ rest) = omega (arith, length-base64_encode rest)
