-- ===== src/Capture/File.antt =====
-- A capture file from the writer to the reader (capture_writer.cpp, capture_reader.cpp).
use ipc_data_relay.Common.{
  ℕ, zero, suc, ◌+◌, ◌-◌, ◌≤◌, ◌<◌, ◌≡◌, refl, sym, ap, ◌∙◌, inl, inr, true, false, none, some,
  List, [], ◌∷◌, ◌++◌, arith, ltb, ltb→lt, if◌then◌else◌, ◌==◌, ==_iff, length, take, drop,
  Bool-cases, take-append, drop-append, take-append_more, length-take, length-append,
}
use native.Mathlib.Decide.{dec_lt}
use ipc_data_relay.Byteorder.{Bytes}
use ipc_data_relay.Capture.{RecordHeader, IsRecordHeader, encode_record_header}
use ipc_data_relay.Capture.Format.{length-encode_record_header, decode-encode_record_header}
use ipc_data_relay.Capture.Reader.{
  CaptureReader, read_payload, check_record, read_record, next_from, next, read_all,
}

-- A record as it was written: the header tells the length of the payload.
pub record IsRecord (r : RecordHeader × Bytes) : Type 0 where
  pub header : IsRecordHeader r.0
  pub size : r.0.payload_length ≡ length r.1

abbrev pub AllRecords : List (RecordHeader × Bytes) → Type 0
AllRecords [] = Unit {0}
AllRecords (r ∷ rs) = IsRecord r × AllRecords rs

unfoldable pub file_bytes : List (RecordHeader × Bytes) → Bytes
file_bytes [] = []
file_bytes ((h, p) ∷ rs) = encode_record_header h ++ (p ++ file_bytes rs)

module _ (r : CaptureReader) (h0 : RecordHeader) (p0 : Bytes) where
  read_payload-whole :
      (h : RecordHeader) (p rest : Bytes)
      → h.payload_length ≡ length p
      → read_payload r h (p ++ rest)
        ≡ record { state = record r { file = some rest }; found = true; hdr = h; payload = p }
  unfolding read_payload
  read_payload-whole h p rest e =
      let got : take h.payload_length (p ++ rest) ≡ p =
        take-append h.payload_length p rest (sym e) in
      let left : drop h.payload_length (p ++ rest) ≡ rest =
        drop-append h.payload_length p rest (sym e) in
      let all : (length (take h.payload_length (p ++ rest)) == h.payload_length) ≡ true =
        (==_iff _ _).1 (ap length got ∙ sym e) in
      ground (arith, got, left, all)

  -- A record that is there is read.
  read_record-whole :
      (h : RecordHeader) (p rest : Bytes)
      → IsRecord (h, p)
      → read_record r (encode_record_header h ++ (p ++ rest)) h0 p0
        ≡ record { state = record r { file = some rest }; found = true; hdr = h; payload = p }
  unfolding read_record check_record
  read_record-whole h p rest w =
      let raw =
        take-append 32 (encode_record_header h) (p ++ rest) (length-encode_record_header h) in
      let left =
        drop-append 32 (encode_record_header h) (p ++ rest) (length-encode_record_header h) in
      rw (raw, left, length-encode_record_header h, decode-encode_record_header h h0 w.header)
        (read_payload-whole h p rest w.size)

  -- A record that is cut short is not.
  read_record-cut :
      (n : ℕ) (h : RecordHeader) (p rest : Bytes)
      → IsRecord (h, p)
      → n < 32 + length p
      → (read_record r (take n (encode_record_header h ++ (p ++ rest))) h0 p0).found ≡ false
  unfolding read_record check_record
  read_record-cut n h p rest w lt = elim (dec_lt n 32) [
    | yes early ↦
        let b = take n (encode_record_header h ++ (p ++ rest)) in
        let size : length (take 32 b) ≡ n = omega (
          arith,
          length-take 32 b,
          length-take n (encode_record_header h ++ (p ++ rest)),
          length-append (encode_record_header h) (p ++ rest),
          length-encode_record_header h,
        ) in
        ground (arith, size)
    | no late ↦
        let e = length-encode_record_header h in
        let b : take n (encode_record_header h ++ (p ++ rest))
            ≡ encode_record_header h ++ take (n - 32) (p ++ rest) =
          take-append_more n (n - 32) (encode_record_header h) (p ++ rest) (omega arith) in
        let raw = take-append 32 (encode_record_header h) (take (n - 32) (p ++ rest)) e in
        let left = drop-append 32 (encode_record_header h) (take (n - 32) (p ++ rest)) e in
        rw (b, raw, left, e, decode-encode_record_header h h0 w.header)
          (read_payload-cut h (take (n - 32) (p ++ rest))
            (omega (arith, w.size, length-take (n - 32) (p ++ rest))))
  ]
    where
      read_payload-cut :
          (h : RecordHeader) (b : Bytes)
          → length b < h.payload_length
          → (read_payload r h b).found ≡ false
      read_payload-cut h b lt =
          let size : length (take h.payload_length b) ≡ length b =
            omega (arith, length-take h.payload_length b) in
          ground (arith, size)

-- How many records stand whole in the first n bytes.
unfoldable pub whole : ℕ → List (RecordHeader × Bytes) → ℕ
whole n [] = 0
whole n ((h, p) ∷ rs) = if ltb n (32 + length p) then 0 else suc (whole (n - (32 + length p)) rs)

abbrev pub at_bytes : CaptureReader → Bytes → CaptureReader
at_bytes r b = record { file = some b; file_header = r.file_header; error = none }

read_all_stop :
    (fuel : ℕ) (r : CaptureReader) (b : Bytes) (h0 : RecordHeader) (p0 : Bytes)
    → (read_record (at_bytes r b) b h0 p0).found ≡ false
    → (read_all (suc fuel) (at_bytes r b) h0 p0).0 ≡ []
unfolding read_all next next_from
read_all_stop fuel r b h0 p0 stop = rw stop refl

read_all_step :
    (fuel : ℕ) (r : CaptureReader) (h : RecordHeader) (p rest : Bytes) (h0 : RecordHeader)
    (p0 : Bytes)
    → IsRecord (h, p)
    → read_all (suc fuel) (at_bytes r (encode_record_header h ++ (p ++ rest))) h0 p0
      ≡ ((h, p) ∷ (read_all fuel (at_bytes r rest) h p).0, (read_all fuel (at_bytes r rest) h p).1)
unfolding read_all next next_from
read_all_step fuel r h p rest h0 p0 w =
    rw (read_record-whole (at_bytes r (encode_record_header h ++ (p ++ rest))) h0 p0 h p rest w)
      refl

take-nil : (n : ℕ) → ◌≡◌ {A = Bytes} (take n []) []
take-nil zero = refl
take-nil (suc n) = refl

read_record_nil :
    (r : CaptureReader) (h0 : RecordHeader) (p0 : Bytes) → (read_record r [] h0 p0).found ≡ false
unfolding read_record
read_record_nil r h0 p0 = refl

-- Of a file of which only the first n bytes are there, the reader gets exactly the records that are
-- whole in them, in order.
pub read_all-take :
    (fuel n : ℕ) (r : CaptureReader) (h0 : RecordHeader) (p0 : Bytes)
    (rs : List (RecordHeader × Bytes))
    → AllRecords rs
    → length rs < fuel
    → (read_all fuel (at_bytes r (take n (file_bytes rs))) h0 p0).0 ≡ take (whole n rs) rs
unfolding whole file_bytes
read_all-take zero n r h0 p0 rs w lt = absurd (omega arith)
read_all-take (suc fuel) n r h0 p0 [] w lt =
    rw (take-nil n) (read_all_stop fuel r [] h0 p0 (read_record_nil (at_bytes r []) h0 p0))
read_all-take (suc fuel) n r h0 p0 ((h, p) ∷ rs) w lt = elim (Bool-cases (ltb n (32 + length p))) [
  | inl short ↦ rw short (
      read_all_stop fuel r (take n (encode_record_header h ++ (p ++ file_bytes rs))) h0 p0
        (read_record-cut _ h0 p0 n h p (file_bytes rs) w.0 (ltb→lt _ _ short)))
  | inr long ↦
      let e = length-encode_record_header h in
      let m = n - (32 + length p) in
      let fits : 32 + length p ≤ n = ground arith in
      let b : take n (encode_record_header h ++ (p ++ file_bytes rs))
          ≡ encode_record_header h ++ (p ++ take m (file_bytes rs)) =
        take-append_more n (n - 32) (encode_record_header h) (p ++ file_bytes rs) (omega arith)
        ∙ ap (λ t. encode_record_header h ++ t)
            (take-append_more (n - 32) m p (file_bytes rs) (omega arith)) in
      rw (long, b)
        (ap (λ (x : List (RecordHeader × Bytes) × CaptureReader). x.0)
            (read_all_step fuel r h p (take m (file_bytes rs)) h0 p0 w.0)
          ∙ ap (λ t. (h, p) ∷ t) (read_all-take fuel m r h p rs w.1 (omega arith)))
]

read_all_nil :
    (fuel : ℕ) (r : CaptureReader) (h0 : RecordHeader) (p0 : Bytes)
    → read_all (suc fuel) (at_bytes r []) h0 p0 ≡ ([], at_bytes r [])
unfolding read_all next next_from read_record
read_all_nil fuel r h0 p0 = refl

-- The whole file gives back all records and ends without an error.
pub read_all_file :
    (fuel : ℕ) (r : CaptureReader) (h0 : RecordHeader) (p0 : Bytes)
    (rs : List (RecordHeader × Bytes))
    → AllRecords rs
    → length rs < fuel
    → read_all fuel (at_bytes r (file_bytes rs)) h0 p0 ≡ (rs, at_bytes r [])
unfolding file_bytes
read_all_file zero r h0 p0 rs w lt = absurd (omega arith)
read_all_file (suc fuel) r h0 p0 [] w lt = read_all_nil fuel r h0 p0
read_all_file (suc fuel) r h0 p0 ((h, p) ∷ rs) w lt =
    read_all_step fuel r h p (file_bytes rs) h0 p0 w.0
    ∙ ap (λ (x : List (RecordHeader × Bytes) × CaptureReader). ((h, p) ∷ x.0, x.1))
        (read_all_file fuel r h p rs w.1 (omega arith))
