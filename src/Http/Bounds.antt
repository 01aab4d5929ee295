-- ===== src/Http/Bounds.antt =====
-- parse_http_request of tools/ctl/backend/http.cpp: the limit on the header, and the end of its loop.
use ipc_data_relay.Common.{
  ℕ, zero, suc, ◌+◌, ◌-◌, ◌≤◌, ◌≡◌, refl, sym, true, false, Option, none, some, [], ◌∷◌, ◌++◌, ltb,
  length, take, drop, Bool-cases, Option-cases, inl, inr, some-inj, ltb→lt, not-true, arith,
}
use ipc_data_relay.Text.{Text, codes}
use ipc_data_relay.Http.{
  HttpRequest, need_more, request, error, find, find_from, starts, substr, place, crlf, read_header,
  add_header, malformed_header, read_headers, read_request_line, with_line, parse_http_request,
}

line_end_behind :
    (buf : Text) (pos : ℕ) → pos ≤ length buf → pos ≤ place (length buf) (find_from crlf buf pos)
unfolding find_from
line_end_behind buf pos h = elim (Option-cases (find crlf (drop pos buf))) [
  | inl e ↦ rw e h
  | inr (n, e) ↦ rw e (omega arith)
]

-- The loop, with fuel that is enough and with more.
read_headers_more :
    (fuel more : ℕ) (buf : Text) (end : ℕ) (req : HttpRequest) (pos : ℕ)
    → fuel ≤ more
    → end + 2 ≤ length buf
    → end + 2 ≤ pos + fuel
    → read_headers more buf end req pos ≡ read_headers fuel buf end req pos
unfolding read_headers
read_headers_more zero zero buf end req pos le h f = refl
read_headers_more zero (suc more) buf end req pos le h f =
    let l : ltb pos (end + 2) ≡ false = ground arith in rw l refl
read_headers_more (suc fuel) zero buf end req pos le h f = absurd (omega arith)
read_headers_more (suc fuel) (suc more) buf end req pos le h f =
    let line_end = place (length buf) (find_from crlf buf pos) in
    elim (Bool-cases (ltb pos (end + 2))) [
      | inr l ↦ rw l refl
      | inl l ↦
          let behind = line_end_behind buf pos (omega (arith, ltb→lt pos (end + 2) l)) in
          elim (Option-cases (read_header (substr buf pos (line_end - pos)))) [
            | inl e ↦ rw (l, e) refl
            | inr (h', e) ↦
                rw (l, e)
                  (read_headers_more fuel more buf end (add_header req h') (line_end + 2)
                    (omega arith) h (omega arith))
          ]
    ]

read_headers_consumed :
    (fuel : ℕ) (buf : Text) (end : ℕ) (req found : HttpRequest) (pos n : ℕ)
    → read_headers fuel buf end req pos ≡ request found n
    → n ≡ end + 4
unfolding read_headers
read_headers_consumed zero buf end req found pos n h = cc
read_headers_consumed (suc fuel) buf end req found pos n h =
    let line_end = place (length buf) (find_from crlf buf pos) in
    elim (Bool-cases (ltb pos (end + 2))) [
      | inr l ↦ let q : request req (end + 4) ≡ request found n = rw l at h in cc
      | inl l ↦ elim (Option-cases (read_header (substr buf pos (line_end - pos)))) [
        | inl e ↦ absurd (let q : malformed_header ≡ request found n = rw (l, e) at h in cc)
        | inr (h', e) ↦
            read_headers_consumed fuel buf end (add_header req h') found (line_end + 2) n
              (rw (l, e) at h)
      ]
    ]

starts_long : (p s : Text) → starts p s ≡ true → length p ≤ length s
starts_long [] s h = omega arith
starts_long (p ∷ ps) [] h = not-true (sym h)
starts_long (p ∷ ps) (c ∷ s) h = let r = starts_long ps s in ground arith

find_inside : (p s : Text) (n : ℕ) → find p s ≡ some n → n + length p ≤ length s
unfolding find
find_inside p [] n h = elim (Bool-cases (starts p [])) [
  | inl e ↦ let q : some 0 ≡ some n = rw e at h in omega (arith, some-inj q, starts_long p [] e)
  | inr e ↦ absurd (let q : none ≡ some n = rw e at h in cc)
]
find_inside p (c ∷ s) n h = elim (Bool-cases (starts p (c ∷ s))) [
  | inl e ↦
      let q : some 0 ≡ some n = rw e at h in omega (arith, some-inj q, starts_long p (c ∷ s) e)
  | inr e ↦ elim (Option-cases (find p s)) [
    | inl g ↦ absurd (let q : none ≡ some n = rw (e, g) at h in cc)
    | inr (m, g) ↦
        let q : some (1 + m) ≡ some n = rw (e, g) at h in
        omega (arith, some-inj q, find_inside p s m g)
  ]
]

-- The fuel that parse_http_request gives is enough.
pub read_headers_enough :
    (fuel : ℕ) (buf : Text) (end : ℕ) (req : HttpRequest) (pos : ℕ)
    → find (crlf ++ crlf) buf ≡ some end
    → length buf ≤ fuel
    → read_headers fuel buf end req pos ≡ read_headers (length buf) buf end req pos
read_headers_enough fuel buf end req pos h le =
    let inside = find_inside (crlf ++ crlf) buf end h in
    read_headers_more (length buf) fuel buf end req pos le (omega arith) (omega arith)

with_line_consumed :
    (buf : Text) (end line_end : ℕ) (o : Option HttpRequest) (req : HttpRequest) (n : ℕ)
    → with_line buf end line_end o ≡ request req n
    → n ≡ end + 4
with_line_consumed buf end line_end none req n h = absurd (cc)
with_line_consumed buf end line_end (some r) req n h =
    read_headers_consumed (length buf) buf end r req (line_end + 2) n h

-- A request that parse_http_request accepts ends with the first empty line of the buffer, all of it
-- lies in the buffer, and it is no longer than the limit.
pub parse_http_request_consumed :
    (buf : Text) (max_header_bytes : ℕ) (req : HttpRequest) (n : ℕ)
    → parse_http_request buf max_header_bytes ≡ request req n
    → ((end : ℕ) × (find (crlf ++ crlf) buf ≡ some end) × (n ≡ end + 4))
      × (n ≤ length buf)
      × (n ≤ max_header_bytes)
unfolding parse_http_request
parse_http_request_consumed buf m req n h = elim (Option-cases (find (crlf ++ crlf) buf)) [
  | inl e ↦ elim (Bool-cases (ltb m (length buf))) [
    | inl l ↦
        absurd
          (let q : error (codes "request header too large") ≡ request req n = rw (e, l) at h in cc)
    | inr l ↦ absurd (let q : need_more ≡ request req n = rw (e, l) at h in cc)
  ]
  | inr (end, e) ↦ elim (Bool-cases (ltb m (end + 4))) [
    | inl l ↦
        absurd
          (let q : error (codes "request header too large") ≡ request req n = rw (e, l) at h in cc)
    | inr l ↦
        let line_end = place (length buf) (find crlf buf) in
        let k =
          with_line_consumed buf end line_end (read_request_line (take line_end buf)) req n
            (rw (e, l) at h) in
        let inside = find_inside (crlf ++ crlf) buf end e in
        ((end, e, k), omega arith, ground arith)
  ]
]
