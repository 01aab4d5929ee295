-- ===== src/Http.antt =====
-- tools/ctl/backend/http.hpp and http.cpp: requests and responses of HTTP/1.1. A position in a
-- std::string is a number, and std::string::npos is `none`.
pub mod Bounds
pub mod Tokens
use ipc_data_relay.Common.{
  ℕ, zero, suc, ◌+◌, ◌-◌, ◌<◌, Bool, true, false, not, ◌&&◌, ◌||◌, Option, none, some, List, [],
  ◌∷◌, ◌++◌, ltb, leb, ◌==◌, if◌then◌else◌, length, take, drop, get_or,
}
use ipc_data_relay.Text.{Text, codes, same_text, to_lower, trim}
use ipc_data_relay.Json.{decimal}

abbrev pub Headers : Type 0
Headers = List (Text × Text)

pub record HttpRequest : Type 0 where
  pub method : Text
  pub target : Text
  pub path : Text
  pub version : Text
  pub headers : Headers

-- The loops of `header` and has_header.
unfoldable pub find_header : Text → Headers → Option Text
find_header name [] = none
find_header name ((n, v) ∷ rest) =
    let later = find_header name rest in if same_text n name then some v else later

abbrev text_of : Option Text → Text
text_of none = []
text_of (some v) = v

unfoldable pub header : HttpRequest → Text → Text
unfolding find_header
header req name = text_of (find_header name req.headers)

abbrev is_some : Option Text → Bool
is_some none = false
is_some (some v) = true

unfoldable pub has_header : HttpRequest → Text → Bool
unfolding find_header
has_header req name = is_some (find_header name req.headers)

abbrev pub starts : Text → Text → Bool
starts [] s = true
starts (p ∷ ps) [] = false
starts (p ∷ ps) (c ∷ s) = p == c && starts ps s

abbrev pub further : ℕ → Option ℕ → Option ℕ
further n none = none
further n (some i) = some (n + i)

-- s.find(pat)
unfoldable pub find : Text → Text → Option ℕ
find pat [] = if starts pat [] then some 0 else none
find pat (c ∷ s) = let later = find pat s in if starts pat (c ∷ s) then some 0 else further 1 later

-- s.find(pat, pos)
unfoldable pub find_from : Text → Text → ℕ → Option ℕ
unfolding find
find_from pat s pos = further pos (find pat (drop pos s))

-- s.substr(pos, n); without `n`, it is `drop`
abbrev pub substr : Text → ℕ → ℕ → Text
substr s pos n = take n (drop pos s)

-- s.substr(0, end) where `end` may be npos
abbrev pub until : Text → Option ℕ → Text
until s none = s
until s (some n) = take n s

abbrev pub crlf : Text
crlf = 13 ∷ 10 ∷ []

-- The result with the out parameters that it sets.
pub data HttpParse : Type 0 where
  need_more : HttpParse
  request : (req : HttpRequest) (consumed : ℕ) → HttpParse
  error : (message : Text) → HttpParse

-- The checks on the parts of the request line.
abbrev pub good_line : Text → Text → Text → Bool
good_line [] target version = false
good_line (m ∷ ms) [] version = false
good_line (m ∷ ms) (t ∷ ts) version = t == b'/' && starts (codes "HTTP/1.") version

abbrev pub request_of : Text → Text → Text → HttpRequest
request_of method target version = record {
  method = method;
  target = target;
  path = until target (find (b'?' ∷ []) target);
  version = version;
  headers = [];
}

-- The request line, cut at its spaces; `none` if it is malformed.
abbrev pub cut_line : Text → Option ℕ → Option ℕ → Option ℕ → Option HttpRequest
cut_line line (some sp1) (some sp2) none =
    let method = take sp1 line in
    let target = substr line (sp1 + 1) (sp2 - sp1 - 1) in
    let version = drop (sp2 + 1) line in
    if good_line method target version then some (request_of method target version) else none
cut_line line sp1 sp2 sp3 = none

abbrev pub after : Text → Option ℕ → Option ℕ
after line none = none
after line (some sp) = find_from (b' ' ∷ []) line (sp + 1)

unfoldable pub read_request_line : Text → Option HttpRequest
unfolding find find_from
read_request_line line =
    let sp1 = find (b' ' ∷ []) line in
    let sp2 = after line sp1 in cut_line line sp1 sp2 (after line sp2)

-- A header line; `none` if it is malformed.
abbrev pub cut_header : Text → Option ℕ → Option (Text × Text)
cut_header line none = none
cut_header line (some zero) = none
cut_header line (some (suc n)) =
    if get_or line 0 0 == b' ' || get_or line 0 0 == 9
    then none
    else some (to_lower (take (suc n) line), trim (drop (suc n + 1) line))

unfoldable pub read_header : Text → Option (Text × Text)
unfolding find to_lower trim
read_header line = cut_header line (find (b':' ∷ []) line)

abbrev pub add_header : HttpRequest → Text × Text → HttpRequest
add_header req h = record req { headers = req.headers ++ h ∷ [] }

-- line_end of a search that finds; `end` is there, so that it does
abbrev pub place : ℕ → Option ℕ → ℕ
place d none = d
place d (some n) = n

abbrev pub malformed_header : HttpParse
malformed_header = error (codes "malformed header line")

abbrev pub after_header : Option (Text × Text) → (Text × Text → HttpParse) → HttpParse
after_header none next = malformed_header
after_header (some h) next = next h

-- The loop over the header lines, on fuel.
unfoldable pub read_headers : ℕ → Text → ℕ → HttpRequest → ℕ → HttpParse
unfolding find_from read_header
read_headers zero buf end req pos = request req (end + 4)
read_headers (suc fuel) buf end req pos =
    let line_end = place (length buf) (find_from crlf buf pos) in
    if ltb pos (end + 2)
    then after_header (read_header (substr buf pos (line_end - pos)))
        (λ h. read_headers fuel buf end (add_header req h) (line_end + 2))
    else request req (end + 4)

-- Each line takes two bytes at least, so that there are fewer than bytes.
abbrev pub with_line : Text → ℕ → ℕ → Option HttpRequest → HttpParse
with_line buf end line_end none = error (codes "malformed request line")
with_line buf end line_end (some req) = read_headers (length buf) buf end req (line_end + 2)

abbrev pub with_end : Text → ℕ → Option ℕ → HttpParse
with_end buf max_header_bytes none =
    if ltb max_header_bytes (length buf)
    then error (codes "request header too large")
    else need_more
with_end buf max_header_bytes (some end) =
    let line_end = place (length buf) (find crlf buf) in
    if ltb max_header_bytes (end + 4)
    then error (codes "request header too large")
    else with_line buf end line_end (read_request_line (take line_end buf))

unfoldable pub parse_http_request : Text → ℕ → HttpParse
unfolding find read_request_line read_headers
parse_http_request buf max_header_bytes = with_end buf max_header_bytes (find (crlf ++ crlf) buf)

-- The loop of header_has_token, on fuel; `start` is past the end once it is done.
unfoldable pub token_loop : ℕ → Text → Text → ℕ → Bool
unfolding find_from to_lower trim
token_loop zero value want start = false
token_loop (suc fuel) value want start =
    let comma = place (length value) (find_from (b',' ∷ []) value start) in
    let later = token_loop fuel value want (comma + 1) in
    leb start (length value)
    && (same_text (to_lower (trim (substr value start (comma - start)))) want || later)

-- There are at most as many rounds as bytes, and one.
unfoldable pub header_has_token : Text → Text → Bool
unfolding token_loop
header_has_token value token = token_loop (length value + 1) value (to_lower token) 0

unfoldable pub http_reason : ℕ → Text
http_reason status =
    if status == 101
    then codes "Switching Protocols"
    else if status == 200
    then codes "OK"
    else if status == 400
    then codes "Bad Request"
    else if status == 403
    then codes "Forbidden"
    else if status == 404
    then codes "Not Found"
    else if status == 405
    then codes "Method Not Allowed"
    else if status == 426
    then codes "Upgrade Required"
    else if status == 431
    then codes "Request Header Fields Too Large"
    else if status == 500
    then codes "Internal Server Error"
    else if status == 503
    then codes "Service Unavailable"
    else codes "Unknown"

abbrev pub header_line : Text → Text → Text
header_line name value = name ++ codes ": " ++ value ++ crlf

-- The loop over the extra headers.
abbrev pub header_lines : Headers → Text
header_lines [] = []
header_lines ((n, v) ∷ rest) = header_line n v ++ header_lines rest

abbrev pub content_type_line : Text → Text
content_type_line [] = []
content_type_line (c ∷ s) = header_line (codes "Content-Type") (c ∷ s)

unfoldable pub http_response : ℕ → Text → Text → Bool → Headers → Text
unfolding http_reason decimal
http_response status content_type body head_only extra_headers =
    codes "HTTP/1.1 "
    ++ (decimal 20 status
        ++ (b' ' ∷ http_reason status
            ++ (crlf
                ++ (content_type_line content_type
                    ++ (header_line (codes "Content-Length") (decimal 20 (length body))
                        ++ (header_line (codes "Cache-Control") (codes "no-store")
                            ++ (header_line (codes "X-Content-Type-Options") (codes "nosniff")
                                ++ (header_lines extra_headers
                                    ++ (header_line (codes "Connection") (codes "close")
                                        ++ (crlf ++ (if head_only then [] else body)))))))))))
