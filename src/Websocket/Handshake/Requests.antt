-- ===== src/Websocket/Handshake/Requests.antt =====
-- `Acceptor::accept` on a request as RFC 6455, section 4.1, has it, and on any input.
use fserv.Prelude.{
  ℕ, zero, suc, ◌+◌, ◌-◌, ◌≤◌, ◌<◌, ◌≡◌, ◌≢◌, refl, ap, sym, ◌∙◌, true, false, Bool-cases, inl, inr,
  ◌⊎◌, Option, none, some, List, [], ◌∷◌, ◌++◌, arith, length, take, drop, length-append,
  length-drop, append_assoc, is_empty, if◌then◌else◌, Option-cases, leb,
}
use fserv.Prelude.Bytes.{Bytes, codes, lowered, c_str, IsText}
use fserv.Prelude.Maps.{bytes_eq, lookup, insert, has, lookup-insert, same}
use fserv.Websocket.{protocol_hybi, protocol_bad}
use fserv.Websocket.Handshake.{
  starts_with, find, crlf, colon, Headers, add_header, parse_headers, from_array, ws_magical_guid,
  buffer_size, switching, or_else, hybi_accept, value_of, negotiate, accept,
}
use fserv.Websocket.Handshake.Find.{
  IsFree, find-append, find_suffix, find-le, take_left, drop_match,
}

-- With fuel above the length of the text, the loop over the header lines gives a result.
pub parse_headers_total :
    (fuel : ℕ) (remainder : Bytes) (headers : Headers)
    → length remainder < fuel
    → parse_headers fuel remainder headers ≢ none
unfolding parse_headers
parse_headers_total zero remainder headers h = absurd (omega arith)
parse_headers_total (suc fuel) remainder headers h = elim (Option-cases (find crlf remainder)) [
  | inl e ↦ rw (e, parse_headers) (λ x. ground arith)
  | inr (i, e) ↦
      rw (e, parse_headers)
        (parse_headers_total fuel (drop (i + 2) remainder) _
          (omega (arith, length-drop (i + 2) remainder, find-le crlf remainder i e)))
]

pub record Header : Type 0 where
  pub name : Bytes
  pub value : Bytes

-- Names without a colon or a line end, values without a line end.
pub record IsHeader (h : Header) : Type 0 where
  pub no_colon : IsFree 58 h.name
  pub name_line : IsFree 13 h.name
  pub value_line : IsFree 13 h.value

abbrev pub IsHeaders : List Header → Type 0
IsHeaders [] = Unit {0}
IsHeaders (h ∷ hs) = IsHeader h × IsHeaders hs

abbrev pub header_line : Header → Bytes
header_line h = h.name ++ (58 ∷ 32 ∷ h.value)

abbrev pub header_lines : List Header → Bytes
header_lines [] = crlf
header_lines (h ∷ hs) = header_line h ++ (13 ∷ 10 ∷ header_lines hs)

abbrev pub request : Bytes → List Header → Bytes
request start hs = start ++ (13 ∷ 10 ∷ header_lines hs)

-- The value of the last header of that name, the names read in lower case.
unfoldable pub header_value : Bytes → List Header → Option Bytes
header_value k [] = none
header_value k (h ∷ hs) = elim (header_value k hs) [
  | none ↦ if same (lowered h.name) k then some h.value else none
  | some v ↦ some v
]

insert_all : List Header → Headers → Headers
insert_all [] m = m
insert_all (h ∷ hs) m = insert_all hs (insert (lowered h.name) h.value m)

lookup-insert_all :
    (k : Bytes) (hs : List Header) (m : Headers)
    → lookup k (insert_all hs m)
      ≡ (elim (header_value k hs) [ none ↦ lookup k m | some v ↦ some v ])
unfolding insert_all header_value
lookup-insert_all k [] m = refl
lookup-insert_all k (h ∷ hs) m = ground (
  arith,
  lookup-insert_all k hs (insert (lowered h.name) h.value m),
  lookup-insert (lowered h.name) k h.value m,
)

has-lookup :
    (k : Bytes) (m : Headers) → has k m ≡ (elim (lookup k m) [ none ↦ false | some _ ↦ true ])
unfolding has lookup
has-lookup k [] = refl
has-lookup k ((j, v) ∷ m) = ground (arith, has-lookup k m)

add_header_line :
    (h : Header) (m : Headers)
    → IsHeader h
    → add_header (header_line h) m ≡ insert (lowered h.name) h.value m
unfolding add_header
add_header_line h m v = rw (
  find-append 58 32 h.name h.value v.no_colon,
  add_header,
  take_left h.name (58 ∷ 32 ∷ h.value),
  drop_match h.name h.value 58 32 (length h.name + 2) refl,
)

IsFree-append : (c : ℕ) (s t : Bytes) → IsFree c s → IsFree c t → IsFree c (s ++ t)
IsFree-append c [] t x y = y
IsFree-append c (b ∷ s) t x y = (x.0, IsFree-append c s t x.1 y)

header_line-IsFree : (h : Header) → IsHeader h → IsFree 13 (header_line h)
header_line-IsFree h v =
    IsFree-append 13 h.name _ v.name_line (omega arith, (omega arith, v.value_line))

-- One round of the loop on a line that ends where the first line end stands.
parse_headers_line :
    (fuel : ℕ) (s rest : Bytes) (m : Headers)
    → IsFree 13 s
    → parse_headers (suc fuel) (s ++ (13 ∷ 10 ∷ rest)) m ≡ parse_headers fuel rest (add_header s m)
unfolding parse_headers
parse_headers_line fuel s rest m v = rw (
  find-append 13 10 s rest v,
  parse_headers,
  take_left s (13 ∷ 10 ∷ rest),
  drop_match s rest 13 10 (length s + 2) refl,
)

parse-header_lines :
    (fuel : ℕ) (hs : List Header) (m : Headers)
    → IsHeaders hs
    → length (header_lines hs) < fuel
    → parse_headers fuel (header_lines hs) m ≡ some (insert_all hs m)
unfolding insert_all parse_headers add_header find starts_with
parse-header_lines zero hs m v l = absurd (omega arith)
parse-header_lines (suc zero) [] m v l = absurd (omega arith)
parse-header_lines (suc (suc fuel)) [] m v l = parse_headers_line (suc fuel) [] [] m tt ∙ last
  where
    last : parse_headers (suc fuel) [] (add_header [] m) ≡ some m
    last = refl
parse-header_lines (suc fuel) (h ∷ hs) m v l =
    parse_headers_line fuel (header_line h) (header_lines hs) m (header_line-IsFree h v.0)
    ∙ rw (add_header_line h m v.0) (
        parse-header_lines fuel hs _ v.1
          (omega (arith, length-append (header_line h) (13 ∷ 10 ∷ header_lines hs))))

lines_end : (hs : List Header) → (s : Bytes) × ((13 ∷ 10 ∷ header_lines hs) ≡ s ++ (crlf ++ crlf))
lines_end [] = ([], refl)
lines_end (h ∷ hs) =
    let (s, e) = lines_end hs in
    (
      13 ∷ 10 ∷ (header_line h ++ s),
      ap (λ t. 13 ∷ 10 ∷ t)
          (ap (◌++◌ (header_line h)) e ∙ sym (append_assoc (header_line h) s (crlf ++ crlf))),
    )

request_end : (start : Bytes) (hs : List Header) → find (crlf ++ crlf) (request start hs) ≢ none
request_end start hs =
    let (s, e) = lines_end hs in
    let e' : request start hs ≡ (start ++ s) ++ (crlf ++ crlf) =
      ap (◌++◌ start) e ∙ sym (append_assoc start s (crlf ++ crlf)) in
    rw e' (find_suffix (crlf ++ crlf) (start ++ s))

request_headers :
    (start : Bytes) (hs : List Header)
    → IsFree 13 start
    → find colon start ≡ none
    → IsHeaders hs
    → parse_headers (suc (length (request start hs))) (request start hs) []
      ≡ some (insert_all hs [])
unfolding add_header
request_headers start hs v c vs =
    parse_headers_line (length (request start hs)) start (header_lines hs) [] v
    ∙ rw (c, add_header)
        (parse-header_lines (length (request start hs)) hs [] vs
          (omega (arith, length-append start (13 ∷ 10 ∷ header_lines hs))))

from_array_fits : (size : ℕ) (text : Bytes) → length text < size → from_array size text ≡ some text
unfolding from_array
from_array_fits size text h =
    let l : leb (length text) size ≡ true = ground arith in
    rw (l, take_all (size - 1) text (omega arith), take_left text (0 ∷ []))
  where
    take_all : (n : ℕ) (s : Bytes) → length s ≤ n → take n s ≡ s
    take_all zero [] h = refl
    take_all zero (c ∷ s) h = absurd (omega arith)
    take_all (suc n) [] h = refl
    take_all (suc n) (c ∷ s) h = ap (◌∷◌ c) (take_all n s (omega arith))

abbrev pub real_ip : List Header → Bytes → Bytes
real_ip hs ip = or_else ip (header_value (codes "x-real-ip") hs)

module _ (sha1_hash_string base64_encode : Bytes → Bytes) (start : Bytes) (hs : List Header)
    (v : IsFree 13 start) (c : find colon start ≡ none) (vs : IsHeaders hs)
    (output ip : Bytes) where
  accept-request :
      accept sha1_hash_string base64_encode (request start hs) output ip
      ≡ negotiate sha1_hash_string base64_encode (insert_all hs []) ip
  unfolding accept
  accept-request = elim (Option-cases (find (crlf ++ crlf) (request start hs))) [
    | inl e ↦ absurd (request_end start hs e)
    | inr (i, e) ↦ rw (e, accept, request_headers start hs v c vs)
  ]

  value_of-header :
      (k : Bytes) (w : Bytes)
      → header_value k hs ≡ some w
      → (has k (insert_all hs []) ≡ true) × (lookup k (insert_all hs []) ≡ some w)
  unfolding lookup
  value_of-header k w e =
      let l : lookup k (insert_all hs []) ≡ some w = ground (arith, lookup-insert_all k hs []) in
      (has-lookup k (insert_all hs []) ∙ rw l, l)

  value_of-missing : (k : Bytes) → header_value k hs ≡ none → has k (insert_all hs []) ≡ false
  unfolding lookup
  value_of-missing k e =
      let l : lookup k (insert_all hs []) ≡ none = ground (arith, lookup-insert_all k hs []) in
      has-lookup k (insert_all hs []) ∙ rw l

  real_ip_lem :
      (if has (codes "x-real-ip") (insert_all hs [])
        then value_of (codes "x-real-ip") (insert_all hs [])
        else ip)
      ≡ real_ip hs ip
  real_ip_lem = elim (Option-cases (header_value (codes "x-real-ip") hs)) [
    | inl e ↦ rw (value_of-missing _ e, e)
    | inr (w, e) ↦ let (a, b) = value_of-header _ w e in rw (a, b, e)
  ]

  -- A request whose start line has no ": " and no line end, with well-formed headers, among them
  -- (names in any case, the last of a name counts) a version and a non-empty key that has no
  -- zero byte and leaves room in the 4096 bytes, as the answer does, is answered with the
  -- standard's text around the encoded hash of the key and the GUID; the protocol is hybi, and
  -- the address is that of the last "X-Real-IP" header if there is one.
  pub accept_upgrade :
      (version key : Bytes)
      → header_value (codes "sec-websocket-version") hs ≡ some version
      → header_value (codes "sec-websocket-key") hs ≡ some key
      → is_empty key ≡ false
      → IsText key
      → length key + 36 < buffer_size
      → length (switching (base64_encode (sha1_hash_string (key ++ ws_magical_guid)))) < buffer_size
      → accept sha1_hash_string base64_encode (request start hs) output ip
        ≡ some (record {
          version = protocol_hybi;
          output = switching (base64_encode (sha1_hash_string (key ++ ws_magical_guid)));
          ip = real_ip hs ip;
        })
  unfolding negotiate hybi_accept
  accept_upgrade version key ev ek ne text short room =
      let (hv, _) = value_of-header _ version ev in
      let (hk, lk) = value_of-header _ key ek in
      let k =
        from_array_fits buffer_size (key ++ ws_magical_guid)
          (omega (arith, length-append key ws_magical_guid)) in
      accept-request
      ∙ rw (negotiate, real_ip_lem, hv, hk, lk, hybi_accept, ne, text, k)
          (rw (from_array_fits buffer_size _ room))

  -- A request whose start line has no ": " and no line end, with well-formed headers, among them
  -- no version or no key, is refused with no answer; the address is that of the last "X-Real-IP"
  -- header if there is one.
  pub accept_missing :
      (header_value (codes "sec-websocket-version") hs ≡ none)
        ⊎ (header_value (codes "sec-websocket-key") hs ≡ none)
      → accept sha1_hash_string base64_encode (request start hs) output ip
        ≡ some (record { version = protocol_bad; output = []; ip = real_ip hs ip })
  unfolding negotiate
  accept_missing (inl e) = accept-request ∙ rw (negotiate, real_ip_lem, value_of-missing _ e)
  accept_missing (inr e) =
      accept-request ∙ elim (Bool-cases (has (codes "sec-websocket-version") (insert_all hs []))) [
        | inl h ↦ rw (negotiate, real_ip_lem, h, value_of-missing _ e)
        | inr h ↦ rw (negotiate, real_ip_lem, h)
      ]

  -- Under the same conditions on the request, if it has a version and a key of more than 4060
  -- bytes in front of its first zero byte, then the handshake reads behind its 4096-byte array.
  pub accept_overread :
      (version key : Bytes)
      → header_value (codes "sec-websocket-version") hs ≡ some version
      → header_value (codes "sec-websocket-key") hs ≡ some key
      → 4060 < length (c_str key)
      → accept sha1_hash_string base64_encode (request start hs) output ip ≡ none
  unfolding negotiate hybi_accept from_array c_str
  accept_overread version key ev ek long =
      let (hv, _) = value_of-header _ version ev in
      let (hk, lk) = value_of-header _ key ek in
      let ne : is_empty key ≡ false = nonempty key long in
      let over : leb (length (c_str key ++ ws_magical_guid)) buffer_size ≡ false =
        ground (arith, length-append (c_str key) ws_magical_guid) in
      accept-request ∙ rw (negotiate, hv, hk, lk, hybi_accept, ne, over)
    where
      nonempty : (k : Bytes) → 4060 < length (c_str k) → is_empty k ≡ false
      nonempty [] h = absurd (omega arith)
      nonempty (b ∷ k) h = refl
