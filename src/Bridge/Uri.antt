-- ===== src/Bridge/Uri.antt =====
-- The text helpers at the end of internal/bridge/sip.go, and `localContact` of bridge.go.
use megaco_sip_gateway.Prelude.{
  ℕ, zero, suc, ◌+◌, ◌-◌, ◌/◌, ◌%◌, Bytes, lit, is_empty, to_lower, equal_fold, has_prefix, Bool,
  false, not, ◌&&◌, ◌||◌, List, [], ◌∷◌, ◌++◌, Option, none, some, ◌==◌, ltb, if◌then◌else◌, length,
  drop, ℤ, pos, negsuc, is_nonpos, ◌≡◌, refl,
}
use megaco_sip_gateway.Prelude.Decimal.{itoa, atoi, is_digit}
use megaco_sip_gateway.Prelude.Strings.{trim, trim_space, is_in, cut_byte, after_last, before_any}
use megaco_sip_gateway.Net.{UdpAddr, Resolver, join_host_port, split_host_port}
use megaco_sip_gateway.Config.{Config}
use megaco_sip_gateway.Sip.Server.{header_parameter}

-- The text behind the first `c`, the whole text where there is none.
after_first : ℕ → Bytes → Bytes
after_first c s = elim (cut_byte c s) [ none ↦ s | some (a, b) ↦ b ]

between_angles : Bytes → Option (Bytes × Bytes) → Option Bytes
between_angles s none = none
between_angles s (some (a, b)) = elim (cut_byte b'>' b) [ none ↦ none | some (uri, c) ↦ some uri ]

angle_or_plain : Bytes → Option Bytes → Bytes
angle_or_plain s none = trim_space (before_any (b';' ∷ b',' ∷ []) s)
angle_or_plain s (some uri) = uri

-- `firstURI`
unfoldable pub first_uri : Bytes → Bytes
unfolding between_angles angle_or_plain cut_byte trim_space
first_uri value = let v = trim_space value in angle_or_plain v (between_angles v (cut_byte b'<' v))

-- `sipURIUser`
unfoldable pub sip_uri_user : Bytes → Bytes
unfolding after_first cut_byte before_any trim trim_space
sip_uri_user uri =
    let u = after_first b':' (trim (trim_space uri) (b'<' ∷ b'>' ∷ [])) in
    trim_space (before_any (b';' ∷ b'?' ∷ []) (before_any (b'@' ∷ []) u))

-- `containsCodec`
unfoldable pub contains_codec : List Bytes → Bytes → Bool
contains_codec [] want = false
contains_codec (codec ∷ rest) want = equal_fold codec want || contains_codec rest want

-- `addHeaderParameter`
unfoldable pub add_header_parameter : Bytes → Bytes → Bytes → Bytes
add_header_parameter value name parameter =
    if not (is_empty (header_parameter value name))
    then value
    else value ++ (b';' ∷ (name ++ (b'=' ∷ parameter)))

positive_or_one : Option ℤ → ℤ
positive_or_one none = pos 1
positive_or_one (some n) = if is_nonpos n then pos 1 else n

-- `parseCSeqNumber`
unfoldable pub parse_cseq_number : Bytes → ℤ
unfolding positive_or_one
parse_cseq_number value = positive_or_one (atoi value)

-- `strconv.Itoa` of an `int`
unfoldable pub itoa_int : ℤ → Bytes
itoa_int (pos n) = itoa n
itoa_int (negsuc n) = b'-' ∷ itoa (suc n)

-- `n + 1`
unfoldable pub next_int : ℤ → ℤ
next_int (pos n) = pos (n + 1)
next_int (negsuc zero) = pos 0
next_int (negsuc (suc n)) = negsuc n

-- `sanitizeSIPUser`
is_dial : ℕ → Bool
is_dial c = is_digit c || c == b'+' || c == b'*' || c == b'#'

keep_dial : Bytes → Bytes
keep_dial [] = []
keep_dial (x ∷ xs) = if is_dial x then x ∷ keep_dial xs else keep_dial xs

unfoldable pub sanitize_sip_user : Bytes → Bytes
unfolding keep_dial is_dial trim_space
sanitize_sip_user value = keep_dial (trim_space value)

-- `normalizeSIPURI`
unfoldable pub normalize_sip_uri : Bytes → Bytes
normalize_sip_uri value =
    let v = trim (trim_space value) (b'<' ∷ b'>' ∷ []) in
    if has_prefix (to_lower v) (lit "sip:") then v else lit "sip:" ++ v

host_or : Bytes → Option (Bytes × Bytes) → Bytes × Bytes
host_or value none = (trim value (b'[' ∷ b']' ∷ []), lit "5060")
host_or value (some (host, port)) = (host, port)

-- `advertisedSIPAddress`
unfoldable pub advertised_sip_address : Resolver → Bytes → Bytes → Bytes → Bytes
unfolding host_or
advertised_sip_address net configured listen fallback =
    let c = trim_space configured in
    let value = if is_empty c then trim_space listen else c in
    let (host, port) = host_or value (split_host_port value) in
    let bare = trim host (b'[' ∷ b']' ∷ []) in
    let fixed =
      if is_empty host || (net.is_ip bare && net.is_unspecified bare) then fallback else host in
    join_host_port (trim fixed (b'[' ∷ b']' ∷ [])) port

abbrev pub advertised : Resolver → Config → Bytes
advertised net cfg =
    advertised_sip_address net cfg.sip.advertised_address cfg.sip.listen cfg.media.rtp_ip

contact_host : Bytes → Option (Bytes × Bytes) → Bytes × Bytes
contact_host address none = (address, lit "5060")
contact_host address (some (host, port)) = (host, port)

-- `localContact`
unfoldable pub local_contact : Resolver → Config → Bytes
unfolding contact_host
local_contact net cfg =
    let address =
      if is_empty cfg.sip.advertised_address then cfg.sip.listen else cfg.sip.advertised_address in
    let (host, port) = contact_host address (split_host_port address) in
    let fixed =
      if is_empty host || (net.is_ip host && net.is_unspecified host)
      then cfg.media.rtp_ip
      else host in
    lit "sip:gateway@" ++ join_host_port (trim fixed (b'[' ∷ b']' ∷ [])) port

-- `hostOnly`
unfoldable pub host_only : Bytes → Bytes
host_only address =
    trim (elim (split_host_port address) [ none ↦ address | some (host, port) ↦ host ])
      (b'[' ∷ b']' ∷ [])

-- The host and port that `resolveSIPPeer` looks for.
target_of_uri : Bytes → Bytes
target_of_uri uri = before_any (b';' ∷ b'?' ∷ b'>' ∷ []) (after_last b'@' (after_first b':' uri))

with_port : Resolver → Bytes → Option (Bytes × Bytes) → Bytes
with_port net target (some hp) = target
with_port net target none =
    if not (is_in target b':')
    then join_host_port target (lit "5060")
    else if net.is_ip (trim target (b'[' ∷ b']' ∷ []))
    then join_host_port (trim target (b'[' ∷ b']' ∷ [])) (lit "5060")
    else target

-- `resolveSIPPeer`
unfoldable pub resolve_sip_peer : Resolver → Bytes → Bytes → Option UdpAddr
unfolding target_of_uri with_port after_first
resolve_sip_peer net outbound_proxy request_uri =
    let proxy = trim_space outbound_proxy in
    let chosen = if is_empty proxy then target_of_uri request_uri else proxy in
    let bare = trim (trim_space chosen) (b'<' ∷ b'>' ∷ []) in
    let plain = if has_prefix (to_lower bare) (lit "sip:") then drop 4 bare else bare in
    let target = after_last b'@' plain in
    net.resolve (with_port net target (split_host_port target))

hex_onto : ℕ → ℕ → Bytes → Bytes
hex_onto zero n rest = rest
hex_onto (suc f) n rest =
    let d = n % 16 in
    let out : Bytes = (if ltb d 10 then b'0' + d else b'a' + (d - 10)) ∷ rest in
    let more = hex_onto f (n / 16) out in if ltb n 16 then out else more

-- `randomToken`, at a time of the clock
unfoldable pub random_token : Bytes → ℕ → Bytes
unfolding hex_onto
random_token prefix now = prefix ++ (b'-' ∷ hex_onto (suc now) now [])

-- `strings.TrimPrefix(s, prefix)`
unfoldable pub trim_prefix : Bytes → Bytes → Bytes
trim_prefix s prefix = if has_prefix s prefix then drop (length prefix) s else s

samples :
    (sip_uri_user (lit "<sip:13800138000@192.0.2.1:5060;user=phone>") ≡ lit "13800138000")
    × (first_uri (lit "\"Gw\" <sip:gw@192.0.2.7>;expires=60") ≡ lit "sip:gw@192.0.2.7")
    × (random_token (lit "bye") 2607 ≡ lit "bye-a2f")
    × (add_header_parameter (lit "<sip:x@y>;tag=a") (lit "tag") (lit "gw") ≡ lit "<sip:x@y>;tag=a")
unfolding sip_uri_user first_uri random_token add_header_parameter header_parameter trim trim_space
    cut_byte before_any equal_fold lit is_in
samples = (refl, refl, refl, refl)
