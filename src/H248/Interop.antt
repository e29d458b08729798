-- ===== src/H248/Interop.antt =====
-- internal/h248/interop.go: what the gateway reads from the MGC's descriptors, and its Notify.
pub mod CallerId
pub mod Notify
use megaco_sip_gateway.Prelude.{
  ℕ, zero, suc, ◌+◌, ◌-◌, Bytes, lit, same, is_empty, to_lower, to_upper, has_prefix, contains_text,
  Bool, true, false, not, ◌&&◌, ◌||◌, List, [], ◌∷◌, ◌++◌, Option, none, some, ◌==◌, if◌then◌else◌,
  ◌≡◌, refl, length, take, drop, get_or, ℤ, pos, within, to_ℕ,
}
use megaco_sip_gateway.Prelude.Decimal.{atoi}
use megaco_sip_gateway.Prelude.Strings.{fields, replace_all}
use megaco_sip_gateway.Prelude.Regex.{
  is_re_space, is_re_digit, is_word, star, plus, capture_plus, word, find_match, at_word, at_line,
  find_all, or_else,
}
use megaco_sip_gateway.H248.Syntax.{is_space, is_name_char, balanced_end}

pub record MediaDescription : Type 0 where
  pub ip : Bytes
  pub port : ℕ
  pub payload_types : List ℕ
  pub telephone_event_payload : ℕ

abbrev spaces {ℓ} : {A : Type ℓ} → (Bytes → Option A) → Bytes → Option A
spaces = star is_re_space

abbrev spaces1 {ℓ} : {A : Type ℓ} → (Bytes → Option A) → Bytes → Option A
spaces1 = plus is_re_space

abbrev byte {ℓ} : {A : Type ℓ} → ℕ → (Bytes → Option A) → Bytes → Option A
byte c = word (c ∷ [])

-- `\s*=\s*([0-9]+)\s*\{`
event_tail : Bytes → Option Bytes
event_tail =
    spaces (byte b'=' (spaces (capture_plus is_re_digit λ id. spaces (byte b'{' λ _. some id))))

-- `(?i)\b(?:Events|E)\s*=\s*([0-9]+)\s*\{`
event_request : Option ℕ → Bytes → Option Bytes
event_request before s =
    if at_word before
    then or_else (word (lit "events") event_tail s) (word (lit "e") event_tail s)
    else none

or_empty : Option Bytes → Bytes
or_empty none = []
or_empty (some s) = s

-- `EventRequestID`
unfoldable pub event_request_id : Bytes → Bytes
unfolding or_empty event_request event_tail find_match
event_request_id raw = or_empty (find_match event_request none raw)

-- `ContainsRingSignal`
unfoldable pub contains_ring_signal : Bytes → Bool
contains_ring_signal raw =
    contains_text (to_lower raw) (lit "al/ri")
    || contains_text (to_lower raw) (lit "cg/rt")
    || contains_text (to_lower raw) (lit "andisp/dwa")

is_address_byte : ℕ → Bool
is_address_byte c = not (is_re_space c || c == b'}')

-- `(?im)^\s*c\s*=\s*IN\s+IP4\s+([^\s}\r\n]+)`
connection : Option ℕ → Bytes → Option (Bytes × Bytes)
connection before s =
    if at_line before
    then spaces
        (byte b'c' (
          spaces (
            byte b'=' (
              spaces (
                word (lit "in") (
                  spaces1 (
                    word (lit "ip4")
                      (spaces1 (capture_plus is_address_byte λ ip rest. some (ip, rest))))))))))
        s
    else none

is_line_byte : ℕ → Bool
is_line_byte c = not (c == b'\r' || c == b'\n' || c == b'}')

-- `(?im)^\s*m\s*=\s*audio\s+([0-9]+)\s+RTP/AVP\s+([^\r\n}]+)`
audio : Option ℕ → Bytes → Option ((Bytes × Bytes) × Bytes)
audio before s =
    if at_line before
    then spaces
        (byte b'm' (
          spaces (
            byte b'=' (
              spaces (
                word (lit "audio") (
                  spaces1 (
                    capture_plus is_re_digit λ port. spaces1 (
                      word (lit "rtp/avp") (
                        spaces1 (
                          capture_plus is_line_byte
                            λ formats rest. some ((port, formats), rest)))))))))))
        s
    else none

-- `(?im)^\s*a\s*=\s*rtpmap\s*:\s*([0-9]+)\s+telephone-event/8000`
rtpmap : Option ℕ → Bytes → Option Bytes
rtpmap before s =
    if at_line before
    then spaces
        (byte b'a' (
          spaces (
            byte b'=' (
              spaces (
                word (lit "rtpmap") (
                  spaces (
                    byte b':' (
                      spaces (
                        capture_plus is_re_digit λ payload.
                          spaces1 (word (lit "telephone-event/8000") λ _. some payload))))))))))
        s
    else none

last {ℓ} : {A : Type ℓ} → A → List A → A
last a [] = a
last a (b ∷ bs) = last b bs

-- `normalizeDescriptorSDP`: the escapes `\r\n` and `\n`, written out, become line feeds.
normalize_descriptor_sdp : Bytes → Bytes
normalize_descriptor_sdp text =
    replace_all (replace_all text (b'\\' ∷ b'r' ∷ b'\\' ∷ b'n' ∷ []) (b'\n' ∷ []))
      (b'\\' ∷ b'n' ∷ []) (b'\n' ∷ [])

keep_payload : Option ℤ → List ℕ → List ℕ
keep_payload none rest = rest
keep_payload (some n) rest = if within 0 127 n then to_ℕ n ∷ rest else rest

payloads : List Bytes → List ℕ
payloads [] = []
payloads (field ∷ rest) = keep_payload (atoi field) (payloads rest)

number_or_zero : Option ℤ → ℕ
number_or_zero none = 0
number_or_zero (some n) = to_ℕ n

telephone_event : Option Bytes → ℕ
telephone_event none = 0
telephone_event (some payload) = number_or_zero (atoi payload)

described : Bytes → Bytes → Bytes → Option ℤ → Option MediaDescription
described text ip formats none = none
described text ip formats (some port) =
    if within 1 65535 port
    then some (record {
      ip = ip;
      port = to_ℕ port;
      payload_types = payloads (fields formats);
      telephone_event_payload = telephone_event (find_match rtpmap none text);
    })
    else none

from_lines : Bytes → List Bytes → List (Bytes × Bytes) → Option MediaDescription
from_lines text [] audios = none
from_lines text (c ∷ cs) [] = none
from_lines text (c ∷ cs) (m ∷ ms) =
    if same (last c cs) (b'$' ∷ [])
    then none
    else described text (last c cs) (last m ms).1 (atoi (last m ms).0)

-- `parseMediaDescription`
unfoldable pub parse_media_description : Bytes → Option MediaDescription
unfolding from_lines described telephone_event number_or_zero payloads keep_payload last connection
    audio rtpmap normalize_descriptor_sdp find_all is_address_byte is_line_byte
parse_media_description raw =
    let text = normalize_descriptor_sdp raw in
    from_lines text (find_all connection text) (find_all audio text)

before_ok : Option ℕ → Bool
before_ok none = true
before_ok (some c) = not (is_name_char c)

-- The body in braces behind a token of one byte, and how many bytes it ends behind.
braced : ℕ → Bytes → Option (Bytes × ℕ)
braced skipped [] = none
braced skipped (x ∷ xs) =
    let later = braced (suc skipped) xs in
    let here : Option (Bytes × ℕ) = elim (balanced_end (x ∷ xs)) [
      | none ↦ none
      | some end ↦ some (take (end - 1) xs, skipped + (end + 1))
    ] in
    if is_space x then later else if x == b'{' then here else none

-- The loop of `descriptorBodies`; `skipped` bytes are still to be passed over.
bodies_from : ℕ → ℕ → Option ℕ → Bytes → List Bytes
bodies_from token skipped before [] = []
bodies_from token (suc skipped) before (x ∷ xs) = bodies_from token skipped (some x) xs
bodies_from token zero before (x ∷ xs) =
    elim (if same (to_upper (x ∷ [])) (token ∷ []) && before_ok before then braced 0 xs else none) [
      | none ↦ bodies_from token zero (some x) xs
      | some (body, n) ↦ body ∷ bodies_from token n (some x) xs
    ]

-- `descriptorBodies`, for the tokens of one letter that the program asks for
unfoldable pub descriptor_bodies : Bytes → ℕ → List Bytes
unfolding bodies_from braced before_ok
descriptor_bodies raw token = bodies_from token 0 none raw

first_media : List Bytes → Option MediaDescription
first_media [] = none
first_media (body ∷ rest) = or_else (parse_media_description body) (first_media rest)

-- `ExtractRemoteMedia`
unfoldable pub extract_remote_media : Bytes → Option MediaDescription
unfolding first_media descriptor_bodies
extract_remote_media raw = first_media (descriptor_bodies raw b'R')

positive_payload : Option ℤ → Option ℕ
positive_payload none = none
positive_payload (some n) = if within 1 127 n then some (to_ℕ n) else none

payload_in : Option Bytes → Option ℕ
payload_in none = none
payload_in (some digits) = positive_payload (atoi digits)

first_payload : List Bytes → Option ℕ
first_payload [] = none
first_payload (body ∷ rest) =
    or_else (payload_in (find_match rtpmap none (normalize_descriptor_sdp body)))
      (first_payload rest)

-- `ExtractLocalTelephoneEventPayload`
unfoldable pub extract_local_telephone_event_payload : Bytes → Option ℕ
unfolding first_payload payload_in positive_payload rtpmap normalize_descriptor_sdp
    descriptor_bodies
extract_local_telephone_event_payload raw = first_payload (descriptor_bodies raw b'L')

samples :
    (event_request_id (lit "MF=aaln/1{ E = 2012{al/on,al/of}}") ≡ lit "2012")
    × (extract_remote_media (
          lit
            "A=$ {M{L{v=0},R{v=0\nc=IN IP4 192.0.2.9\nm=audio 4000 RTP/AVP 8 97\na=rtpmap:97 telephone-event/8000\n}}}")
        ≡ some (record {
          ip = lit "192.0.2.9";
          port = 4000;
          payload_types = 8 ∷ 97 ∷ [];
          telephone_event_payload = 97;
        }))
unfolding event_request_id extract_remote_media lit word same to_lower is_word star is_re_space
    capture_plus to_upper is_name_char is_space balanced_end parse_media_description replace_all
    plus atoi fields
samples = (refl, refl)
