-- ===== src/Sip/Sdp.antt =====
-- internal/sip/sdp.go: session descriptions.
use megaco_sip_gateway.Prelude.{
  ℕ, zero, suc, Bytes, lit, same, is_empty, to_lower, to_upper, equal_fold, has_prefix, Bool, true,
  false, not, ◌||◌, List, [], ◌∷◌, ◌++◌, Option, none, some, ◌==◌, if◌then◌else◌, drop, ℤ, pos,
  negsuc, within, to_ℕ,
}
use megaco_sip_gateway.Prelude.Result.{Result, ok, err, ◌>>=◌}
use megaco_sip_gateway.Prelude.Decimal.{itoa, atoi}
use megaco_sip_gateway.Prelude.Strings.{
  trim_space, split_byte, fields, join, replace_all, before_any,
}

pub record Sdp : Type 0 where
  pub ip : Bytes
  pub port : ℕ
  pub codecs : List Bytes
  pub payload_types : List ℕ
  pub telephone_event_payload : ℤ
  pub packetization_time : ℤ
  pub direction : Bytes

pub data SdpError : Type 0 where
  invalid_port no_active_address : SdpError

-- The loop over `codecs`: payloads and rtpmap lines.
codec_lines : List Bytes → List Bytes × List Bytes
codec_lines [] = ([], [])
codec_lines (codec ∷ rest) =
    let more = codec_lines rest in
    let c = to_upper codec in
    if same c (lit "PCMA/8000")
    then (lit "8" ∷ more.0, lit "a=rtpmap:8 PCMA/8000" ∷ more.1)
    else if same c (lit "PCMU/8000")
    then (lit "0" ∷ more.0, lit "a=rtpmap:0 PCMU/8000" ∷ more.1)
    else if same c (lit "G729/8000") || same c (lit "G.729/8000")
    then (lit "18" ∷ more.0, lit "a=rtpmap:18 G729/8000" ∷ more.1)
    else more

or_default : List Bytes × List Bytes → List Bytes × List Bytes
or_default ([], maps) =
    (lit "8" ∷ lit "0" ∷ [], lit "a=rtpmap:8 PCMA/8000" ∷ lit "a=rtpmap:0 PCMU/8000" ∷ [])
or_default (p ∷ ps, maps) = (p ∷ ps, maps)

with_events : ℤ → List Bytes × List Bytes → List Bytes × List Bytes
with_events dtmf (payloads, maps) =
    let payload = itoa (to_ℕ dtmf) in
    if within 1 127 dtmf
    then (
      payloads ++ payload ∷ [],
      maps
          ++ (lit "a=rtpmap:" ++ (payload ++ lit " telephone-event/8000"))
            ∷ (lit "a=fmtp:" ++ (payload ++ lit " 0-16"))
            ∷ [],
    )
    else (payloads, maps)

ptime_line : ℤ → List Bytes
ptime_line (pos zero) = []
ptime_line (pos (suc n)) = (lit "a=ptime:" ++ itoa (suc n)) ∷ []
ptime_line (negsuc n) = []

-- `BuildSDPWithPTime`
unfoldable pub build_sdp_with_ptime : Bytes → Bytes → ℕ → List Bytes → ℤ → ℤ → Bytes
unfolding codec_lines or_default with_events ptime_line
build_sdp_with_ptime origin ip port codecs dtmf ptime =
    let (payloads, maps) = with_events dtmf (or_default (codec_lines codecs)) in
    join (lit "\r\n") (
      lit "v=0"
      ∷ (lit "o=" ++ (origin ++ (lit " 1 1 IN IP4 " ++ ip)))
      ∷ lit "s=H248-SIP Gateway"
      ∷ (lit "c=IN IP4 " ++ ip)
      ∷ lit "t=0 0"
      ∷ (lit "m=audio " ++ (itoa port ++ (lit " RTP/AVP " ++ join (b' ' ∷ []) payloads)))
      ∷ (maps ++ (ptime_line ptime ++ lit "a=sendrecv" ∷ [])))
    ++ lit "\r\n"

-- What the loop of `ParseSDP` keeps: `result`, `sessionIP`, `inAudio`, `rtpmap`.
record Reading : Type 0 where
  result : Sdp
  session_ip : Bytes
  in_audio : Bool
  mapping : List (ℤ × Bytes)

keep_payload : Option ℤ → List ℕ → List ℕ
keep_payload none rest = rest
keep_payload (some n) rest = if within 0 127 n then to_ℕ n ∷ rest else rest

payloads_of : List Bytes → List ℕ
payloads_of [] = []
payloads_of (value ∷ rest) = keep_payload (atoi value) (payloads_of rest)

audio_port : Reading → List Bytes → Option ℤ → Result SdpError Reading
audio_port r formats none = err invalid_port
audio_port r formats (some port) =
    if within 0 65535 port
    then ok (record r {
      result = record r.result {
        port = to_ℕ port;
        payload_types = r.result.payload_types ++ payloads_of formats;
      };
      in_audio = true;
    })
    else err invalid_port

media_line : Reading → List Bytes → Result SdpError Reading
media_line r (kind ∷ port ∷ transport ∷ format ∷ formats) =
    if equal_fold kind (lit "audio")
    then audio_port r (format ∷ formats) (atoi (before_any (b'/' ∷ []) port))
    else ok (record r { in_audio = false })
media_line r _ = ok (record r { in_audio = false })

connection_line : Reading → List Bytes → Reading
connection_line r (net ∷ kind ∷ address ∷ rest) =
    if equal_fold net (lit "IN")
    then (if r.in_audio
        then record r { result = record r.result { ip = address } }
        else record r { session_ip = address })
    else r
connection_line r _ = r

or_zero : Option ℤ → ℤ
or_zero none = pos 0
or_zero (some n) = n

map_codec : Reading → Bytes → Option ℤ → Reading
map_codec r codec none = r
map_codec r codec (some payload) = record r {
  mapping = (payload, codec) ∷ r.mapping;
  result =
      if has_prefix (to_lower codec) (lit "telephone-event/8000")
      then record r.result { telephone_event_payload = payload }
      else r.result;
}

rtpmap_line : Reading → List Bytes → Reading
rtpmap_line r (payload ∷ codec ∷ []) = map_codec r codec (atoi payload)
rtpmap_line r _ = r

is_direction : Bytes → Bool
is_direction s =
    same s (lit "sendrecv")
    || same s (lit "sendonly")
    || same s (lit "recvonly")
    || same s (lit "inactive")

attribute_line : Reading → Bytes → Reading
attribute_line r attribute =
    let lower = to_lower attribute in
    if is_direction lower
    then record r { result = record r.result { direction = lower } }
    else if has_prefix lower (lit "ptime:")
    then record r {
      result = record r.result {
        packetization_time = or_zero (atoi (trim_space (drop 6 attribute)));
      };
    }
    else if has_prefix lower (lit "rtpmap:")
    then rtpmap_line r (fields (trim_space (drop 7 attribute)))
    else r

-- One round of the loop, on a line without its blanks.
sdp_line : Reading → Bytes → Result SdpError Reading
sdp_line r line =
    if is_empty line
    then ok r
    else if has_prefix line (lit "m=")
    then media_line r (fields (drop 2 line))
    else if has_prefix (to_lower line) (lit "c=")
    then ok (connection_line r (fields (trim_space (drop 2 line))))
    else if not r.in_audio || not (has_prefix (to_lower line) (lit "a="))
    then ok r
    else ok (attribute_line r (trim_space (drop 2 line)))

sdp_lines : Reading → List Bytes → Result SdpError Reading
sdp_lines r [] = ok r
sdp_lines r (raw ∷ rest) = sdp_line r (trim_space raw) >>= λ r'. sdp_lines r' rest

-- `rtpmap[payload]`, the last that was set
mapped : ℕ → List (ℤ × Bytes) → Bytes
mapped p [] = []
mapped p ((pos n, codec) ∷ rest) = if n == p then codec else mapped p rest
mapped p ((negsuc n, codec) ∷ rest) = mapped p rest

unfoldable pub contains_codec_exactly : List Bytes → Bytes → Bool
contains_codec_exactly [] value = false
contains_codec_exactly (v ∷ vs) value = same v value || contains_codec_exactly vs value

-- `appendUnique`
unfoldable pub append_unique : List Bytes → Bytes → List Bytes
unfolding contains_codec_exactly
append_unique values value =
    if contains_codec_exactly values value then values else values ++ value ∷ []

with_codec : List Bytes → ℕ → Bytes → List Bytes
with_codec codecs payload codec =
    if payload == 8 || has_prefix codec (lit "PCMA/8000")
    then append_unique codecs (lit "PCMA/8000")
    else if payload == 0 || has_prefix codec (lit "PCMU/8000")
    then append_unique codecs (lit "PCMU/8000")
    else if payload == 18 || has_prefix codec (lit "G729/8000")
    then append_unique codecs (lit "G729/8000")
    else codecs

codecs_of : List Bytes → List (ℤ × Bytes) → List ℕ → List Bytes
codecs_of codecs mapping [] = codecs
codecs_of codecs mapping (p ∷ ps) =
    codecs_of (with_codec codecs p (to_upper (mapped p mapping))) mapping ps

finish : Reading → Result SdpError Sdp
finish r =
    let ip = if is_empty r.result.ip then r.session_ip else r.result.ip in
    if is_empty ip || r.result.port == 0
    then err no_active_address
    else ok (record r.result { ip = ip; codecs = codecs_of [] r.mapping r.result.payload_types })

abbrev at_start : Reading
at_start = record {
  result = record {
    ip = [];
    port = 0;
    codecs = [];
    payload_types = [];
    telephone_event_payload = pos 0;
    packetization_time = pos 0;
    direction = lit "sendrecv";
  };
  session_ip = [];
  in_audio = false;
  mapping = [];
}

-- `ParseSDP`
unfoldable pub parse_sdp : Bytes → Result SdpError Sdp
unfolding finish codecs_of with_codec append_unique mapped sdp_lines sdp_line attribute_line
    is_direction rtpmap_line map_codec or_zero connection_line media_line audio_port payloads_of
    keep_payload
parse_sdp body =
    sdp_lines at_start (split_byte b'\n' (replace_all body (lit "\r\n") (b'\n' ∷ []))) >>= finish
