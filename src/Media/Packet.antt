-- ===== src/Media/Packet.antt =====
-- RTP packets as bytes: the header's length, the payload type and its rewriting.
pub mod Laws
use megaco_sip_gateway.Prelude.{
  ℕ, ◌+◌, ◌*◌, ◌/◌, ◌%◌, ◌^◌, Bytes, Bool, true, false, not, ◌&&◌, ◌||◌, List, [], ◌∷◌, Option,
  none, some, ltb, ◌==◌, if◌then◌else◌, length, get_or, set, ℤ, pos, negsuc, within, to_ℕ,
}

-- `packet[i]`, read only behind a test of the length.
abbrev pub byte_at : Bytes → ℕ → ℕ
byte_at packet i = get_or packet i 0

-- `len(packet) >= 12 && packet[0]>>6 == 2`
abbrev pub is_rtp : Bytes → Bool
is_rtp packet = not (ltb (length packet) 12) && byte_at packet 0 / 64 == 2

-- `rtpPayloadType`, `none` for -1
unfoldable pub rtp_payload_type : Bytes → Option ℕ
rtp_payload_type packet = if is_rtp packet then some (byte_at packet 1 % 128) else none

-- `rewriteRTPPayloadType`; the packet that the slice holds afterwards.
unfoldable pub rewrite_rtp_payload_type : Bytes → ℤ → ℤ → Bytes
rewrite_rtp_payload_type packet source destination =
    if is_rtp packet
      && within 1 127 source
      && within 1 127 destination
      && byte_at packet 1 % 128 == to_ℕ source
    then set packet 1 (byte_at packet 1 / 128 * 128 + to_ℕ destination)
    else packet

-- `binary.BigEndian.Uint16(packet[i : i+2])`
abbrev pub uint16_at : Bytes → ℕ → ℕ
uint16_at packet i = byte_at packet i * 256 + byte_at packet (i + 1)

-- `binary.BigEndian.Uint32(packet[i : i+4])`
abbrev pub uint32_at : Bytes → ℕ → ℕ
uint32_at packet i = uint16_at packet i * 65536 + uint16_at packet (i + 2)

with_extension : Bytes → ℕ → Option ℕ
with_extension packet fixed =
    let whole = fixed + (4 + uint16_at packet (fixed + 2) * 4) in
    if ltb (length packet) (fixed + 4)
    then none
    else if ltb (length packet) whole
    then none
    else some whole

-- `rtpHeaderLength`
unfoldable pub rtp_header_length : Bytes → Option ℕ
unfolding with_extension
rtp_header_length packet =
    let fixed = 12 + byte_at packet 0 % 16 * 4 in
    if not (is_rtp packet)
    then none
    else if ltb (length packet) fixed
    then none
    else if byte_at packet 0 / 16 % 2 == 1
    then with_extension packet fixed
    else some fixed
