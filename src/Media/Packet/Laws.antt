-- ===== src/Media/Packet/Laws.antt =====
-- About the RTP packet functions of internal/bridge/media.go.
use megaco_sip_gateway.Prelude.{
  ℕ, ◌/◌, ◌%◌, ◌≤◌, ◌<◌, Bytes, true, [], ◌∷◌, some, ◌==◌, if◌then◌else◌, length, drop, pos, ◌≡◌,
  arith,
}
use megaco_sip_gateway.Media.Packet.{
  byte_at, is_rtp, rtp_payload_type, rewrite_rtp_payload_type, rtp_header_length,
}

-- An RTP packet keeps its length, its first byte, its marker bit and all bytes behind the second,
-- and its payload type is the destination's exactly if it was the source's.
pub record Rewritten (packet out : Bytes) (source destination : ℕ) : Type 0 where
  pub same_length : length out ≡ length packet
  pub same_first : byte_at out 0 ≡ byte_at packet 0
  pub same_marker : byte_at out 1 / 128 ≡ byte_at packet 1 / 128
  pub same_rest : drop 2 out ≡ drop 2 packet
  pub payload :
      rtp_payload_type out
      ≡ (if byte_at packet 1 % 128 == source then some destination else rtp_payload_type packet)

-- The payload type of an RTP packet is rewritten from source to destination where it is the
-- source's, for payload types from 1 to 127; its length, marker and other bytes stay.
pub rewrite-Rewritten :
    (packet : Bytes) (source destination : ℕ)
    → is_rtp packet ≡ true
    → 0 < source
    → source < 128
    → 0 < destination
    → destination < 128
    → Rewritten packet
        (rewrite_rtp_payload_type packet (pos source) (pos destination))
        source
        destination
unfolding rewrite_rtp_payload_type rtp_payload_type
rewrite-Rewritten [] s d r s0 s1 d0 d1 = cc
rewrite-Rewritten (x ∷ []) s d r s0 s1 d0 d1 = ground arith
rewrite-Rewritten (x ∷ y ∷ rest) s d r s0 s1 d0 d1 = record {
  same_length = ground arith;
  same_first = ground arith;
  same_marker = ground arith;
  same_rest = ground arith;
  payload = ground arith;
}

-- A header's length that is found covers the fixed part, lies in the packet and is a multiple of
-- 4, also with an extension, and the packet is an RTP packet.
pub rtp_header_length_bounds :
    (packet : Bytes) {n : ℕ}
    → rtp_header_length packet ≡ some n
    → (12 ≤ n) × (n ≤ length packet) × (n % 4 ≡ 0) × (is_rtp packet ≡ true)
unfolding rtp_header_length
rtp_header_length_bounds packet h = (ground arith, ground arith, ground arith, ground arith)
