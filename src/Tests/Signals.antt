-- ===== src/Tests/Signals.antt =====
-- Media and names.
use megaco_sip_gateway.Prelude.{
  negsuc, to_lower, ◌≤◌, ◌+◌, ◌*◌, ◌%◌, ◌^◌, Bytes, lit, same, true, [], ◌∷◌, ◌≡◌, refl, arith, pos,
  length,
}
use megaco_sip_gateway.Prelude.Regex.{find_match, word, is_word, star, is_re_space, capture_plus}
use megaco_sip_gateway.Prelude.Strings.{trim}
use megaco_sip_gateway.Prelude.Decimal.{parse_digits}
use megaco_sip_gateway.Media.Packet.{
  uint32_at, is_rtp, rtp_payload_type, rewrite_rtp_payload_type, rtp_header_length,
}
use megaco_sip_gateway.Media.Packet.Laws.{Rewritten, rewrite-Rewritten, rtp_header_length_bounds}
use megaco_sip_gateway.Media.Relay.{translated, MediaRelay, new_relay, forward, h248}
use megaco_sip_gateway.Media.Tone.{
  silent, Wave, ToneState, synthesize, dtmf_frequencies, tone_state, tone_header, samples,
}
use megaco_sip_gateway.Media.Tone.Laws.{Voiced, synthesize-Voiced, timestamp_advances}
use megaco_sip_gateway.Media.Relay.Laws.{forward_learns}
use megaco_sip_gateway.Media.Alaw.{
  linear_to_alaw, received, played, size, is_negative, received_small, received_loud,
}
use megaco_sip_gateway.H248.Message.{is_command, canonical_command, compact_command}
use megaco_sip_gateway.H248.Message.Names.{canonical-compact}
use megaco_sip_gateway.H248.Interop.CallerId.{
  valid_caller_id_timestamp, decode_andisp_caller_id, all_digits, decoded_caller_lem,
}
use megaco_sip_gateway.Net.{UdpAddr}
use megaco_sip_gateway.Tests.Data.{home}

-- An RTP packet of payload type 101 with four bytes of an event
abbrev packet : Bytes
packet = 128 ∷ 229 ∷ 0 ∷ 1 ∷ 0 ∷ 0 ∷ 0 ∷ 9 ∷ 1 ∷ 2 ∷ 3 ∷ 4 ∷ 5 ∷ 10 ∷ 0 ∷ 160 ∷ []

rewrite-Rewritten_example :
    Rewritten packet (rewrite_rtp_payload_type packet (pos 101) (pos 102)) 101 102
rewrite-Rewritten_example =
    rewrite-Rewritten packet 101 102 refl (omega arith) (omega arith) (omega arith) (omega arith)

rtp_header_length_bounds_example :
    (12 ≤ 12) × (12 ≤ length packet) × (12 % 4 ≡ 0) × (is_rtp packet ≡ true)
unfolding rtp_header_length
rtp_header_length_bounds_example = rtp_header_length_bounds packet {n = 12} refl

abbrev pbx : UdpAddr
pbx = record { ip = lit "192.0.2.9"; port = 30000 }

abbrev relay : MediaRelay
relay = new_relay (pos 102) (pos 101) (lit "rfc4733") (pos 20)

forward_learns_example : home ≡ home
unfolding lit rewrite_rtp_payload_type rtp_payload_type forward translated new_relay same
forward_learns_example =
    forward_learns (λ low high k. pos 0) h248 home pbx packet (lit "x") true true silent silent
      relay (lit "x") home refl

received_small_example :
    (is_negative (played (negsuc 39)) ≡ true)
    × (size (played (negsuc 39)) ≤ 40 + 15)
    × (40 ≤ size (played (negsuc 39)) + 15)
received_small_example = received_small (negsuc 39) (omega arith)

received_loud_example : 2 * 3000 ≤ received 3000
received_loud_example = received_loud 3000 (omega arith) (omega arith)

canonical-compact_example :
    (canonical_command (compact_command (lit "Subtract")) ≡ lit "Subtract")
    × (canonical_command (lit "Subtract") ≡ lit "Subtract")
unfolding is_command lit same
canonical-compact_example = canonical-compact (lit "Subtract") refl

-- `andisp` with a record of date, time and number
abbrev caller : Bytes
caller = lit "SG{andisp/dwa{ddb=80150102303131353132303002083133383030313338}}"

decoded_caller_lem_example :
    (all_digits (decode_andisp_caller_id caller) ≡ true)
    × (3 ≤ length (decode_andisp_caller_id caller))
    × (length (decode_andisp_caller_id caller) ≤ 20)
unfolding decode_andisp_caller_id lit find_match word same to_lower is_word star is_re_space
    capture_plus trim all_digits valid_caller_id_timestamp parse_digits
decoded_caller_lem_example = decoded_caller_lem caller refl

abbrev flat : Wave
flat = λ low high k. pos 0

abbrev voice : Bytes
voice = 128 ∷ 136 ∷ 0 ∷ 1 ∷ 0 ∷ 0 ∷ 0 ∷ 9 ∷ 1 ∷ 2 ∷ 3 ∷ 4 ∷ 213 ∷ 213 ∷ []

abbrev sounding : ToneState
sounding = record {
  active = true;
  event = 5;
  ssrc = 16909060;
  event_timestamp = 9;
  samples_generated = 2;
}

synthesize-Voiced_example : Voiced packet silent 2 sounding voice
unfolding synthesize rtp_header_length dtmf_frequencies tone_state tone_header samples
    linear_to_alaw
synthesize-Voiced_example = synthesize-Voiced flat packet silent sounding 2 voice refl

-- The event goes on: no marker, and the same time.
abbrev next_packet : Bytes
next_packet = 128 ∷ 101 ∷ 0 ∷ 2 ∷ 0 ∷ 0 ∷ 0 ∷ 9 ∷ 1 ∷ 2 ∷ 3 ∷ 4 ∷ 5 ∷ 10 ∷ 0 ∷ 162 ∷ []

abbrev next_voice : Bytes
next_voice = 128 ∷ 8 ∷ 0 ∷ 2 ∷ 0 ∷ 0 ∷ 0 ∷ 11 ∷ 1 ∷ 2 ∷ 3 ∷ 4 ∷ 213 ∷ 213 ∷ []

timestamp_advances_example : uint32_at next_voice 4 ≡ (uint32_at voice 4 + 2) % 2 ^ 32
unfolding synthesize rtp_header_length dtmf_frequencies tone_state tone_header samples
    linear_to_alaw
timestamp_advances_example =
    timestamp_advances flat packet next_packet silent sounding
      (record sounding { samples_generated = 4 }) 2 voice next_voice 12 refl refl refl refl
