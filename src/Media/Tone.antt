-- ===== src/Media/Tone.antt =====
-- `synthesizeTelephoneEventAsPCMA` and `dtmfFrequencies` of internal/bridge/media.go. A byte is
-- below 256; a `uint32` wraps by `% 2 ^ 32`.
pub mod Laws
use megaco_sip_gateway.Prelude.{
  ℕ, zero, suc, ◌+◌, ◌-◌, ◌*◌, ◌/◌, ◌%◌, ◌^◌, Bytes, Bool, true, false, not, ◌&&◌, ◌||◌, List, [],
  ◌∷◌, ◌++◌, Option, none, some, ltb, ◌==◌, if◌then◌else◌, length, get_elem?, take, drop, set, ℤ,
}
use megaco_sip_gateway.Media.Packet.{byte_at, uint32_at, rtp_header_length}
use megaco_sip_gateway.Media.Alaw.{linear_to_alaw}

abbrev frequencies : List (ℕ × ℕ)
frequencies =
    (941, 1336)
    ∷ (697, 1209)
    ∷ (697, 1336)
    ∷ (697, 1477)
    ∷ (770, 1209)
    ∷ (770, 1336)
    ∷ (770, 1477)
    ∷ (852, 1209)
    ∷ (852, 1336)
    ∷ (852, 1477)
    ∷ (941, 1209)
    ∷ (941, 1477)
    ∷ (697, 1633)
    ∷ (770, 1633)
    ∷ (852, 1633)
    ∷ (941, 1633)
    ∷ []

-- `dtmfFrequencies`
unfoldable pub dtmf_frequencies : ℕ → Option (ℕ × ℕ)
dtmf_frequencies event = get_elem? frequencies event

pub record ToneState : Type 0 where
  pub active : Bool
  pub event : ℕ
  pub ssrc : ℕ
  pub event_timestamp : ℕ
  pub samples_generated : ℕ

abbrev pub silent : ToneState
silent = record { active = false; event = 0; ssrc = 0; event_timestamp = 0; samples_generated = 0 }

-- `binary.BigEndian.PutUint32(out[4:8], value)`
abbrev put_uint32_at_4 : ℕ → Bytes → Bytes
put_uint32_at_4 value out =
    set
      (set (set (set out 4 (value / 16777216 % 256)) 5 (value / 65536 % 256)) 6 (value / 256 % 256))
      7 (value % 256)

-- The marker bit is set, or the event is another one.
abbrev restarts : ToneState → Bytes → ℕ → Bool
restarts state packet event =
    not state.active
    || byte_at packet 1 / 128 == 1
    || not (state.event == event)
    || not (state.ssrc == uint32_at packet 8)
    || not (state.event_timestamp == uint32_at packet 4)

unfoldable pub tone_state : ToneState → Bytes → ℕ → ToneState
tone_state state packet event =
    if restarts state packet event
    then record {
      active = true;
      event = event;
      ssrc = uint32_at packet 8;
      event_timestamp = uint32_at packet 4;
      samples_generated = 0;
    }
    else state

-- The bytes of the header that are written, in the copy of the packet's header.
unfoldable pub tone_header : Bytes → ToneState → Bytes
tone_header copied state =
    put_uint32_at_4 ((state.event_timestamp + state.samples_generated) % 2 ^ 32) (
      set (set copied 0 (byte_at copied 0 - byte_at copied 0 / 32 % 2 * 32)) 1
        (byte_at copied 1 / 128 * 128 + 8))

-- The sum of two sines, rounded to a 16-bit sample, at an index: floating point, not modelled.
abbrev pub Wave : Type 0
Wave = ℕ → ℕ → ℕ → ℤ

unfoldable pub samples : Wave → ℕ → ℕ → ℕ → ℕ → Bytes
samples wave low high start zero = []
samples wave low high start (suc n) =
    linear_to_alaw (wave low high (start % 2 ^ 32)) ∷ samples wave low high (start + 1) n

voiced : Wave → Bytes → ToneState → ℕ → ℕ → ℕ → ℕ → ToneState × Option Bytes
voiced wave packet state samples_per_packet header low high = (
  record state { samples_generated = (state.samples_generated + samples_per_packet) % 2 ^ 32 },
  some (
      tone_header (take header packet) state
      ++ samples wave low high state.samples_generated samples_per_packet),
)

for_event : Wave → Bytes → ToneState → ℕ → ℕ → ℕ → Option (ℕ × ℕ) → ToneState × Option Bytes
for_event wave packet state samples_per_packet header event none = (state, none)
for_event wave packet state samples_per_packet header event (some (low, high)) =
    voiced wave packet (tone_state state packet event) samples_per_packet header low high

with_header : Wave → Bytes → ToneState → ℕ → Option ℕ → ToneState × Option Bytes
with_header wave packet state samples_per_packet none = (state, none)
with_header wave packet state samples_per_packet (some header) =
    if ltb (length packet) (header + 4) || samples_per_packet == 0
    then (state, none)
    else for_event wave packet state samples_per_packet header (byte_at packet header)
        (dtmf_frequencies (byte_at packet header))

-- `synthesizeTelephoneEventAsPCMA`
unfoldable pub synthesize : Wave → Bytes → ToneState → ℕ → ToneState × Option Bytes
unfolding with_header for_event voiced
synthesize wave packet state samples_per_packet =
    with_header wave packet state samples_per_packet (rtp_header_length packet)
