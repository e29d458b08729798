-- ===== src/Media/Tone/Laws.antt =====
-- What the synthesized packets look like to the carrier.
use megaco_sip_gateway.Prelude.{
  ℕ, zero, suc, ◌+◌, ◌*◌, ◌/◌, ◌%◌, ◌^◌, ◌≤◌, ◌<◌, Bytes, false, ◌∷◌, ◌++◌, Option, none, some,
  length, length-append, length-set, length-take, get_or-set_self, get_or-take, take, ◌≡◌, refl,
  ◌∙◌, arith,
}
use megaco_sip_gateway.Media.Packet.{byte_at, uint32_at, rtp_header_length}
use megaco_sip_gateway.Media.Packet.Laws.{rtp_header_length_bounds}
use megaco_sip_gateway.Media.Tone.{
  ToneState, restarts, tone_state, tone_header, put_uint32_at_4, Wave, samples, voiced, for_event,
  with_header, synthesize, dtmf_frequencies,
}

length-samples : (wave : Wave) (low high start n : ℕ) → length (samples wave low high start n) ≡ n
unfolding samples
length-samples wave low high start zero = refl
length-samples wave low high start (suc n) =
    omega (arith, length-samples wave low high (start + 1) n)

length-tone_header :
    (copied : Bytes) (st : ToneState) → length (tone_header copied st) ≡ length copied
unfolding tone_header
length-tone_header copied st = simp length-set

ruleset writes = (get_or-set_self, length-set)

-- The timestamp that a header carries.
stamp : ToneState → ℕ
stamp st = (st.event_timestamp + st.samples_generated) % 2 ^ 32

uint32-put :
    (out : Bytes) (value : ℕ)
    → 12 ≤ length out
    → value < 2 ^ 32
    → uint32_at (put_uint32_at_4 value out) 4 ≡ value
uint32-put (a0 ∷ a1 ∷ a2 ∷ a3 ∷ a4 ∷ a5 ∷ a6 ∷ a7 ∷ rest) value h v = omega arith
uint32-put _ value h v = absurd (omega arith)

byte_1-put : (out : Bytes) (value : ℕ) → byte_at (put_uint32_at_4 value out) 1 ≡ byte_at out 1
byte_1-put (a0 ∷ a1 ∷ a2 ∷ a3 ∷ a4 ∷ a5 ∷ a6 ∷ a7 ∷ rest) value = refl
byte_1-put _ value = refl

-- The synthesized packet has the header's length and one byte for a sample, payload type 8 (PCMA),
-- the marker of its packet, and the time of the event plus the samples sent for it.
pub record Voiced (packet : Bytes) (state : ToneState) (n : ℕ) (state' : ToneState) (out : Bytes)
    : Type 0 where
  pub header : ℕ
  pub header_is : rtp_header_length packet ≡ some header
  pub length_is : length out ≡ header + n
  pub payload : byte_at out 1 % 128 ≡ 8
  pub marker : byte_at out 1 / 128 ≡ byte_at packet 1 / 128
  pub timestamp :
      uint32_at out 4
      ≡ ((tone_state state packet (byte_at packet header)).event_timestamp
          + (tone_state state packet (byte_at packet header)).samples_generated)
        % 2 ^ 32
  pub next_state : state' ≡ record (tone_state state packet (byte_at packet header)) {
    samples_generated =
        ((tone_state state packet (byte_at packet header)).samples_generated + n) % 2 ^ 32;
  }

uint32-append : (xs ys : Bytes) → 12 ≤ length xs → uint32_at (xs ++ ys) 4 ≡ uint32_at xs 4
uint32-append (a0 ∷ a1 ∷ a2 ∷ a3 ∷ a4 ∷ a5 ∷ a6 ∷ a7 ∷ rest) ys h = refl
uint32-append _ ys h = absurd (omega arith)

byte_1-append : (xs ys : Bytes) → 12 ≤ length xs → byte_at (xs ++ ys) 1 ≡ byte_at xs 1
byte_1-append (a0 ∷ a1 ∷ rest) ys h = refl
byte_1-append _ ys h = absurd (omega arith)

byte_1-tone_header :
    (copied : Bytes) (st : ToneState)
    → 12 ≤ length copied
    → byte_at (tone_header copied st) 1 ≡ byte_at copied 1 / 128 * 128 + 8
unfolding tone_header
byte_1-tone_header (a0 ∷ a1 ∷ rest) st h = refl
byte_1-tone_header _ st h = absurd (omega arith)

uint32-tone_header :
    (copied : Bytes) (st : ToneState)
    → 12 ≤ length copied
    → uint32_at (tone_header copied st) 4 ≡ stamp st
unfolding tone_header stamp
uint32-tone_header copied st h = uint32-put _ _ (rw length-set (rw length-set h)) (omega arith)

voiced-Voiced :
    (wave : Wave) (packet : Bytes) (state state' : ToneState) (n header low high : ℕ) (out : Bytes)
    → rtp_header_length packet ≡ some header
    → voiced wave packet (tone_state state packet (byte_at packet header)) n header low high
      ≡ (state', some out)
    → Voiced packet state n state' out
unfolding voiced stamp
voiced-Voiced wave packet state state' n header low high out e h =
    let (long, fits, _, _) = rtp_header_length_bounds packet e in
    let st = tone_state state packet (byte_at packet header) in
    let copied = take header packet in
    let len : length copied ≡ header = length-take header packet fits in
    let long' : 12 ≤ length copied = omega (arith, len, long) in
    let long'' : 12 ≤ length (tone_header copied st) =
      omega (arith, long', length-tone_header copied st) in
    let voice = samples wave low high st.samples_generated n in
    let out_is : out ≡ tone_header copied st ++ voice = cc in
    let first : byte_at out 1 ≡ byte_at packet 1 / 128 * 128 + 8 = rw out_is (
      byte_1-append (tone_header copied st) voice long''
      ∙ byte_1-tone_header copied st long'
      ∙ rw (get_or-take header packet 1 0 (omega arith))) in
    record {
      header = header;
      header_is = e;
      length_is = rw out_is (
          length-append (tone_header copied st) voice
          ∙ omega (
            arith,
            length-tone_header copied st,
            len,
            length-samples wave low high st.samples_generated n,
          ));
      payload = omega (arith, first);
      marker = omega (arith, first);
      timestamp =
          rw out_is (
            uint32-append (tone_header copied st) voice long''
            ∙ uint32-tone_header copied st long');
      next_state = cc;
    }

-- A packet that is synthesized from an RTP packet of a telephone event has that packet's header
-- length and then one byte for each sample; its payload type is 8 (PCMA), its marker bit is the
-- packet's, and its timestamp is the time of the event plus the samples sent for it, modulo 2 ^
-- 32; the state counts the new samples.
pub synthesize-Voiced :
    (wave : Wave) (packet : Bytes) (state state' : ToneState) (n : ℕ) (out : Bytes)
    → synthesize wave packet state n ≡ (state', some out)
    → Voiced packet state n state' out
unfolding synthesize
synthesize-Voiced wave packet state state' n out h = with_length (rtp_header_length packet) refl h
  where
    with_length :
        (o : Option ℕ)
        → rtp_header_length packet ≡ o
        → with_header wave packet state n o ≡ (state', some out)
        → Voiced packet state n state' out
    with_length none e h = cc
    with_length (some header) e h =
        with_tone (dtmf_frequencies (byte_at packet header)) (ground (arith, h))
      where
        with_tone :
            (o : Option (ℕ × ℕ))
            → for_event wave packet state n header (byte_at packet header) o ≡ (state', some out)
            → Voiced packet state n state' out
        with_tone none h = cc
        with_tone (some (low, high)) h =
            voiced-Voiced wave packet state state' n header low high out e h

-- Of two packets that are synthesized one after the other, the second one of the same event, the
-- second timestamp is the first one plus the samples of a packet, modulo 2 ^ 32.
pub timestamp_advances :
    (wave : Wave) (first second : Bytes) (s0 s1 s2 : ToneState) (n : ℕ) (out1 out2 : Bytes)
    (header : ℕ)
    → synthesize wave first s0 n ≡ (s1, some out1)
    → synthesize wave second s1 n ≡ (s2, some out2)
    → rtp_header_length second ≡ some header
    → restarts s1 second (byte_at second header) ≡ false
    → uint32_at out2 4 ≡ (uint32_at out1 4 + n) % 2 ^ 32
unfolding tone_state
timestamp_advances wave first second s0 s1 s2 n out1 out2 header h1 h2 e r =
    let v1 = synthesize-Voiced wave first s0 s1 n out1 h1 in
    let v2 = synthesize-Voiced wave second s1 s2 n out2 h2 in
    let same_header : v2.header ≡ header = cc (v2.header_is, e) in
    let kept : tone_state s1 second (byte_at second v2.header) ≡ s1 = rw same_header (rw r) in
    let later : uint32_at out2 4 ≡ (s1.event_timestamp + s1.samples_generated) % 2 ^ 32 =
      rw kept at v2.timestamp in
    let st = tone_state s0 first (byte_at first v1.header) in
    let time : s1.event_timestamp ≡ st.event_timestamp = rw v1.next_state in
    let count : s1.samples_generated ≡ (st.samples_generated + n) % 2 ^ 32 = rw v1.next_state in
    let earlier : uint32_at out1 4 ≡ (st.event_timestamp + st.samples_generated) % 2 ^ 32 =
      v1.timestamp in
    omega (arith, later, time, count, earlier)
