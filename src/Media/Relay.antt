-- ===== src/Media/Relay.antt =====
-- The relay's state: peers, payload types, counters and the sockets' life.
pub mod Laws
use megaco_sip_gateway.Prelude.{
  ℕ, ◌+◌, ◌*◌, ◌<◌, Bytes, lit, same, Bool, true, false, not, ◌&&◌, ◌||◌, List, [], ◌∷◌, Option,
  none, some, ltb, leb, ◌==◌, if◌then◌else◌, ℤ, pos, negsuc, within,
}
use megaco_sip_gateway.Net.{UdpAddr}
use megaco_sip_gateway.Media.Packet.{rtp_payload_type, rewrite_rtp_payload_type}
use megaco_sip_gateway.Media.Tone.{ToneState, Wave, synthesize}

pub data Side : Type 0 where
  h248 sip : Side

-- The fields of `mediaRelay` that change the forwarding. The sockets are `open_`.
pub record MediaRelay : Type 0 where
  pub open_ : Bool
  pub h248_peer : Option UdpAddr
  pub sip_peer : Option UdpAddr
  pub h248_rtcp_peer : Option UdpAddr
  pub sip_rtcp_peer : Option UdpAddr
  pub h248_dtmf : ℤ
  pub sip_dtmf : ℤ
  pub h248_dtmf_mode : Bytes
  pub dtmf_samples : ℕ
  pub h248_to_sip : ℕ
  pub sip_to_h248 : ℕ
  pub h248_rtcp_to_sip : ℕ
  pub sip_rtcp_to_h248 : ℕ

-- `packetizationTimeMillis * 8`, 160 where that is not positive
abbrev samples_of : ℤ → ℕ
samples_of (pos n) = if n * 8 == 0 then 160 else n * 8
samples_of (negsuc n) = 160

-- `newMediaRelay`, once its four sockets are open
unfoldable pub new_relay : ℤ → ℤ → Bytes → ℤ → MediaRelay
new_relay h248_dtmf sip_dtmf mode packetization_time = record {
  open_ = true;
  h248_peer = none;
  sip_peer = none;
  h248_rtcp_peer = none;
  sip_rtcp_peer = none;
  h248_dtmf = h248_dtmf;
  sip_dtmf = sip_dtmf;
  h248_dtmf_mode = mode;
  dtmf_samples = samples_of packetization_time;
  h248_to_sip = 0;
  sip_to_h248 = 0;
  h248_rtcp_to_sip = 0;
  sip_rtcp_to_h248 = 0;
}

-- `adjacentRTCPAddr`
unfoldable pub adjacent_rtcp_addr : Option UdpAddr → Option UdpAddr
adjacent_rtcp_addr none = none
adjacent_rtcp_addr (some rtp) =
    if rtp.port == 0 || leb 65535 rtp.port then none else some (record rtp { port = rtp.port + 1 })

-- `SetH248Peer`
unfoldable pub set_h248_peer : Option UdpAddr → ℤ → MediaRelay → MediaRelay
set_h248_peer peer payload r = record r {
  h248_peer = peer;
  h248_rtcp_peer = adjacent_rtcp_addr peer;
  h248_dtmf = if within 1 127 payload then payload else r.h248_dtmf;
}

-- `SetSIPPeer`
unfoldable pub set_sip_peer : Option UdpAddr → ℤ → MediaRelay → MediaRelay
set_sip_peer peer payload r = record r {
  sip_peer = peer;
  sip_rtcp_peer = adjacent_rtcp_addr peer;
  sip_dtmf = if within 1 127 payload then payload else r.sip_dtmf;
}

-- `SetH248DTMFPayloadType`
unfoldable pub set_h248_dtmf_payload_type : ℤ → MediaRelay → MediaRelay
set_h248_dtmf_payload_type payload r =
    if within 1 127 payload then record r { h248_dtmf = payload } else r

-- `Close`; the second call does nothing.
unfoldable pub close : MediaRelay → MediaRelay
close r = record r { open_ = false }

-- `forwardingState` for a datagram from an observed source: the peer to write to, and the payload
-- types of the source's side and of the other.
unfoldable pub forwarding_state : Side → UdpAddr → MediaRelay → Option UdpAddr × ℤ × ℤ × MediaRelay
forwarding_state h248 source r =
    (r.sip_peer, r.h248_dtmf, r.sip_dtmf, record r { h248_peer = some source })
forwarding_state sip source r =
    (r.h248_peer, r.sip_dtmf, r.h248_dtmf, record r { sip_peer = some source })

-- `rtcpForwardingState`
unfoldable pub rtcp_forwarding_state : Side → UdpAddr → MediaRelay → Option UdpAddr × MediaRelay
rtcp_forwarding_state h248 source r = (r.sip_rtcp_peer, record r { h248_rtcp_peer = some source })
rtcp_forwarding_state sip source r = (r.h248_rtcp_peer, record r { sip_rtcp_peer = some source })

count_rtp : Side → MediaRelay → MediaRelay
count_rtp h248 r = record r { h248_to_sip = r.h248_to_sip + 1 }
count_rtp sip r = record r { sip_to_h248 = r.sip_to_h248 + 1 }

count_rtcp : Side → MediaRelay → MediaRelay
count_rtcp h248 r = record r { h248_rtcp_to_sip = r.h248_rtcp_to_sip + 1 }
count_rtcp sip r = record r { sip_rtcp_to_h248 = r.sip_rtcp_to_h248 + 1 }

abbrev pub Sent : Type 0
Sent = Option (Bytes × UdpAddr)

-- `written` is whether the write of the datagram succeeds.
rtcp_to : Side → Bytes → Bool → Option UdpAddr → MediaRelay → Sent × MediaRelay
rtcp_to side packet written none r = (none, r)
rtcp_to side packet written (some peer) r =
    (some (packet, peer), (if written then count_rtcp side r else r))

-- One round of `forwardRTCP`
unfoldable pub forward_rtcp : Side → UdpAddr → Bytes → Bool → MediaRelay → Sent × MediaRelay
unfolding rtcp_to count_rtcp rtcp_forwarding_state
forward_rtcp side source packet written r =
    let (peer, r') = rtcp_forwarding_state side source r in rtcp_to side packet written peer r'

-- `rtpPayloadType(packet) == sourceDTMF`; -1 is the type of what is no RTP packet.
is_payload : Option ℕ → ℤ → Bool
is_payload none (negsuc n) = n == 0
is_payload none (pos n) = false
is_payload (some p) (pos n) = p == n
is_payload (some p) (negsuc n) = false

in_band : Side → MediaRelay → Bool
in_band h248 r = false
in_band sip r = same r.h248_dtmf_mode (lit "inband")

-- The datagram for the other side, none where it is swallowed, and the tone of the source.
unfoldable pub translated :
    Wave → Side → Bytes → ℤ → ℤ → ToneState → MediaRelay → ToneState × Option Bytes
unfolding is_payload in_band
translated wave side packet source destination tone r =
    if in_band side r && is_payload (rtp_payload_type packet) source
    then synthesize wave packet tone r.dtmf_samples
    else (tone, some (rewrite_rtp_payload_type packet source destination))

rtp_to : Side → Bool → UdpAddr → Option Bytes → MediaRelay → Sent × MediaRelay
rtp_to side written peer none r = (none, r)
rtp_to side written peer (some packet) r =
    (some (packet, peer), (if written then count_rtp side r else r))

rtp_from :
    Wave
    → Side
    → Bytes
    → Bool
    → ToneState
    → Option UdpAddr × ℤ × ℤ × MediaRelay
    → Sent × ToneState × MediaRelay
rtp_from wave side packet written tone (none, source, destination, r) = (none, tone, r)
rtp_from wave side packet written tone (some peer, source, destination, r) =
    let (tone', out) = translated wave side packet source destination tone r in
    let (sent, r') = rtp_to side written peer out r in (sent, tone', r')

-- One round of `forward`
unfoldable pub forward :
    Wave → Side → UdpAddr → Bytes → Bool → ToneState → MediaRelay → Sent × ToneState × MediaRelay
unfolding rtp_from rtp_to count_rtp forwarding_state
forward wave side source packet written tone r =
    rtp_from wave side packet written tone (forwarding_state side source r)
