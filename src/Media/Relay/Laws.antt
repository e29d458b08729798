-- ===== src/Media/Relay/Laws.antt =====
-- Symmetric peers, RTCP beside RTP, and what the relay forwards.
use megaco_sip_gateway.Prelude.{Bytes, Bool, Option, some, ◌≡◌, refl, sym, ◌∙◌, arith}
use megaco_sip_gateway.Net.{UdpAddr}
use megaco_sip_gateway.Media.Tone.{ToneState, Wave}
use megaco_sip_gateway.Media.Relay.{Side, h248, sip, MediaRelay, forward}

abbrev other : Side → Side
other h248 = sip
other sip = h248

other-other : (side : Side) → other (other side) ≡ side
other-other h248 = refl
other-other sip = refl

some-eq {ℓ} : {A : Type ℓ} {a b : A} → some a ≡ some b → a ≡ b
some-eq h = cc

abbrev pub peer_of : Side → MediaRelay → Option UdpAddr
peer_of h248 r = r.h248_peer
peer_of sip r = r.sip_peer

learned :
    (wave : Wave) (side : Side) (source : UdpAddr) (packet : Bytes) (w : Bool) (tone : ToneState)
    (r : MediaRelay)
    → peer_of side (forward wave side source packet w tone r).2 ≡ some source
unfolding forward
learned wave h248 source packet w tone r = ground arith
learned wave sip source packet w tone r = ground arith

target_lem :
    (wave : Wave) (side : Side) (source : UdpAddr) (packet out : Bytes) (w : Bool)
    (tone : ToneState) (r : MediaRelay) (target : UdpAddr)
    → (forward wave side source packet w tone r).0 ≡ some (out, target)
    → peer_of (other side) r ≡ some target
unfolding forward
target_lem wave h248 source packet out w tone r target h = ground arith
target_lem wave sip source packet out w tone r target h = ground arith

-- After a datagram that a relay has read from a source, whatever the other side sends next goes
-- to that source, if it is sent: the peer of a side is the last source seen there, and not the
-- one that was set before.
pub forward_learns :
    (wave : Wave) (side : Side) (source back : UdpAddr) (packet reply : Bytes) (w w' : Bool)
    (tone tone' : ToneState) (r : MediaRelay) (out : Bytes) (target : UdpAddr)
    → (forward wave (other side) back reply w' tone' (forward wave side source packet w tone r).2).0
      ≡ some (out, target)
    → target ≡ source
forward_learns wave side source back packet reply w w' tone tone' r out target h =
    let sent =
      target_lem wave (other side) back reply out w' tone'
        (forward wave side source packet w tone r).2 target h in
    some-eq (sym sent ∙ rw other-other (learned wave side source packet w tone r))
