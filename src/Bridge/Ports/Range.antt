-- ===== src/Bridge/Ports/Range.antt =====
-- The RTP ports of a call, under a configuration that `Validate` accepts.
use megaco_sip_gateway.Prelude.{
  ℕ, ◌+◌, ◌%◌, ◌≤◌, true, false, none, ◌==◌, if◌then◌else◌, ℤ, pos, negsuc, exceeds, ◌≡◌, ◌≢◌, ◌⊎◌,
  arith, inl, inr, Bool-cases,
}
use megaco_sip_gateway.Net.{Resolver}
use megaco_sip_gateway.Config.{Config}
use megaco_sip_gateway.Config.Validate.{validate}
use megaco_sip_gateway.Config.Sound.Conditions.{Ports}
use megaco_sip_gateway.Config.Sound.{validate_iff}
use megaco_sip_gateway.Bridge.State.{Bridge}
use megaco_sip_gateway.Bridge.Ports.{
  normalize_even_port, next_rtp_port, Identifiers, allocate_call_identifiers,
}

-- An even port of the range, whose RTCP port is below 65535.
pub record InRange (low high : ℤ) (port : ℕ) : Type 0 where
  pub even : port % 2 ≡ 0
  pub above : exceeds port low ≡ true ⊎ (low ≡ pos port)
  pub below : exceeds port high ≡ false
  pub rtcp : port + 1 ≤ 65535

normalize_lem : (low high : ℤ) → Ports low high → InRange low high (normalize_even_port low)
unfolding normalize_even_port
normalize_lem (negsuc n) high p = absurd p
normalize_lem (pos low) (negsuc n) p = absurd p
normalize_lem (pos low) (pos high) (l, h, (e, le, even, room)) = record {
  even = ground arith;
  above = elim (Bool-cases (low % 2 == 0)) [
    | inl t ↦ inr (ground arith)
    | inr t ↦ inl (ground arith)
  ];
  below = ground arith;
  rtcp = ground arith;
}

abbrev advance : ℤ → ℤ → ℕ → ℕ
advance low high port = if exceeds (port + 2) high then normalize_even_port low else port + 2

normalize_low :
    (low high : ℕ) → Ports (pos low) (pos high) → normalize_even_port (pos low) + 2 ≤ high
unfolding normalize_even_port
normalize_low low high (l, h, (e, le, even, room)) = ground arith

advance_lem :
    (low high : ℤ) (port : ℕ)
    → Ports low high
    → InRange low high port
    → InRange low high (advance low high port) × (advance low high port ≢ port)
advance_lem (negsuc n) high port p i = absurd p
advance_lem (pos low) (negsuc n) port p i = absurd p
advance_lem (pos low) (pos high) port p i = elim (Bool-cases (exceeds (port + 2) (pos high))) [
  | inl over ↦
      rw over (
        normalize_lem (pos low) (pos high) p,
        λ e. ground (arith, over, e, normalize_low low high p),
      )
  | inr fits ↦ rw fits (
    record {
      even = ground (arith, i.even);
      above = inl (ground (arith, i.above));
      below = fits;
      rtcp = ground (arith, fits, p.1);
    },
    λ e. ground (arith, e),
  )
]

-- The ports of the two relays of a call.
pub record PortPair (cfg : Config) (ids : Identifiers) : Type 0 where
  pub h248_in_range : InRange cfg.media.port_min cfg.media.port_max ids.h248_port
  pub sip_in_range : InRange cfg.media.port_min cfg.media.port_max ids.sip_port
  pub distinct : ids.sip_port ≢ ids.h248_port
  -- the RTCP port of one is not the RTP port of the other
  pub h248_rtcp : ids.h248_port + 1 ≢ ids.sip_port
  pub sip_rtcp : ids.sip_port + 1 ≢ ids.h248_port

pub normalize-InRange :
    (net : Resolver) (cfg : Config)
    → validate net cfg ≡ none
    → InRange cfg.media.port_min cfg.media.port_max (normalize_even_port cfg.media.port_min)
normalize-InRange net cfg v =
    normalize_lem cfg.media.port_min cfg.media.port_max ((validate_iff net cfg).0 v).ports

-- With a configuration that `Validate` accepts and a next port that is an even one of the range,
-- a call gets two different even ports of the range, neither the RTCP port of the other, and the
-- next port is again an even one of the range.
pub allocate-PortPair :
    (net : Resolver) (cfg : Config) (b : Bridge)
    → validate net cfg ≡ none
    → InRange cfg.media.port_min cfg.media.port_max b.next_rtp_port
    → PortPair cfg (allocate_call_identifiers cfg b).0
      × InRange cfg.media.port_min cfg.media.port_max
          (allocate_call_identifiers cfg b).1.next_rtp_port
unfolding allocate_call_identifiers next_rtp_port
allocate-PortPair net cfg b v i =
    let low = cfg.media.port_min in
    let high = cfg.media.port_max in
    let p : Ports low high = ((validate_iff net cfg).0 v).ports in
    let (i1, ne) = advance_lem low high b.next_rtp_port p i in
    let (i2, _) = advance_lem low high (advance low high b.next_rtp_port) p i1 in
    (
      record {
        h248_in_range = i;
        sip_in_range = i1;
        distinct = ne;
        h248_rtcp = λ e. absurd (omega (arith, e, i.even, i1.even));
        sip_rtcp = λ e. absurd (omega (arith, e, i.even, i1.even));
      },
      i2,
    )
