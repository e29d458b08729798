-- ===== src/Bridge/Ports.antt =====
-- Ports and identifiers of a call: `normalizeEvenPort`, `allocateRTPPortLocked`,
-- `allocateCallIdentifiersLocked`, `newH248TransactionID` of internal/bridge/bridge.go.
pub mod Range
use megaco_sip_gateway.Prelude.{
  ℕ, ◌+◌, ◌%◌, ◌^◌, Bytes, lit, is_empty, ◌++◌, ◌==◌, if◌then◌else◌, ℤ, pos, negsuc, exceeds,
}
use megaco_sip_gateway.Prelude.Decimal.{itoa}
use megaco_sip_gateway.Config.{Config}
use megaco_sip_gateway.Bridge.State.{Bridge}

-- `normalizeEvenPort`
unfoldable pub normalize_even_port : ℤ → ℕ
normalize_even_port (negsuc n) = 20000
normalize_even_port (pos port) =
    if port == 0 then 20000 else if port % 2 == 0 then port else port + 1

-- `b.nextRTPPort` after a port has been taken.
unfoldable pub next_rtp_port : Config → ℕ → ℕ
next_rtp_port cfg port =
    if exceeds (port + 2) cfg.media.port_max
    then normalize_even_port cfg.media.port_min
    else port + 2

-- `allocateRTPPortLocked`
unfoldable pub allocate_rtp_port : Config → Bridge → ℕ × Bridge
allocate_rtp_port cfg b =
    (b.next_rtp_port, record b { next_rtp_port = next_rtp_port cfg b.next_rtp_port })

pub record Identifiers : Type 0 where
  pub context_id : Bytes
  pub ephemeral : Bytes
  pub h248_port : ℕ
  pub sip_port : ℕ

-- A `uint64` counter, one further.
abbrev pub next_uint64 : ℕ → ℕ
next_uint64 n = (n + 1) % 2 ^ 64

-- `allocateCallIdentifiersLocked`
unfoldable pub allocate_call_identifiers : Config → Bridge → Identifiers × Bridge
unfolding allocate_rtp_port
allocate_call_identifiers cfg b =
    let context = next_uint64 b.next_context_id in
    let term = next_uint64 b.next_term_id in
    let (h248_port, b1) =
      allocate_rtp_port cfg (record b { next_context_id = context; next_term_id = term }) in
    let (sip_port, b2) = allocate_rtp_port cfg b1 in
    let prefix = cfg.h248.ephemeral_termination_prefix in
    (
      record {
        context_id = itoa (context % 2 ^ 31);
        ephemeral = (if is_empty prefix then lit "RTP/" else prefix) ++ itoa term;
        h248_port = h248_port;
        sip_port = sip_port;
      },
      b2,
    )
