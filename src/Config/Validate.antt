-- ===== src/Config/Validate.antt =====
-- `(Config).Validate` and `validateHostPort` of internal/config/config.go.
use megaco_sip_gateway.Prelude.{
  ℕ, ◌+◌, ◌%◌, Bytes, lit, same, is_empty, to_lower, has_prefix, Bool, true, false, not, ◌&&◌, ◌||◌,
  List, [], ◌∷◌, Option, none, some, if◌then◌else◌, ℤ, pos, negsuc, within, is_nonpos, ltb, ◌==◌,
}
use megaco_sip_gateway.Prelude.Decimal.{atoi}
use megaco_sip_gateway.Prelude.Strings.{trim_space}
use megaco_sip_gateway.Net.{Resolver, split_host_port}
use megaco_sip_gateway.Config.{Config}

pub data ConfigError : Type 0 where
  -- the addresses, by the name that the error text starts with
  bad_address : Bytes → ConfigError
  bad_trunk_uri bad_transport bad_encoding bad_version empty_mgid empty_termination : ConfigError
  bad_retry bad_timeout bad_stabilization bad_digit_delay bad_rtp_ip bad_h248_rtp_ip : ConfigError
  bad_port_range bad_payload_type bad_dtmf_mode bad_ptime no_codecs : ConfigError

is_port : Option ℤ → Bool
is_port none = false
is_port (some n) = within 1 65535 n

is_host_port : Option (Bytes × Bytes) → Bool
is_host_port none = false
is_host_port (some (host, port)) = not (is_empty (trim_space host)) && is_port (atoi port)

-- `validateHostPort(address) == nil`
unfoldable pub valid_host_port : Bytes → Bool
unfolding is_host_port is_port
valid_host_port address = is_host_port (split_host_port address)

abbrev pub valid_or_empty : Bytes → Bool
valid_or_empty address = is_empty address || valid_host_port address

-- `firstRTPPort+2 > cfg.Media.PortMax`, for a PortMin that is positive
abbrev pub first_even : ℕ → ℕ
first_even port = if port % 2 == 0 then port else port + 1

-- `cfg.Media.PortMin <= 0 || cfg.Media.PortMax > 65534 || firstRTPPort+2 > cfg.Media.PortMax`
unfoldable pub bad_ports : ℤ → ℤ → Bool
bad_ports (negsuc n) high = true
bad_ports (pos low) (negsuc n) = true
bad_ports (pos low) (pos high) = low == 0 || ltb 65534 high || ltb high (first_even low + 2)

-- The conditions under which `Validate` returns an error, in its order. The two loops over maps
-- visit their two addresses in either order; only the name in the error depends on it.
unfoldable pub checks : Resolver → Config → List (Bool × ConfigError)
checks net cfg =
    (not (valid_host_port cfg.sip.listen), bad_address (lit "sip.listen"))
    ∷ (not (valid_host_port cfg.h248.listen), bad_address (lit "h248.listen"))
    ∷ (not (valid_or_empty cfg.h248.mgc), bad_address (lit "h248.mgc"))
    ∷ (not (valid_or_empty cfg.h248.backup_mgc), bad_address (lit "h248.backup_mgc"))
    ∷ (not (valid_or_empty cfg.sip.advertised_address), bad_address (lit "sip.advertised_address"))
    ∷ (not (valid_or_empty cfg.sip.outbound_proxy), bad_address (lit "sip.outbound_proxy"))
    ∷ (not (has_prefix (to_lower cfg.sip.trunk_uri) (lit "sip:")), bad_trunk_uri)
    ∷ (not (same cfg.h248.transport (lit "udp")), bad_transport)
    ∷ (not (same cfg.h248.encoding (lit "text")), bad_encoding)
    ∷ (not (within 1 3 cfg.h248.version), bad_version)
    ∷ (is_empty cfg.h248.mgid, empty_mgid)
    ∷ (not (is_empty cfg.h248.mgc) && is_empty cfg.h248.physical_termination, empty_termination)
    ∷ (
      is_nonpos cfg.h248.service_change_retry_seconds
          || is_nonpos cfg.h248.service_change_max_attempts,
      bad_retry,
    )
    ∷ (is_nonpos cfg.h248.mgc_failure_timeout_seconds, bad_timeout)
    ∷ (not (within 0 300 cfg.h248.origination_stabilization_seconds), bad_stabilization)
    ∷ (not (within 0 10000 cfg.h248.digit_report_delay_milliseconds), bad_digit_delay)
    ∷ (not (net.is_ip cfg.media.rtp_ip), bad_rtp_ip)
    ∷ (not (net.is_ip cfg.media.h248_rtp_ip), bad_h248_rtp_ip)
    ∷ (bad_ports cfg.media.port_min cfg.media.port_max, bad_port_range)
    ∷ (
      not (within 1 127 cfg.media.dtmf_payload_type)
          || not (within 1 127 cfg.media.h248_dtmf_payload_type),
      bad_payload_type,
    )
    ∷ (
      not (same cfg.media.h248_dtmf_mode (lit "rfc4733"))
          && not (same cfg.media.h248_dtmf_mode (lit "inband")),
      bad_dtmf_mode,
    )
    ∷ (not (within 1 200 cfg.media.packetization_time_millis), bad_ptime)
    ∷ (elim cfg.media.codec_list [ [] ↦ true | _ ↦ false ], no_codecs)
    ∷ []

unfoldable pub first_failure : List (Bool × ConfigError) → Option ConfigError
first_failure [] = none
first_failure ((failed, e) ∷ rest) = if failed then some e else first_failure rest

-- `cfg.Validate()`, `none` for `nil`
unfoldable pub validate : Resolver → Config → Option ConfigError
unfolding first_failure
validate net cfg = first_failure (checks net cfg)
