-- ===== src/Tests/Settings.antt =====
-- Configurations and ports.
use megaco_sip_gateway.Prelude.{same, to_lower, has_prefix, none, ◌≡◌, refl}
use megaco_sip_gateway.Prelude.Strings
use megaco_sip_gateway.Net.{split_host_port}
use megaco_sip_gateway.Config.{default_config}
use megaco_sip_gateway.Config.Validate.{validate, checks, valid_host_port, bad_ports}
use megaco_sip_gateway.Prelude.Decimal.{atoi}
use megaco_sip_gateway.Bridge.Run.{new_bridge}
use megaco_sip_gateway.Bridge.Ports.{allocate_call_identifiers}
use megaco_sip_gateway.Bridge.Ports.Range.{InRange, PortPair, normalize-InRange, allocate-PortPair}
use megaco_sip_gateway.Tests.Data.{all_names, fresh}

default_accepted : validate all_names default_config ≡ none
unfolding validate default_config checks valid_host_port split_host_port Strings.trim_space atoi
    has_prefix to_lower same bad_ports
default_accepted = refl

allocate-PortPair_example :
    PortPair default_config (allocate_call_identifiers default_config fresh).0
    × InRange default_config.media.port_min default_config.media.port_max
        (allocate_call_identifiers default_config fresh).1.next_rtp_port
unfolding new_bridge
allocate-PortPair_example =
    allocate-PortPair all_names default_config fresh default_accepted
      (normalize-InRange all_names default_config default_accepted)
