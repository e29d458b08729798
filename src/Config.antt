-- ===== src/Config.antt =====
-- internal/config/config.go: the settings, their defaults, the reader of the file and the checks.
pub mod Load
pub mod Validate
pub mod Sound
use megaco_sip_gateway.Prelude.{Bytes, lit, List, [], ◌∷◌, ℤ, pos}

pub record SipConfig : Type 0 where
  pub listen : Bytes
  pub bind_device : Bytes
  pub advertised_address : Bytes
  pub domain : Bytes
  pub trunk_uri : Bytes
  pub outbound_proxy : Bytes
  pub user_agent : Bytes

pub record H248Config : Type 0 where
  pub listen : Bytes
  pub bind_device : Bytes
  pub transport : Bytes
  pub encoding : Bytes
  pub version : ℤ
  pub mgid : Bytes
  pub mgc : Bytes
  pub backup_mgc : Bytes
  pub service_change_method : Bytes
  pub service_change_reason : Bytes
  pub service_change_profile : Bytes
  pub service_change_address : Bytes
  pub service_change_retry_seconds : ℤ
  pub service_change_max_attempts : ℤ
  pub mgc_failure_timeout_seconds : ℤ
  pub origination_stabilization_seconds : ℤ
  pub digit_report_delay_milliseconds : ℤ
  pub physical_termination : Bytes
  pub ephemeral_termination_prefix : Bytes

pub record MediaConfig : Type 0 where
  pub rtp_ip : Bytes
  pub h248_rtp_ip : Bytes
  pub port_min : ℤ
  pub port_max : ℤ
  pub dtmf_payload_type : ℤ
  pub h248_dtmf_payload_type : ℤ
  pub h248_dtmf_mode : Bytes
  pub packetization_time_millis : ℤ
  pub codec_list : List Bytes

pub record Config : Type 0 where
  pub sip : SipConfig
  pub h248 : H248Config
  pub media : MediaConfig

-- `Default()`
unfoldable pub default_config : Config
unfolding lit
default_config = record {
  sip = record {
    listen = lit "0.0.0.0:5060";
    bind_device = [];
    advertised_address = [];
    domain = lit "h248-sip-gateway.local";
    trunk_uri = lit "sip:h248-line@ippbx.local";
    outbound_proxy = [];
    user_agent = lit "h248-sip-gateway";
  };
  h248 = record {
    listen = lit "0.0.0.0:2944";
    bind_device = [];
    transport = lit "udp";
    encoding = lit "text";
    version = pos 1;
    mgid = lit "mgw-1";
    mgc = [];
    backup_mgc = [];
    service_change_method = lit "Restart";
    service_change_reason = lit "901 Cold Boot";
    service_change_profile = [];
    service_change_address = [];
    service_change_retry_seconds = pos 5;
    service_change_max_attempts = pos 3;
    mgc_failure_timeout_seconds = pos 360;
    origination_stabilization_seconds = pos 5;
    digit_report_delay_milliseconds = pos 200;
    physical_termination = lit "aaln/1";
    ephemeral_termination_prefix = lit "RTP/";
  };
  media = record {
    rtp_ip = lit "127.0.0.1";
    h248_rtp_ip = lit "127.0.0.1";
    port_min = pos 20000;
    port_max = pos 29998;
    dtmf_payload_type = pos 101;
    h248_dtmf_payload_type = pos 102;
    h248_dtmf_mode = lit "rfc4733";
    packetization_time_millis = pos 20;
    codec_list = lit "PCMA/8000" ∷ lit "PCMU/8000" ∷ [];
  };
}
