-- ===== src/Config/Load.antt =====
-- `apply` and the loop of `Load` in internal/config/config.go. The file's text is an argument:
-- its lines, as `bufio.Scanner` gives them.
use megaco_sip_gateway.Prelude.{
  Bytes, lit, is_empty, to_lower, has_prefix, List, [], ◌∷◌, ◌++◌, Option, none, some,
  if◌then◌else◌, ℤ,
}
use megaco_sip_gateway.Prelude.Map
use megaco_sip_gateway.Prelude.Result.{Result, ok, err, ◌>>=◌}
use megaco_sip_gateway.Prelude.Decimal.{atoi}
use megaco_sip_gateway.Prelude.Strings.{
  trim, trim_space, cut_byte, before_any, cut_suffix, split_list,
}
use megaco_sip_gateway.Config.{Config}

pub data LoadError : Type 0 where
  invalid_line unknown_key bad_number : LoadError

-- What a case of the switch does with the value.
pub data Setter : Type 0 where
  text lower : (Bytes → Config → Config) → Setter
  number : (ℤ → Config → Config) → Setter
  codecs : (List Bytes → Config → Config) → Setter

-- The cases of the switch, by section and key.
abbrev sip_settings : List (Bytes × Setter)
sip_settings =
    (lit "sip.listen", text (λ v c. record c { sip = record c.sip { listen = v } }))
    ∷ (lit "sip.bind_device", text (λ v c. record c { sip = record c.sip { bind_device = v } }))
    ∷ (
      lit "sip.advertised_address",
      text (λ v c. record c { sip = record c.sip { advertised_address = v } }),
    )
    ∷ (lit "sip.domain", text (λ v c. record c { sip = record c.sip { domain = v } }))
    ∷ (lit "sip.trunk_uri", text (λ v c. record c { sip = record c.sip { trunk_uri = v } }))
    ∷ (
      lit "sip.outbound_proxy",
      text (λ v c. record c { sip = record c.sip { outbound_proxy = v } }),
    )
    ∷ (lit "sip.user_agent", text (λ v c. record c { sip = record c.sip { user_agent = v } }))
    ∷ []

abbrev h248_settings : List (Bytes × Setter)
h248_settings =
    (lit "h248.listen", text (λ v c. record c { h248 = record c.h248 { listen = v } }))
    ∷ (lit "h248.bind_device", text (λ v c. record c { h248 = record c.h248 { bind_device = v } }))
    ∷ (lit "h248.transport", lower (λ v c. record c { h248 = record c.h248 { transport = v } }))
    ∷ (lit "h248.encoding", lower (λ v c. record c { h248 = record c.h248 { encoding = v } }))
    ∷ (lit "h248.version", number (λ v c. record c { h248 = record c.h248 { version = v } }))
    ∷ (lit "h248.mg_id", text (λ v c. record c { h248 = record c.h248 { mgid = v } }))
    ∷ (lit "h248.mgc", text (λ v c. record c { h248 = record c.h248 { mgc = v } }))
    ∷ (lit "h248.backup_mgc", text (λ v c. record c { h248 = record c.h248 { backup_mgc = v } }))
    ∷ (
      lit "h248.service_change_method",
      text (λ v c. record c { h248 = record c.h248 { service_change_method = v } }),
    )
    ∷ (
      lit "h248.service_change_reason",
      text (λ v c. record c { h248 = record c.h248 { service_change_reason = v } }),
    )
    ∷ (
      lit "h248.service_change_profile",
      text (λ v c. record c { h248 = record c.h248 { service_change_profile = v } }),
    )
    ∷ (
      lit "h248.service_change_address",
      text (λ v c. record c { h248 = record c.h248 { service_change_address = v } }),
    )
    ∷ (
      lit "h248.service_change_retry_seconds",
      number (λ v c. record c { h248 = record c.h248 { service_change_retry_seconds = v } }),
    )
    ∷ (
      lit "h248.service_change_max_attempts",
      number (λ v c. record c { h248 = record c.h248 { service_change_max_attempts = v } }),
    )
    ∷ (
      lit "h248.mgc_failure_timeout_seconds",
      number (λ v c. record c { h248 = record c.h248 { mgc_failure_timeout_seconds = v } }),
    )
    ∷ (
      lit "h248.origination_stabilization_seconds",
      number (λ v c. record c { h248 = record c.h248 { origination_stabilization_seconds = v } }),
    )
    ∷ (
      lit "h248.digit_report_delay_milliseconds",
      number (λ v c. record c { h248 = record c.h248 { digit_report_delay_milliseconds = v } }),
    )
    ∷ (
      lit "h248.physical_termination",
      text (λ v c. record c { h248 = record c.h248 { physical_termination = v } }),
    )
    ∷ (
      lit "h248.ephemeral_termination_prefix",
      text (λ v c. record c { h248 = record c.h248 { ephemeral_termination_prefix = v } }),
    )
    ∷ []

abbrev media_settings : List (Bytes × Setter)
media_settings =
    (lit "media.rtp_ip", text (λ v c. record c { media = record c.media { rtp_ip = v } }))
    ∷ (
      lit "media.h248_rtp_ip",
      text (λ v c. record c { media = record c.media { h248_rtp_ip = v } }),
    )
    ∷ (lit "media.port_min", number (λ v c. record c { media = record c.media { port_min = v } }))
    ∷ (lit "media.port_max", number (λ v c. record c { media = record c.media { port_max = v } }))
    ∷ (
      lit "media.dtmf_payload_type",
      number (λ v c. record c { media = record c.media { dtmf_payload_type = v } }),
    )
    ∷ (
      lit "media.h248_dtmf_payload_type",
      number (λ v c. record c { media = record c.media { h248_dtmf_payload_type = v } }),
    )
    ∷ (
      lit "media.h248_dtmf_mode",
      lower (λ v c. record c { media = record c.media { h248_dtmf_mode = v } }),
    )
    ∷ (
      lit "media.ptime_ms",
      number (λ v c. record c { media = record c.media { packetization_time_millis = v } }),
    )
    ∷ (lit "media.codecs", codecs (λ v c. record c { media = record c.media { codec_list = v } }))
    ∷ []

unfoldable pub settings : List (Bytes × Setter)
settings = sip_settings ++ (h248_settings ++ media_settings)

set_number : (ℤ → Config → Config) → Config → Option ℤ → Result LoadError Config
set_number f cfg none = err bad_number
set_number f cfg (some n) = ok (f n cfg)

run_setter : Config → Bytes → Option Setter → Result LoadError Config
run_setter cfg value none = err unknown_key
run_setter cfg value (some (text f)) = ok (f value cfg)
run_setter cfg value (some (lower f)) = ok (f (to_lower value) cfg)
run_setter cfg value (some (number f)) = set_number f cfg (atoi value)
run_setter cfg value (some (codecs f)) = ok (f (split_list value) cfg)

-- `apply(&cfg, section, key, value)`
unfoldable pub apply : Config → Bytes → Bytes → Bytes → Result LoadError Config
unfolding run_setter set_number settings
apply cfg section key value = run_setter cfg value (Map.lookup (section ++ (b'.' ∷ key)) settings)

-- The section that the lines stand in, and the settings read.
abbrev LoadState : Type 0
LoadState = Bytes × Config

setting_line : LoadState → Option (Bytes × Bytes) → Result LoadError LoadState
setting_line (section, cfg) none = err invalid_line
setting_line (section, cfg) (some (key, value)) =
    apply cfg section (trim_space key) (trim (trim_space value) (b'"' ∷ [])) >>= λ cfg'.
    ok (section, cfg')

section_or_setting : LoadState → Bytes → Option Bytes → Result LoadError LoadState
section_or_setting (section, cfg) line none =
    setting_line (section, cfg) (cut_byte b':' (trim_space line))
section_or_setting (section, cfg) line (some name) =
    if has_prefix line (b' ' ∷ [])
    then setting_line (section, cfg) (cut_byte b':' (trim_space line))
    else ok (name, cfg)

-- One round of the loop of `Load`; the text behind `#` is cut off first.
unfoldable pub load_line : LoadState → Bytes → Result LoadError LoadState
unfolding section_or_setting setting_line before_any
load_line s raw =
    let line = before_any (b'#' ∷ []) raw in
    if is_empty (trim_space line)
    then ok s
    else section_or_setting s line (cut_suffix b':' (trim_space line))

unfoldable pub load_lines : LoadState → List Bytes → Result LoadError LoadState
load_lines s [] = ok s
load_lines s (line ∷ lines) = load_line s line >>= λ s'. load_lines s' lines
