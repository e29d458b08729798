-- ===== src/Config/Sound/Conditions.antt =====
-- What `Validate` of internal/config/config.go asks of a configuration.
use megaco_sip_gateway.Prelude.{
  ℕ, ◌+◌, ◌%◌, ◌≤◌, ◌<◌, Bytes, lit, same, same_iff, is_empty, to_lower, has_prefix, Bool, true,
  false, not, ◌&&◌, ◌||◌, List, [], ◌∷◌, none, ℤ, pos, negsuc, within, is_nonpos, ◌==◌, ◌≡◌, ◌≢◌,
  ◌↔◌, ◌⊎◌, inl, inr, refl, arith, Bool-cases,
}
use megaco_sip_gateway.Net.{Resolver}
use megaco_sip_gateway.Config.{Config}
use megaco_sip_gateway.Config.Validate.{
  ConfigError, first_failure, valid_host_port, valid_or_empty, bad_ports, first_even,
}

abbrev pub Between : ℕ → ℕ → ℤ → Type 0
Between lo hi (pos n) = (lo ≤ n) × (n ≤ hi)
Between lo hi (negsuc n) = ⊥

abbrev pub Positive : ℤ → Type 0
Positive (pos n) = 0 < n
Positive (negsuc n) = ⊥

-- The range holds an even port that is followed by another one, and all its ports have a
-- following RTCP port.
abbrev pub Ports : ℤ → ℤ → Type 0
Ports (pos low) (pos high) =
    (0 < low) × (high ≤ 65534) × ((e : ℕ) × (low ≤ e) × (e % 2 ≡ 0) × (e + 2 ≤ high))
Ports _ _ = ⊥

pub record IsSound (net : Resolver) (cfg : Config) : Type 0 where
  pub sip_listen : valid_host_port cfg.sip.listen ≡ true
  pub h248_listen : valid_host_port cfg.h248.listen ≡ true
  pub mgc : (cfg.h248.mgc ≡ []) ⊎ (valid_host_port cfg.h248.mgc ≡ true)
  pub backup_mgc : (cfg.h248.backup_mgc ≡ []) ⊎ (valid_host_port cfg.h248.backup_mgc ≡ true)
  pub advertised :
      (cfg.sip.advertised_address ≡ []) ⊎ (valid_host_port cfg.sip.advertised_address ≡ true)
  pub proxy : (cfg.sip.outbound_proxy ≡ []) ⊎ (valid_host_port cfg.sip.outbound_proxy ≡ true)
  pub trunk : has_prefix (to_lower cfg.sip.trunk_uri) (lit "sip:") ≡ true
  pub transport : cfg.h248.transport ≡ lit "udp"
  pub encoding : cfg.h248.encoding ≡ lit "text"
  pub version : Between 1 3 cfg.h248.version
  pub mgid : cfg.h248.mgid ≢ []
  pub termination : cfg.h248.mgc ≢ [] → cfg.h248.physical_termination ≢ []
  pub retry : Positive cfg.h248.service_change_retry_seconds
  pub attempts : Positive cfg.h248.service_change_max_attempts
  pub timeout : Positive cfg.h248.mgc_failure_timeout_seconds
  pub stabilization : Between 0 300 cfg.h248.origination_stabilization_seconds
  pub digit_delay : Between 0 10000 cfg.h248.digit_report_delay_milliseconds
  pub rtp_ip : net.is_ip cfg.media.rtp_ip ≡ true
  pub h248_rtp_ip : net.is_ip cfg.media.h248_rtp_ip ≡ true
  pub ports : Ports cfg.media.port_min cfg.media.port_max
  pub payload : Between 1 127 cfg.media.dtmf_payload_type
  pub h248_payload : Between 1 127 cfg.media.h248_dtmf_payload_type
  pub mode : (cfg.media.h248_dtmf_mode ≡ lit "rfc4733") ⊎ (cfg.media.h248_dtmf_mode ≡ lit "inband")
  pub ptime : Between 1 200 cfg.media.packetization_time_millis
  pub codecs : cfg.media.codec_list ≢ []

abbrev pub Passing : List (Bool × ConfigError) → Type 0
Passing [] = Unit
Passing ((failed, e) ∷ rest) = (failed ≡ false) × Passing rest

pub first_failure-Passing : (l : List (Bool × ConfigError)) → (first_failure l ≡ none) ↔ Passing l
unfolding first_failure
first_failure-Passing [] = (λ _. tt, λ _. refl)
first_failure-Passing ((true, e) ∷ rest) = (λ h. cc, λ h. cc (h.0))
first_failure-Passing ((false, e) ∷ rest) =
    (λ h. (refl, (first_failure-Passing rest).0 h), λ h. (first_failure-Passing rest).1 h.1)

pub within_iff : (lo hi : ℕ) (z : ℤ) → (not (within lo hi z) ≡ false) ↔ Between lo hi z
within_iff lo hi (pos n) = (λ h. (ground arith, ground arith), λ h. ground arith)
within_iff lo hi (negsuc n) = (λ h. cc, λ h. absurd h)

pub Positive-iff : (z : ℤ) → (is_nonpos z ≡ false) ↔ Positive z
Positive-iff (pos n) = (λ h. ground arith, λ h. ground arith)
Positive-iff (negsuc n) = (λ h. cc, λ h. absurd h)

empty_iff : (s : Bytes) → (is_empty s ≡ true) ↔ (s ≡ [])
empty_iff [] = (λ _. refl, λ _. refl)
empty_iff (x ∷ s) = (λ h. cc, λ h. cc)

pub optional_iff :
    (s : Bytes) → (not (valid_or_empty s) ≡ false) ↔ ((s ≡ []) ⊎ (valid_host_port s ≡ true))
optional_iff [] = (λ _. inl refl, λ _. refl)
optional_iff (x ∷ s) = (λ h. inr (ground arith), λ h. ground (arith, empty_iff (x ∷ s)))

first_even_lem : (n : ℕ) → (first_even n % 2 ≡ 0) × (n ≤ first_even n) × (first_even n ≤ n + 1)
first_even_lem n = elim (Bool-cases (n % 2 == 0)) [
  | inl e ↦ rw e (ground arith, omega arith, omega arith)
  | inr e ↦ rw e (ground arith, omega arith, omega arith)
]

first_even_least : (n e : ℕ) → n ≤ e → e % 2 ≡ 0 → first_even n ≤ e
first_even_least n e h h' = ground arith

pub Ports-iff : (low high : ℤ) → (bad_ports low high ≡ false) ↔ Ports low high
unfolding bad_ports
Ports-iff (negsuc n) high = (λ h. cc, λ h. absurd h)
Ports-iff (pos low) (negsuc n) = (λ h. cc, λ h. absurd h)
Ports-iff (pos low) (pos high) = (
  λ h. (
    ground arith,
    ground arith,
    (first_even low, (first_even_lem low).1, (first_even_lem low).0, ground arith),
  ),
  λ h. ground (arith, h.0, h.1, first_even_least low h.2.0 h.2.1 h.2.2),
)

pub not-false : (b : Bool) → (not b ≡ false) ↔ (b ≡ true)
not-false true = (λ _. refl, λ _. refl)
not-false false = (λ h. cc, λ h. cc)

pub nonempty_iff : (s : Bytes) → (is_empty s ≡ false) ↔ (s ≢ [])
nonempty_iff [] = (λ h. cc, λ h. absurd (h refl))
nonempty_iff (x ∷ s) = (λ _ e. cc, λ _. refl)

pub differs_iff : (a b : Bytes) → (not (same a b) ≡ false) ↔ (a ≡ b)
differs_iff a b =
    (λ h. (same_iff a b).0 ((not-false _).0 h), λ e. (not-false _).1 ((same_iff a b).1 e))

pub neither_iff : (a b : Bool) → ((a || b) ≡ false) ↔ ((a ≡ false) × (b ≡ false))
neither_iff true b = (λ h. cc, λ h. cc)
neither_iff false b = (λ h. (refl, h), λ h. h.1)

pub termination_iff : (a b : Bytes) → ((not (is_empty a) && is_empty b) ≡ false) ↔ (a ≢ [] → b ≢ [])
termination_iff [] b = (λ _ h. absurd (h refl), λ _. refl)
termination_iff (x ∷ a) b = ((λ h _. (nonempty_iff b).0 h), λ h. (nonempty_iff b).1 (h (λ e. cc)))

pub mode_iff :
    (m : Bytes)
    → ((not (same m (lit "rfc4733")) && not (same m (lit "inband"))) ≡ false)
      ↔ ((m ≡ lit "rfc4733") ⊎ (m ≡ lit "inband"))
mode_iff m = (
  (λ h. elim (Bool-cases (same m (lit "rfc4733"))) [
    | inl e ↦ inl ((same_iff _ _).0 e)
    | inr e ↦ inr ((same_iff _ _).0 (ground arith))
  ]),
  λ h. ground (arith, h, same_iff m (lit "rfc4733"), same_iff m (lit "inband")),
)

pub codecs_iff : (l : List Bytes) → (elim l [ [] ↦ true | _ ↦ false ] ≡ false) ↔ (l ≢ [])
codecs_iff [] = (λ h. cc, λ h. absurd (h refl))
codecs_iff (x ∷ l) = (λ _ e. cc, λ _. refl)
