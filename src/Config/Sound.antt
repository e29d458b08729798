-- ===== src/Config/Sound.antt =====
-- What `Validate` accepts, said without its code.
pub mod Conditions
use megaco_sip_gateway.Prelude.{
  ℕ, ◌+◌, ◌%◌, ◌≤◌, ◌<◌, Bytes, lit, same, same_iff, is_empty, to_lower, has_prefix, Bool, true,
  false, not, ◌&&◌, ◌||◌, List, [], ◌∷◌, none, ℤ, pos, negsuc, within, is_nonpos, ◌==◌, ◌≡◌, ◌≢◌,
  ◌↔◌, ◌⊎◌, inl, inr, refl, arith, Bool-cases,
}
use megaco_sip_gateway.Net.{Resolver}
use megaco_sip_gateway.Config.{Config}
use megaco_sip_gateway.Config.Validate.{
  ConfigError, checks, first_failure, validate, valid_host_port, valid_or_empty, bad_ports,
  first_even,
}
use megaco_sip_gateway.Config.Sound.Conditions.{
  IsSound, Passing, first_failure-Passing, within_iff, Positive-iff, optional_iff, Ports-iff,
  not-false, nonempty_iff, differs_iff, neither_iff, termination_iff, mode_iff, codecs_iff,
}

Passing-IsSound : (net : Resolver) (cfg : Config) → Passing (checks net cfg) → IsSound net cfg
unfolding checks
Passing-IsSound net cfg h = record {
  sip_listen = (not-false _).0 h.0;
  h248_listen = (not-false _).0 h.1.0;
  mgc = (optional_iff _).0 h.1.1.0;
  backup_mgc = (optional_iff _).0 h.1.1.1.0;
  advertised = (optional_iff _).0 h.1.1.1.1.0;
  proxy = (optional_iff _).0 h.1.1.1.1.1.0;
  trunk = (not-false _).0 h.1.1.1.1.1.1.0;
  transport = (differs_iff _ _).0 h.1.1.1.1.1.1.1.0;
  encoding = (differs_iff _ _).0 h.1.1.1.1.1.1.1.1.0;
  version = (within_iff 1 3 _).0 h.1.1.1.1.1.1.1.1.1.0;
  mgid = (nonempty_iff _).0 h.1.1.1.1.1.1.1.1.1.1.0;
  termination = (termination_iff _ _).0 h.1.1.1.1.1.1.1.1.1.1.1.0;
  retry = (Positive-iff _).0 ((neither_iff _ _).0 h.1.1.1.1.1.1.1.1.1.1.1.1.0).0;
  attempts = (Positive-iff _).0 ((neither_iff _ _).0 h.1.1.1.1.1.1.1.1.1.1.1.1.0).1;
  timeout = (Positive-iff _).0 h.1.1.1.1.1.1.1.1.1.1.1.1.1.0;
  stabilization = (within_iff 0 300 _).0 h.1.1.1.1.1.1.1.1.1.1.1.1.1.1.0;
  digit_delay = (within_iff 0 10000 _).0 h.1.1.1.1.1.1.1.1.1.1.1.1.1.1.1.0;
  rtp_ip = (not-false _).0 h.1.1.1.1.1.1.1.1.1.1.1.1.1.1.1.1.0;
  h248_rtp_ip = (not-false _).0 h.1.1.1.1.1.1.1.1.1.1.1.1.1.1.1.1.1.0;
  ports = (Ports-iff _ _).0 h.1.1.1.1.1.1.1.1.1.1.1.1.1.1.1.1.1.1.0;
  payload =
      (within_iff 1 127 _).0 ((neither_iff _ _).0 h.1.1.1.1.1.1.1.1.1.1.1.1.1.1.1.1.1.1.1.0).0;
  h248_payload =
      (within_iff 1 127 _).0 ((neither_iff _ _).0 h.1.1.1.1.1.1.1.1.1.1.1.1.1.1.1.1.1.1.1.0).1;
  mode = (mode_iff _).0 h.1.1.1.1.1.1.1.1.1.1.1.1.1.1.1.1.1.1.1.1.0;
  ptime = (within_iff 1 200 _).0 h.1.1.1.1.1.1.1.1.1.1.1.1.1.1.1.1.1.1.1.1.1.0;
  codecs = (codecs_iff _).0 h.1.1.1.1.1.1.1.1.1.1.1.1.1.1.1.1.1.1.1.1.1.1.0;
}

IsSound-Passing : (net : Resolver) (cfg : Config) → IsSound net cfg → Passing (checks net cfg)
unfolding checks
IsSound-Passing net cfg s = (
  (not-false _).1 s.sip_listen,
  (
    (not-false _).1 s.h248_listen,
    (
      (optional_iff _).1 s.mgc,
      (
        (optional_iff _).1 s.backup_mgc,
        (
          (optional_iff _).1 s.advertised,
          (
            (optional_iff _).1 s.proxy,
            (
              (not-false _).1 s.trunk,
              (
                (differs_iff _ _).1 s.transport,
                (
                  (differs_iff _ _).1 s.encoding,
                  (
                    (within_iff 1 3 _).1 s.version,
                    (
                      (nonempty_iff _).1 s.mgid,
                      (
                        (termination_iff _ _).1 s.termination,
                        (
                          (neither_iff _ _).1
                              ((Positive-iff _).1 s.retry, (Positive-iff _).1 s.attempts),
                          (
                            (Positive-iff _).1 s.timeout,
                            (
                              (within_iff 0 300 _).1 s.stabilization,
                              (
                                (within_iff 0 10000 _).1 s.digit_delay,
                                (
                                  (not-false _).1 s.rtp_ip,
                                  (
                                    (not-false _).1 s.h248_rtp_ip,
                                    (
                                      (Ports-iff _ _).1 s.ports,
                                      (
                                        (neither_iff _ _).1 (
                                          (within_iff 1 127 _).1 s.payload,
                                          (within_iff 1 127 _).1 s.h248_payload,
                                        ),
                                        (
                                          (mode_iff _).1 s.mode,
                                          (
                                            (within_iff 1 200 _).1 s.ptime,
                                            ((codecs_iff _).1 s.codecs, tt),
                                          ),
                                        ),
                                      ),
                                    ),
                                  ),
                                ),
                              ),
                            ),
                          ),
                        ),
                      ),
                    ),
                  ),
                ),
              ),
            ),
          ),
        ),
      ),
    ),
  ),
)

pub validate_iff : (net : Resolver) (cfg : Config) → (validate net cfg ≡ none) ↔ IsSound net cfg
unfolding validate
validate_iff net cfg = (
  λ h. Passing-IsSound net cfg ((first_failure-Passing (checks net cfg)).0 h),
  λ s. (first_failure-Passing (checks net cfg)).1 (IsSound-Passing net cfg s),
)
