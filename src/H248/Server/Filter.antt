-- ===== src/H248/Server/Filter.antt =====
-- The messages that `handle` of internal/h248/server.go lets through in a run.
use megaco_sip_gateway.Prelude.{
  ℕ, ◌<◌, Bytes, same-eq, is_empty, Bool-cases, true, false, length, ◌≡◌, ap, none, some, Option,
  ◌∙◌, arith, ◌⊎◌, inl, inr,
}
use megaco_sip_gateway.Prelude.Result.{Result, ok, err}
use megaco_sip_gateway.Prelude.Strings.{trim_space}
use megaco_sip_gateway.Net.{UdpAddr, addr_string}
use megaco_sip_gateway.H248.Message.{Message}
use megaco_sip_gateway.H248.Parse.{ParseError, parse}
use megaco_sip_gateway.H248.Server.Listener.{
  UdpServer, UdpServerConfig, Outcome, deliver, answer, registration, replayed, dropped, audit_only,
  is_response, is_outside, expected_mgc_address, on_message, on_parsed, handle,
}
use megaco_sip_gateway.H248.Server.Registration.{System, Setup, remote_at}
use megaco_sip_gateway.H248.Server.Runs.{Reach}
use megaco_sip_gateway.H248.Server.Invariant.{Known}
use megaco_sip_gateway.H248.Server.Steps.{reach-IsValid}

-- What an outcome hands over to the bridge
abbrev pub handed : Outcome → Option Message
handed (deliver m key) = some m
handed (answer m) = some m
handed dropped = none
handed registration = none
handed (replayed text) = none

-- What is handed over is from inside, or an audit that is no response.
on_message-handed :
    (cfg : UdpServerConfig) (s : UdpServer) (m msg : Message) (remote : UdpAddr) (now : ℕ)
    → handed (on_message cfg s m remote now).0 ≡ some msg
    → (is_outside cfg s remote ≡ false) ⊎ ((is_response msg ≡ false) × (audit_only msg ≡ true))
unfolding on_message
on_message-handed cfg s m msg remote now h = elim (Bool-cases (is_outside cfg s remote)) [
  | inr e ↦ inl e
  | inl e ↦ inr (filtered e)
]
  where
    filtered : is_outside cfg s remote ≡ true → (is_response msg ≡ false) × (audit_only msg ≡ true)
    filtered e = ground (arith, h, e)

inside-expected :
    (cfg : UdpServerConfig) (s : UdpServer) (remote : UdpAddr)
    → is_empty (trim_space cfg.mgc) ≡ false
    → is_outside cfg s remote ≡ false
    → (is_empty (expected_mgc_address s) ≡ false) × (addr_string remote ≡ expected_mgc_address s)
unfolding is_outside
inside-expected cfg s remote managed h =
    ground (arith, managed, h, same-eq (addr_string remote) (expected_mgc_address s))

Known-remote :
    (u : Setup) (address : Bytes)
    → is_empty address ≡ false
    → Known u address
    → (j : ℕ) × (j < length u.remotes) × (address ≡ addr_string (remote_at u j))
Known-remote u address e (inl f) = cc (ap is_empty f, e)
Known-remote u address e (inr k) = k

on_parsed-handed :
    (cfg : UdpServerConfig) (s : UdpServer) (r : Result ParseError Message) (msg : Message)
    (remote : UdpAddr) (now : ℕ)
    → handed (on_parsed cfg s r remote now).0 ≡ some msg
    → (is_outside cfg s remote ≡ false) ⊎ ((is_response msg ≡ false) × (audit_only msg ≡ true))
unfolding on_parsed
on_parsed-handed cfg s (err e) msg remote now h = cc
on_parsed-handed cfg s (ok m) msg remote now h = on_message-handed cfg s m msg remote now h

expected-Known :
    (u : Setup) (s : UdpServer)
    → Known u s.active_mgc
    → Known u s.service_change_remote
    → Known u (expected_mgc_address s)
unfolding expected_mgc_address
expected-Known u s a b = elim (Bool-cases (is_empty s.active_mgc)) [
  | inl e ↦ rw e b
  | inr e ↦ rw e a
]

-- In every run of a server with an MGC, a message that is handed over to the bridge is an audit
-- and no response, or comes from the address of one of the candidates.
pub handle_trusts :
    (u : Setup) (y : System) (packet : Bytes) (remote : UdpAddr) (now : ℕ) (msg : Message)
    → Reach u y
    → is_empty (trim_space u.cfg.mgc) ≡ false
    → handed (handle u.cfg y.server packet remote now).0 ≡ some msg
    → ((is_response msg ≡ false) × (audit_only msg ≡ true))
      ⊎ ((j : ℕ) × (j < length u.remotes) × (addr_string remote ≡ addr_string (remote_at u j)))
unfolding handle
handle_trusts u y packet remote now msg r managed h =
    elim (on_parsed-handed u.cfg y.server (parse packet) msg remote now h) [
      | inr audit ↦ inl audit
      | inl inside ↦
          let v = reach-IsValid u y r in
          let (e, from) = inside-expected u.cfg y.server remote managed inside in
          let (j, lt, at_) =
            Known-remote u (expected_mgc_address y.server) e
              (expected-Known u y.server v.mgc_known v.remote_known) in
          inr (j, lt, from ∙ at_)
    ]
