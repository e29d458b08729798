-- ===== src/Tests/Registration.antt =====
-- The registration of a gateway with two MGCs.
use megaco_sip_gateway.Prelude.{
  ℕ, ◌+◌, ◌<◌, Bytes, lit, map, true, false, List, [], ◌∷◌, ◌≡◌, ◌↔◌, ◌⊎◌, refl, arith, pos,
}
use megaco_sip_gateway.Prelude.Map
use megaco_sip_gateway.Prelude.Decimal.{itoa}
use megaco_sip_gateway.H248.ReplyCache.{cached_reply}
use megaco_sip_gateway.Net.{UdpAddr, addr_string}
use megaco_sip_gateway.H248.Message.{Message}
use megaco_sip_gateway.H248.Parse.{parse}
use megaco_sip_gateway.H248.Server.Listener.{
  on_message, new_udp_server, handle, audit_only, is_response,
}
use megaco_sip_gateway.H248.Server.Registration.{
  awaiting, wrote, System, Setup, remote_at, index_of, first_attempt, max_attempts,
}
use megaco_sip_gateway.H248.Server.Loop.{
  registration_loop, begin_attempts, register_termination, try_candidate, expect_reply, on_timer,
  Wake, passed, is_awaiting,
}
use megaco_sip_gateway.H248.Server.Runs.{new_system, timer, starts, drive}
use megaco_sip_gateway.H248.Server.Steps.{Serves, registered_iff}
use megaco_sip_gateway.H248.Server.Filter.{handle_trusts}
use megaco_sip_gateway.H248.Server.Phase.{Moves, step-Moves, phase}
use megaco_sip_gateway.H248.Server.Progress.{registration_ends}
use megaco_sip_gateway.H248.Server.Silence.{copies, last_attempt, silent_candidate}
use megaco_sip_gateway.Tests.Data.{home, all_names}

abbrev backup : UdpAddr
backup = record { ip = lit "192.0.2.2"; port = 2944 }

abbrev two_mgcs : Setup
two_mgcs = record {
  cfg = record {
    address = lit "192.0.2.10:2944";
    mgc = lit "a:5060";
    backup_mgc = lit "b:2944";
    mid = lit "gw";
    version = pos 1;
    service_change_method = [];
    service_change_reason = [];
    service_change_profile = [];
    service_change_address = lit "gw:1";
    service_change_retry_seconds = pos 5;
    service_change_max_attempts = pos 2;
    mgc_failure_timeout_seconds = pos 60;
    physical_termination = lit "A0";
  };
  net = all_names;
  remotes = home ∷ backup ∷ [];
}

abbrev begun : System
begun = registration_loop two_mgcs 7 new_system

abbrev packet : Bytes
packet = lit "!/1 m T=7{C=-{MF=A0{}}}"

abbrev modify : Message
modify = record {
  raw = packet;
  version = 1;
  mid = lit "m";
  transaction_type = lit "Transaction";
  transaction_id = lit "7";
  context_id = lit "-";
  error_code = [];
  service_change_profile = [];
  commands =
      record {
        name = lit "Modify";
        termination_id = lit "A0";
        body = lit "{}";
        context_id = lit "-";
        optional = false;
      }
      ∷ [];
}

handle_trusts_example :
    ((is_response modify ≡ false) × (audit_only modify ≡ true))
    ⊎ ((j : ℕ) × (j < 2) × (addr_string home ≡ addr_string (remote_at two_mgcs j)))
unfolding handle parse registration_loop lit on_message try_candidate register_termination
    begin_attempts new_udp_server addr_string remote_at index_of first_attempt itoa cached_reply
    Map.lookup
handle_trusts_example = handle_trusts two_mgcs begun packet home 9 modify (starts 7) refl refl

registered_iff_example : (begun.server.registered ≡ true) ↔ ((i : ℕ) × Serves two_mgcs begun i)
unfolding registration_loop try_candidate register_termination begin_attempts
registered_iff_example = registered_iff two_mgcs begun (starts 7) (λ e. cc e)

step-Moves_example : Moves 2 (phase begun.loop) (phase (on_timer two_mgcs 8 begun).loop)
step-Moves_example =
    step-Moves two_mgcs begun (on_timer two_mgcs 8 begun) (starts 7) (timer begun 8)

abbrev wakes : List Wake
wakes = map passed (1 ∷ 2 ∷ 3 ∷ 4 ∷ 5 ∷ 6 ∷ 7 ∷ 8 ∷ [])

registration_ends_example : is_awaiting (drive two_mgcs wakes begun).loop ≡ false
unfolding max_attempts
registration_ends_example = registration_ends two_mgcs begun wakes (starts 7) (omega arith)

silent_candidate_example :
    let a = first_attempt two_mgcs 0 0 false 7 in
    drive two_mgcs
      (passed 12 ∷ passed 22 ∷ [])
      (register_termination two_mgcs 0 0 false 7 new_system)
    ≡ try_candidate two_mgcs 0 (0 + 1) 22 (record new_system {
      server = expect_reply two_mgcs a new_system.server;
      loop = awaiting (last_attempt (12 ∷ []) a);
      output = copies 2 (wrote a.message (remote_at two_mgcs (index_of two_mgcs a)));
    })
unfolding max_attempts
silent_candidate_example = silent_candidate two_mgcs 0 0 7 22 false (12 ∷ []) new_system refl refl
