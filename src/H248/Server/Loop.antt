-- ===== src/H248/Server/Loop.antt =====
-- `registrationLoop` of internal/h248/server.go with `serviceChangeLoop`, `registerTermination` and
-- `waitForMGCFailure`, between two of its waits: each function takes the loop from what a `select`
-- has chosen to the next `select`. A ticker may tick at any time.
use megaco_sip_gateway.Prelude.{
  ℕ, ◌+◌, ◌%◌, same, is_empty, Bool, true, false, not, ◌&&◌, ◌||◌, List, [], ◌∷◌, ◌++◌, ltb, length,
  if◌then◌else◌,
}
use megaco_sip_gateway.Prelude.Strings.{trim_space}
use megaco_sip_gateway.Net.{addr_string}
use megaco_sip_gateway.H248.Server.Listener.{
  UdpServer, RegistrationResult, set_active_mgc, clear_active_mgc, clear_registration_transaction,
}
use megaco_sip_gateway.H248.Server.Registration.{
  Attempt, Loop, returned, awaiting, guarding, pausing, wrote, ready, unavailable, System, Setup,
  max_attempts, remote_at, index_of, first_attempt, longer, is_silent,
}

-- One round of the loop of `registerTermination`, up to its wait
unfoldable pub send_attempt : Setup → Attempt → System → System
send_attempt u a y = record y {
  loop = awaiting a;
  output = y.output ++ wrote a.message (remote_at u (index_of u a)) ∷ [];
}

unfoldable pub expect_reply : Setup → Attempt → UdpServer → UdpServer
expect_reply u a s = record s {
  service_change_tid = a.transaction_id;
  service_change_remote = addr_string (remote_at u (index_of u a));
}

unfoldable pub begin_attempts : Setup → Attempt → System → System
unfolding send_attempt expect_reply
begin_attempts u a y = send_attempt u a (record y { server = expect_reply u a y.server })

-- The beginning of `registerTermination`; there is a first attempt, since `maxAttempts` is positive.
unfoldable pub register_termination : Setup → ℕ → ℕ → Bool → ℕ → System → System
register_termination u start offset physical now =
    begin_attempts u (first_attempt u start offset physical now)

-- The test of the loop over the candidates
unfoldable pub try_candidate : Setup → ℕ → ℕ → ℕ → System → System
try_candidate u start offset now y =
    if ltb offset (length u.remotes)
    then register_termination u start offset false now y
    else record y { loop = pausing start }

unfoldable pub candidate_failed : Setup → Attempt → ℕ → System → System
candidate_failed u a now y =
    if y.context_done
    then record y { loop = returned }
    else try_candidate u a.start_index (a.offset + 1) now y

-- The end of a round of `registerTermination`, with the delay of the next
unfoldable pub next_attempt : Setup → Attempt → ℕ → ℕ → System → System
next_attempt u a delay now y =
    if ltb a.attempt (max_attempts u.cfg)
    then send_attempt u (record a { attempt = a.attempt + 1; delay = delay }) y
    else candidate_failed u a now y

unfoldable pub active_server : Setup → Attempt → ℕ → UdpServer → UdpServer
unfolding set_active_mgc clear_registration_transaction
active_server u a now s =
    clear_registration_transaction s.service_change_tid
      (set_active_mgc (remote_at u (index_of u a)) now (record s { registered = true }))

-- The end of `serviceChangeLoop`
unfoldable pub activate : Setup → Attempt → ℕ → System → System
activate u a now y = record y {
  server = active_server u a now y.server;
  loop = guarding (index_of u a);
  output = y.output ++ ready (remote_at u (index_of u a)) ∷ [];
}

unfoldable pub termination_registered : Setup → Attempt → ℕ → System → System
termination_registered u a now y =
    if not a.physical && not (is_empty (trim_space u.cfg.physical_termination))
    then register_termination u a.start_index a.offset true now y
    else activate u a now y

-- `case result := <-s.serviceChangeReply`
unfoldable pub on_result : Setup → Attempt → RegistrationResult → ℕ → System → System
on_result u a r now y =
    if not (same r.transaction_id a.transaction_id)
    then next_attempt u a a.delay now y
    else if r.accepted
    then termination_registered u a now y
    else candidate_failed u a now y

-- The timer of `registerTermination`, or the one of 30 seconds
unfoldable pub on_timer : Setup → ℕ → System → System
on_timer u now y = elim y.loop [
  | awaiting a ↦ next_attempt u a (longer a.delay) now y
  | pausing start ↦ try_candidate u start 0 now y
  | returned ↦ y
  | guarding i ↦ y
]

unfoldable pub lost_server : Setup → ℕ → UdpServer → UdpServer
unfolding clear_active_mgc
lost_server u i s = clear_active_mgc (remote_at u i) (record s { registered = false })

-- What the loop does when `waitForMGCFailure` has seen the failure
unfoldable pub fail_over : Setup → ℕ → ℕ → System → System
fail_over u i now y = try_candidate u ((i + 1) % length u.remotes) 0 now (record y {
  server = lost_server u i y.server;
  output = y.output ++ unavailable (remote_at u i) ∷ [];
})

unfoldable pub has_failed : Setup → ℕ → ℕ → UdpServer → Bool
has_failed u i now s =
    not (same s.active_mgc (addr_string (remote_at u i))) || is_silent u.cfg now s.last_mgc_activity

-- `case now := <-ticker.C`; `now'` is the time of the next registration.
unfoldable pub on_tick : Setup → ℕ → ℕ → System → System
on_tick u now now' y = elim y.loop [
  | guarding i ↦ if has_failed u i now y.server then fail_over u i now' y else y
  | returned ↦ y
  | awaiting a ↦ y
  | pausing start ↦ y
]

-- What the `select` of `registerTermination` may choose before the end of the context
pub data Wake : Type 0 where
  passed : ℕ → Wake
  replied : RegistrationResult → ℕ → Wake

unfoldable pub on_wake : Setup → Wake → System → System
on_wake u (passed now) y = on_timer u now y
on_wake u (replied r now) y = elim y.loop [
  | awaiting a ↦ on_result u a r now y
  | returned ↦ y
  | guarding i ↦ y
  | pausing start ↦ y
]

unfoldable pub without_first : List RegistrationResult → System → System
without_first rest y = record y { server = record y.server { service_change_reply = rest } }

unfoldable pub is_awaiting : Loop → Bool
is_awaiting (awaiting a) = true
is_awaiting returned = false
is_awaiting (guarding i) = false
is_awaiting (pausing start) = false

unfoldable pub take_first : Setup → ℕ → System → List RegistrationResult → System
take_first u now y [] = y
take_first u now y (r ∷ rest) =
    if is_awaiting y.loop then on_wake u (replied r now) (without_first rest y) else y

-- A result is taken from the channel where the loop waits for one.
unfoldable pub take_result : Setup → ℕ → System → System
unfolding take_first
take_result u now y = take_first u now y y.server.service_change_reply

-- `case <-ctx.Done()`: every wait ends the loop.
unfoldable pub on_done : System → System
on_done y = if y.context_done then record y { loop = returned } else y

-- `registrationLoop`, up to its first wait
unfoldable pub registration_loop : Setup → ℕ → System → System
registration_loop u now y =
    if ltb 0 (length u.remotes) then try_candidate u 0 0 now y else record y { loop = returned }
