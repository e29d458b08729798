-- ===== src/Bridge/Origination.antt =====
-- The call of the PBX on the H.248 line: `scheduleOriginationOffhook`, `sendOriginationOffhook`,
-- `scheduleOriginationDigits`, `sendOriginationDigits` of internal/bridge/h248.go.
use megaco_sip_gateway.Prelude.{
  ℕ, ◌+◌, ◌-◌, ◌*◌, Bytes, lit, is_empty, Bool, true, false, not, ◌||◌, [], ◌∷◌, Option, none, some,
  if◌then◌else◌, to_ℕ,
}
use megaco_sip_gateway.H248.Interop.Notify.{digit_map_event}
use megaco_sip_gateway.Bridge.State.{
  Ref, Call, h248_offhook_sent, h248_digits_sent, Responder, origination_offhook,
  origination_digits, send_offhook, send_digits, Env, M, ◌>>=◌, ◌>>◌, pure, gets, when, change,
  read, send, schedule, h248_notify,
}
use megaco_sip_gateway.Bridge.Line.{
  release_call, new_h248_transaction_id, add_pending, drop_pending, notify_of,
}
use megaco_sip_gateway.Bridge.Response.{fail_sip_originated_call}

-- `failSIPOriginatedCall`, then `releaseCall`
unfoldable pub fail_and_release : Env → Ref → ℕ → Bytes → M (Unit {0})
fail_and_release env r status reason =
    fail_sip_originated_call env r status reason >> release_call r

abbrev is_some : {A : Type 0} → Option A → Bool
is_some none = false
is_some (some a) = true

-- `scheduleOriginationOffhook`, for a call that is there
unfoldable pub schedule_origination_offhook : Env → Ref → M (Unit {0})
schedule_origination_offhook env r = do
  c ← read r (λ c. c)
  line ← gets (λ b. b.line)
  now ← gets (λ b. b.clock)
  when (not (c.released || c.h248_offhook_sent)) (
      schedule
        ((line.ready_at + to_ℕ env.cfg.h248.origination_stabilization_seconds * 1_000_000_000)
          - now)
        (send_offhook r))

-- The writes to the call before the off-hook is reported
unfoldable pub taken_off_hook : Bytes → Responder → Call → Call
taken_off_hook request_id responder c = record c {
  h248_responder = some responder;
  h248_event_request_id = request_id;
  h248_offhook_sent = true;
  state = h248_offhook_sent;
}

unfoldable pub back_on_hook : Call → Call
back_on_hook c = record c { h248_offhook_sent = false }

-- The report of the off-hook, undone if it cannot be sent; whether it was sent
unfoldable pub report_offhook : Env → Ref → Bytes → Responder → M Bool
report_offhook env r request_id responder = do
  tid ← new_h248_transaction_id
  change r (taken_off_hook request_id responder)
  call_id ← read r (λ c. c.id)
  add_pending tid call_id origination_offhook
  now ← gets (λ b. b.clock)
  sent ← send env (
      h248_notify responder.remote (some r) origination_offhook (
        notify_of env tid (b'-' ∷ []) env.cfg.h248.physical_termination request_id now
          (lit "al/of")))
  when (not sent) (change r back_on_hook >> drop_pending tid)
  pure sent

unfoldable pub offhook_to : Env → Ref → Bytes → Responder → M (Unit {0})
offhook_to env r request_id responder = do
  sent ← report_offhook env r request_id responder
  when (not sent) (fail_and_release env r 503 (lit "H248 Offhook Failed"))

unfoldable pub offhook_by : Env → Ref → Bytes → Option Responder → M (Unit {0})
offhook_by env r request_id none = fail_and_release env r 503 (lit "H248 Line Not Ready")
offhook_by env r request_id (some responder) = offhook_to env r request_id responder

-- `sendOriginationOffhook`, for a call that is there
unfoldable pub send_origination_offhook : Env → Ref → M (Unit {0})
send_origination_offhook env r = do
  c ← read r (λ c. c)
  line ← gets (λ b. b.line)
  if c.released
        || c.h248_offhook_sent
        || not line.ready
        || not line.initial_onhook_sent
        || is_empty line.event_request_id
      then fail_and_release env r 503 (lit "H248 Line Not Ready")
      else offhook_by env r line.event_request_id line.responder

-- `scheduleOriginationDigits`, for a call that is there
unfoldable pub schedule_origination_digits : Env → Ref → M (Unit {0})
schedule_origination_digits env r = do
  c ← read r (λ c. c)
  when (not (c.released || c.h248_digits_sent || c.h248_digits_scheduled)) (
      change r (λ c. record c { h248_digits_scheduled = true })
      >> schedule (to_ℕ env.cfg.h248.digit_report_delay_milliseconds * 1_000_000) (send_digits r))

-- The writes to the call before the digits are reported
unfoldable pub dialled : Call → Call
dialled c = record c {
  h248_digits_scheduled = false;
  h248_digits_sent = true;
  state = h248_digits_sent;
}

unfoldable pub undialled : Call → Call
undialled c = record c { h248_digits_sent = false }

-- The report of the digits, undone if it cannot be sent; whether it was sent
unfoldable pub report_digits : Env → Ref → Call → Responder → M Bool
report_digits env r c responder = do
  tid ← new_h248_transaction_id
  change r dialled
  add_pending tid c.id origination_digits
  now ← gets (λ b. b.clock)
  sent ← send env (
      h248_notify responder.remote (some r) origination_digits (
        notify_of env tid (b'-' ∷ []) env.cfg.h248.physical_termination c.h248_event_request_id now
          (digit_map_event c.destination_number)))
  when (not sent) (change r undialled >> drop_pending tid)
  pure sent

unfoldable pub digits_to : Env → Ref → Call → Responder → M (Unit {0})
digits_to env r c responder = do
  sent ← report_digits env r c responder
  when (not sent) (fail_and_release env r 503 (lit "H248 Digit Report Failed"))

unfoldable pub unscheduled : Call → Call
unscheduled c = record c { h248_digits_scheduled = false }

unfoldable pub digits_by : Env → Ref → Call → Option Responder → M (Unit {0})
digits_by env r c none = change r unscheduled
digits_by env r c (some responder) = digits_to env r c responder

-- `sendOriginationDigits`, for a call that is there
unfoldable pub send_origination_digits : Env → Ref → M (Unit {0})
send_origination_digits env r = do
  c ← read r (λ c. c)
  if c.released || c.h248_digits_sent || is_empty c.h248_event_request_id
      then change r unscheduled
      else digits_by env r c c.h248_responder
