-- ===== src/Bridge/Line.antt =====
-- Events that the gateway reports on the H.248 line: `newH248TransactionID`, `sendInitialOnhook`,
-- `sendCallLineEvent`, `tryAnswerH248` of internal/bridge, and `releaseCall`.
use megaco_sip_gateway.Prelude.{
  ℕ, Bytes, lit, is_empty, Bool, true, false, not, ◌&&◌, ◌||◌, [], ◌∷◌, Option, none, some, ◌==◌,
  if◌then◌else◌, is_nonpos, to_ℕ,
}
use megaco_sip_gateway.Prelude.Map
use megaco_sip_gateway.Prelude.Decimal.{itoa}
use megaco_sip_gateway.Media.Relay.{MediaRelay, close}
use megaco_sip_gateway.H248.Interop.Notify.{Notify}
use megaco_sip_gateway.Bridge.State.{
  Ref, Call, released_state, Responder, Phase, initial_onhook, answer, onhook, Bridge, Env, M,
  ◌>>=◌, ◌>>◌, pure, gets, modify, done, when, for_some, change, read, send, update, h248_notify,
}
use megaco_sip_gateway.Bridge.Ports.{next_uint64}

abbrev pub closed : Option MediaRelay → Option MediaRelay
closed none = none
closed (some relay) = some (close relay)

abbrev pub without_ref : Option Ref → Ref → Option Ref
without_ref none r = none
without_ref (some j) r = if j == r then none else some j

-- The part of `releaseCall` under the lock, for a call that is not released.
unfoldable pub take_down : Ref → Bridge → Bridge
unfolding update
take_down r b =
    let c = b.cell r in
    record b {
      cell = update b.cell r (record c { released = true; state = released_state });
      calls_by_h248 = Map.delete c.h248_context_id b.calls_by_h248;
      calls_by_sip =
          if is_empty c.sip_call_id
          then b.calls_by_sip
          else Map.delete c.sip_call_id b.calls_by_sip;
      outbound_call = without_ref b.outbound_call r;
    }

-- `releaseCall`, for a call that is there
unfoldable pub release_call : Ref → M (Unit {0})
release_call r = do
  over ← read r (λ c. c.released)
  when (not over) (modify (take_down r) >> change r (λ c. record c { media = closed c.media }))

-- `newH248TransactionID`
unfoldable pub new_h248_transaction_id : M Bytes
new_h248_transaction_id b =
    let n = next_uint64 b.next_h248_tid in (itoa n, record b { next_h248_tid = n })

-- `b.pendingH248[tid] = …` and `delete(b.pendingH248, tid)`
unfoldable pub add_pending : Bytes → Bytes → Phase → M (Unit {0})
add_pending tid call_id phase = modify (λ b. record b {
  pending_h248 = Map.insert tid (record { call_id = call_id; phase = phase }) b.pending_h248;
})

unfoldable pub drop_pending : Bytes → M (Unit {0})
drop_pending tid = modify (λ b. record b { pending_h248 = Map.delete tid b.pending_h248 })

-- The arguments of `h248.BuildNotify` that are the same everywhere
unfoldable pub notify_of : Env → Bytes → Bytes → Bytes → Bytes → ℕ → Bytes → Notify
notify_of env tid context_id termination request_id now event = record {
  version = if is_nonpos env.cfg.h248.version then 1 else to_ℕ env.cfg.h248.version;
  mid = env.cfg.h248.mgid;
  transaction_id = tid;
  context_id = context_id;
  termination = termination;
  request_id = request_id;
  observed_at = env.timestamp now;
  event = event;
}

abbrev pub set_initial_onhook : Bool → Bridge → Bridge
set_initial_onhook v b = record b { line = record b.line { initial_onhook_sent = v } }

unfoldable pub initial_onhook_to : Env → Bytes → Responder → M (Unit {0})
initial_onhook_to env request_id responder = do
  tid ← new_h248_transaction_id
  modify (set_initial_onhook true)
  add_pending tid [] initial_onhook
  now ← gets (λ b. b.clock)
  ok ← send env (
      h248_notify responder.remote none initial_onhook (
        notify_of env tid (b'-' ∷ []) env.cfg.h248.physical_termination request_id now
          (lit "al/on")))
  when (not ok) (modify (set_initial_onhook false) >> drop_pending tid)

-- `sendInitialOnhook`
unfoldable pub send_initial_onhook : Env → M (Unit {0})
unfolding initial_onhook_to
send_initial_onhook env = do
  line ← gets (λ b. b.line)
  when (line.ready && not line.initial_onhook_sent && not (is_empty line.event_request_id))
      (for_some line.responder (initial_onhook_to env line.event_request_id))

-- The tests of `sendCallLineEvent` on the phase
unfoldable pub is_reported : Phase → Call → Bool
is_reported answer c = not c.sip_answered || c.h248_answered
is_reported onhook c = c.h248_onhook_sent
is_reported _ c = false

-- The flag of the phase
unfoldable pub mark_reported : Phase → Bool → Call → Call
mark_reported answer v c = record c { h248_answered = v }
mark_reported onhook v c = record c { h248_onhook_sent = v }
mark_reported _ v c = c

unfoldable pub line_event_to : Env → Ref → Bytes → Phase → Responder → M Bool
line_event_to env r event phase responder = do
  change r (mark_reported phase true)
  tid ← new_h248_transaction_id
  c ← read r (λ c. c)
  add_pending tid c.id phase
  now ← gets (λ b. b.clock)
  ok ← send env (
      h248_notify responder.remote (some r) phase (
        notify_of env tid (if c.h248_context_allocated then c.h248_context_id else b'-' ∷ [])
          c.h248_physical_term c.h248_event_request_id now event))
  if ok
      then pure true
      else (drop_pending tid >> (change r (mark_reported phase false) >> pure false))

unfoldable pub line_event_by : Env → Ref → Bytes → Phase → Option Responder → M Bool
line_event_by env r event phase none = pure false
line_event_by env r event phase (some responder) = line_event_to env r event phase responder

-- `sendCallLineEvent`, for a call that is there
unfoldable pub send_call_line_event : Env → Ref → Bytes → Phase → M Bool
send_call_line_event env r event phase = do
  c ← read r (λ c. c)
  if c.released || is_empty c.h248_event_request_id || is_reported phase c
      then pure false
      else line_event_by env r event phase c.h248_responder

-- `tryAnswerH248`
unfoldable pub try_answer_h248 : Env → Ref → M (Unit {0})
try_answer_h248 env r = send_call_line_event env r (lit "al/of") answer >> done

-- `b.sendCallLineEvent(call, "al/on", "onhook")`
unfoldable pub report_onhook : Env → Ref → M (Unit {0})
report_onhook env r = send_call_line_event env r (lit "al/on") onhook >> done
