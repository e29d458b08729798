-- ===== src/Bridge/Carrier.antt =====
-- The end of calls by the carrier: `handleCarrierRelease`, `releaseAllCallsFromCarrier`,
-- `HandleH248Unavailable` of internal/bridge/h248.go, and `Close` of internal/bridge/bridge.go.
use megaco_sip_gateway.Prelude.{
  Bytes, is_empty, Bool, true, false, not, ◌&&◌, ◌||◌, List, [], ◌∷◌, ◌++◌, none, some, ◌==◌,
  if◌then◌else◌,
}
use megaco_sip_gateway.Bridge.State.{
  Ref, Call, Bridge, LineState, Env, M, ◌>>=◌, ◌>>◌, gets, modify, when, for_each, change, read,
}
use megaco_sip_gateway.Bridge.Line.{closed, release_call, report_onhook}
use megaco_sip_gateway.Bridge.Teardown.{send_sip_teardown}

-- `!call.H248OnhookSent && (call.H248OffhookSent || call.H248Answered)`
unfoldable pub needs_onhook : Call → Bool
needs_onhook c = not c.h248_onhook_sent && (c.h248_offhook_sent || c.h248_answered)

abbrev pub line_of_call : Call → LineState → LineState
line_of_call c line = elim c.h248_responder [
  | none ↦ line
  | some responder ↦
      if is_empty c.h248_event_request_id
      then line
      else record line { event_request_id = c.h248_event_request_id; responder = some responder }
]

unfoldable pub in_null_context : Call → Call
in_null_context c = record c { h248_context_allocated = false }

-- `handleCarrierRelease`, for a call that is there
unfoldable pub handle_carrier_release : Env → Ref → Bool → M (Unit {0})
handle_carrier_release env r context_released = do
  c ← read r (λ c. c)
  when context_released
      (change r in_null_context >> modify (λ b. record b { line = line_of_call c b.line }))
  when (needs_onhook c) (report_onhook env r)
  send_sip_teardown env r
  release_call r

abbrev pub refs_of : List (Bytes × Ref) → List Ref
refs_of [] = []
refs_of ((key, r) ∷ rest) = r ∷ refs_of rest

-- `releaseAllCallsFromCarrier`
unfoldable pub release_all_calls_from_carrier : Env → M (Unit {0})
release_all_calls_from_carrier env = do
  calls ← gets (λ b. refs_of b.calls_by_h248)
  for_each calls (λ r. handle_carrier_release env r true)

-- Whether a call is in a list, and a list with each call once
unfoldable pub has : Ref → List Ref → Bool
has r [] = false
has r (j ∷ rest) = j == r || has r rest

unfoldable pub once : List Ref → List Ref
once [] = []
once (r ∷ rest) = let others = once rest in if has r others then others else r ∷ others

-- The calls that `HandleH248Unavailable` ends
unfoldable pub line_calls : Bridge → List Ref
line_calls b =
    let calls = once (refs_of b.calls_by_h248) in
    elim b.outbound_call [
      | none ↦ calls
      | some r ↦ if has r calls then calls else calls ++ (r ∷ [])
    ]

unfoldable pub lose_line : Bridge → Bridge
lose_line b = record b {
  line = record {
    ready = false;
    ready_at = 0;
    event_request_id = [];
    initial_onhook_sent = false;
    responder = none;
  };
  pending_h248 = [];
}

unfoldable pub tear_down : Env → Ref → M (Unit {0})
tear_down env r = send_sip_teardown env r >> release_call r

-- `HandleH248Unavailable`
unfoldable pub handle_h248_unavailable : Env → M (Unit {0})
handle_h248_unavailable env = do
  calls ← gets line_calls
  modify lose_line
  for_each calls (tear_down env)

-- `call.Released = true`, and `relay.Close()` afterwards
unfoldable pub shut : Call → Call
shut c = record c { released = true; media = closed c.media }

-- `Close`
unfoldable pub close_bridge : M (Unit {0})
close_bridge = do
  calls ← gets (λ b. once (refs_of b.calls_by_h248 ++ refs_of b.calls_by_sip))
  modify (λ b. record b { retained_sip_invites = [] })
  for_each calls (λ r. change r shut)
