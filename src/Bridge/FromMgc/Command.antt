-- ===== src/Bridge/FromMgc/Command.antt =====
-- Every command but the Add of a new context: `processH248Command`.
use megaco_sip_gateway.Prelude.{
  ℕ, Bytes, lit, same, is_empty, to_lower, contains_text, Bool, true, false, not, ◌&&◌, ◌||◌, [],
  ◌∷◌, Option, none, some, if◌then◌else◌,
}
use megaco_sip_gateway.Prelude.Map
use megaco_sip_gateway.Net.{UdpAddr}
use megaco_sip_gateway.H248.Message.{Command, Message}
use megaco_sip_gateway.H248.Interop.{event_request_id, contains_ring_signal}
use megaco_sip_gateway.H248.Interop.CallerId.{decode_andisp_caller_id}
use megaco_sip_gateway.Bridge.State.{
  Ref, Call, Direction, h248_to_sip, sip_to_h248, Responder, Bridge, Env, M, ◌>>=◌, ◌>>◌, gets,
  modify, when, for_some, change, read,
}
use megaco_sip_gateway.Bridge.Line.{send_initial_onhook, try_answer_h248}
use megaco_sip_gateway.Bridge.Response.{answer_sip_originated_call}
use megaco_sip_gateway.Bridge.Invite.{start_sip_invite}
use megaco_sip_gateway.Bridge.Origination.{schedule_origination_digits}
use megaco_sip_gateway.Bridge.Carrier.{handle_carrier_release, release_all_calls_from_carrier}
use megaco_sip_gateway.Bridge.FromMgc.Replies.{is_line_termination, is_carrier_clear}
use megaco_sip_gateway.Bridge.FromMgc.Add.{remote_of, with_h248_media}

-- The request ID of a command, or else of its message
unfoldable pub request_of : Message → Command → Bytes
request_of msg command =
    let own = event_request_id command.body in
    if is_empty own then event_request_id msg.raw else own

unfoldable pub listen_line : Bytes → Responder → Bridge → Bridge
listen_line request_id responder b = record b {
  line = record b.line { event_request_id = request_id; responder = some responder };
}

-- The outbound call that waits for a digit map
abbrev pub is_off_hook : Call → Bool
is_off_hook c = c.h248_offhook_sent && not c.h248_digits_sent

-- `"dd/ce"` or `"cg/dt"` is in the text.
unfoldable pub asks_digits : Bytes → Bool
asks_digits body =
    contains_text (to_lower body) (lit "dd/ce") || contains_text (to_lower body) (lit "cg/dt")

unfoldable pub listens : Bytes → Responder → Call → Call
listens request_id responder c = record c {
  h248_event_request_id = request_id;
  h248_responder = some responder;
}

unfoldable pub outbound_command : Env → Command → Bytes → Responder → Ref → M (Unit {0})
outbound_command env command request_id responder r = do
  waits ← read r is_off_hook
  when (waits && not (is_empty request_id)) (change r (listens request_id responder))
  when (waits && asks_digits command.body) (schedule_origination_digits env r)

-- A command on the line in the null context
unfoldable pub line_command : Env → Command → Bytes → Responder → M (Unit {0})
line_command env command request_id responder = do
  when (not (is_empty request_id))
      (modify (listen_line request_id responder) >> send_initial_onhook env)
  outbound ← gets (λ b. b.outbound_call)
  for_some outbound (outbound_command env command request_id responder)

-- The writes of the first part under the lock
unfoldable pub commanded : Command → Bytes → Responder → Call → Call
commanded command request_id responder c =
    let caller = decode_andisp_caller_id command.body in
    record c {
      h248_responder = some responder;
      h248_event_request_id =
          if not (is_empty request_id)
            && is_line_termination command.termination_id c.h248_physical_term
          then request_id
          else c.h248_event_request_id;
      caller_id = if is_empty caller then c.caller_id else caller;
    }

abbrev pub was_called : Direction → Bool
was_called h248_to_sip = false
was_called sip_to_h248 = true

-- The media of a command
unfoldable pub command_media : Env → Command → Ref → ℕ × UdpAddr → M (Unit {0})
command_media env command r (offered, remote) = do
  change r (with_h248_media offered remote)
  direction ← read r (λ c. c.direction)
  when (was_called direction && contains_text (to_lower command.body) (lit "mo=sr"))
      (answer_sip_originated_call env r)

-- A command in the context of a call
unfoldable pub call_command : Env → Command → Bytes → Responder → Ref → M (Unit {0})
call_command env command request_id responder r = do
  change r (commanded command request_id responder)
  for_some (remote_of env command.body) (command_media env command r)
  termination ← read r (λ c. c.h248_physical_term)
  when
      (same command.name (lit "Modify")
        && is_line_termination command.termination_id termination
        && contains_ring_signal command.body)
      (start_sip_invite env r)
  if same command.name (lit "Subtract") || is_carrier_clear command
      then handle_carrier_release env r (same command.name (lit "Subtract"))
      else when (not (is_empty request_id)) (try_answer_h248 env r)

unfoldable pub context_of : Message → Command → Bytes
context_of msg command = if is_empty command.context_id then msg.context_id else command.context_id

-- A command in a context that no call has
unfoldable pub no_call_command : Env → Message → Command → M (Unit {0})
no_call_command env msg command =
    when
      (same command.name (lit "Subtract")
        && (same (context_of msg command) (b'*' ∷ []) || same command.termination_id (b'*' ∷ [])))
      (release_all_calls_from_carrier env)

unfoldable pub context_command : Env → Message → Command → Responder → Option Ref → M (Unit {0})
context_command env msg command responder none = no_call_command env msg command
context_command env msg command responder (some r) =
    call_command env command (request_of msg command) responder r

-- `processH248Command`
unfoldable pub process_h248_command : Env → Message → Responder → Command → M (Unit {0})
process_h248_command env msg responder command = do
  found ← gets (λ b. Map.lookup (context_of msg command) b.calls_by_h248)
  if is_line_termination command.termination_id env.cfg.h248.physical_termination
        && (is_empty command.context_id || same command.context_id (b'-' ∷ []))
      then line_command env command (request_of msg command) responder
      else context_command env msg command responder found
