-- ===== src/Bridge/FromPbx.antt =====
-- Requests of the PBX about a call that is there: CANCEL, BYE, an INVITE of a dialog and UPDATE, of
-- internal/bridge/sip.go.
use megaco_sip_gateway.Prelude.{
  ℕ, Bytes, lit, is_empty, Bool, true, false, [], ◌∷◌, Option, none, some, if◌then◌else◌,
}
use megaco_sip_gateway.Prelude.Map
use megaco_sip_gateway.Sip.Message.{Message, call_id}
use megaco_sip_gateway.Sip.Sdp.{build_sdp_with_ptime}
use megaco_sip_gateway.Bridge.State.{
  Ref, Call, Direction, h248_to_sip, sip_to_h248, Responder, SipResponse, release_call, Env, M,
  ◌>>=◌, ◌>>◌, pure, gets, change, read, schedule,
}
use megaco_sip_gateway.Bridge.Uri.{local_contact}
use megaco_sip_gateway.Bridge.Line
use megaco_sip_gateway.Bridge.Response.{fail_sip_originated_call}
use megaco_sip_gateway.Bridge.Invite.{update_sip_remote_media}
use megaco_sip_gateway.Bridge.Admission.{plain_response, reply}

-- `2*time.Second`
abbrev pub release_delay : ℕ
release_delay = 2_000_000_000

-- `time.AfterFunc(2*time.Second, func() { b.releaseCall(call) })`
unfoldable pub release_later : Ref → M (Unit {0})
release_later r = schedule release_delay (release_call r)

abbrev pub no_such_call : Message → SipResponse
no_such_call msg = plain_response msg 481 (lit "Call/Transaction Does Not Exist") [] []

abbrev pub accepted : Message → SipResponse
accepted msg = plain_response msg 200 (lit "OK") [] []

-- The call of the message's Call-ID
unfoldable pub find_call : Message → M (Option Ref)
find_call msg = gets (λ b. Map.lookup (call_id msg) b.calls_by_sip)

unfoldable pub remote_released : Call → Call
remote_released c = record c { sip_remote_released = true }

unfoldable pub cancel_call : Env → Message → Responder → Ref → Direction → M (Unit {0})
cancel_call env msg responder r h248_to_sip = reply env responder (no_such_call msg)
cancel_call env msg responder r sip_to_h248 = do
  change r remote_released
  reply env responder (accepted msg)
  fail_sip_originated_call env r 487 (lit "Request Terminated")
  Line.report_onhook env r
  release_later r

unfoldable pub cancel_found : Env → Message → Responder → Option Ref → M (Unit {0})
cancel_found env msg responder none = reply env responder (no_such_call msg)
cancel_found env msg responder (some r) = do
  direction ← read r (λ c. c.direction)
  cancel_call env msg responder r direction

-- `handleSIPCancel`
unfoldable pub handle_sip_cancel : Env → Message → Responder → M (Unit {0})
handle_sip_cancel env msg responder = do found ← find_call msg; cancel_found env msg responder found

unfoldable pub bye_found : Env → Message → Responder → Option Ref → M (Unit {0})
bye_found env msg responder none = reply env responder (no_such_call msg)
bye_found env msg responder (some r) = do
  change r remote_released
  reply env responder (accepted msg)
  Line.report_onhook env r
  release_later r

-- `handleSIPBye`
unfoldable pub handle_sip_bye : Env → Message → Responder → M (Unit {0})
handle_sip_bye env msg responder = do found ← find_call msg; bye_found env msg responder found

-- The part of `handleSIPReinvite` and `handleSIPSessionUpdate` that reads the body; whether it is
-- acceptable
unfoldable pub take_body : Env → Ref → Bytes → M Bool
take_body env r body = if is_empty body then pure true else update_sip_remote_media env r body

unfoldable pub reinvite_response : Env → Message → Call → SipResponse
reinvite_response env msg c = record {
  request = msg;
  status = 200;
  reason = lit "OK";
  body =
      build_sdp_with_ptime (lit "h248gw") env.cfg.media.rtp_ip c.sip_rtp_port
        env.cfg.media.codec_list c.sip_telephone_event_pt env.cfg.media.packetization_time_millis;
  contact = local_contact env.net env.cfg;
  extra = (lit "Supported", lit "timer") ∷ [];
}

unfoldable pub reinvite_found : Env → Message → Responder → Option Ref → M Bool
reinvite_found env msg responder none = pure false
reinvite_found env msg responder (some r) = do
  acceptable ← take_body env r msg.body
  c ← read r (λ c. c)
  reply env responder (
      if acceptable
      then reinvite_response env msg c
      else plain_response msg 488 (lit "Not Acceptable Here") (local_contact env.net env.cfg) [])
  pure true

-- `handleSIPReinvite`
unfoldable pub handle_sip_reinvite : Env → Message → Responder → M Bool
handle_sip_reinvite env msg responder = do
  found ← find_call msg
  reinvite_found env msg responder found

unfoldable pub update_found : Env → Message → Responder → Option Ref → M (Unit {0})
update_found env msg responder none = reply env responder (no_such_call msg)
update_found env msg responder (some r) = do
  acceptable ← take_body env r msg.body
  reply env responder (
      if acceptable
      then plain_response msg 200 (lit "OK") (local_contact env.net env.cfg) []
      else plain_response msg 488 (lit "Not Acceptable Here") [] [])

-- `handleSIPSessionUpdate`
unfoldable pub handle_sip_session_update : Env → Message → Responder → M (Unit {0})
handle_sip_session_update env msg responder = do
  found ← find_call msg
  update_found env msg responder found
