-- ===== src/Bridge/Answer.antt =====
-- Responses of the PBX: `handleSIPResponse` of internal/bridge/sip.go.
use megaco_sip_gateway.Prelude.{
  ℕ, lit, is_empty, to_lower, contains_text, Bool, true, false, not, ◌&&◌, ◌||◌, Option, none, some,
  if◌then◌else◌, ℤ, pos, negsuc, leb, ◌==◌,
}
use megaco_sip_gateway.Prelude.Map
use megaco_sip_gateway.Sip.Message.{Message, call_id, header}
use megaco_sip_gateway.Sip.Server.{header_parameter}
use megaco_sip_gateway.Bridge.State.{
  Ref, Call, sip_ringing, sip_early_media, sip_answered_state, sip_final_failure, Env, M, ◌>>=◌,
  ◌>>◌, gets, done, when, for_some, change, read,
}
use megaco_sip_gateway.Bridge.Uri.{first_uri}
use megaco_sip_gateway.Bridge.Line.{release_call, report_onhook, try_answer_h248}
use megaco_sip_gateway.Bridge.Teardown.{retain_sip_invite, send_sip_teardown}
use megaco_sip_gateway.Bridge.Retained.{
  answers, handle_retained_response, is_final, is_success, or_else_peer, send_invite_ack,
  send_prack, transaction_of,
}
use megaco_sip_gateway.Bridge.Invite.{update_sip_remote_media}
use megaco_sip_gateway.Bridge.FromPbx.{find_call, release_later}

abbrev pub at_least : ℕ → ℤ → Bool
at_least n (pos m) = leb n m
at_least n (negsuc m) = false

-- The writes of the first part under the lock
unfoldable pub answered_by : Message → Call → Call
answered_by msg c = record c {
  sip_peer = or_else_peer msg.source c.sip_peer;
  sip_invite_provisional =
      c.sip_invite_provisional || (answers msg (lit "INVITE") && at_least 100 msg.status);
  sip_invite_final = c.sip_invite_final || (answers msg (lit "INVITE") && is_final msg.status);
}

abbrev pub is_status : ℤ → ℕ → Bool
is_status (pos n) m = n == m
is_status (negsuc n) m = false

unfoldable pub progressed : ℤ → Call → Call
progressed status c =
    if is_status status 180
    then record c { state = sip_ringing }
    else if is_status status 183
    then record c { state = sip_early_media }
    else c

-- Whether a provisional response asks for a PRACK
unfoldable pub is_reliable : Message → Bool
is_reliable msg =
    not (is_empty (header msg (lit "RSeq")))
    && contains_text (to_lower (header msg (lit "Require"))) (lit "100rel")

unfoldable pub provisional : Env → Ref → Message → M (Unit {0})
provisional env r msg = do
  when (not (is_empty msg.body)) (update_sip_remote_media env r msg.body >> done)
  change r (progressed msg.status)
  when (is_reliable msg) (send_prack env r msg (header msg (lit "RSeq")))

-- The writes on a successful answer
unfoldable pub answered : Message → Call → Call
answered msg c = record c {
  sip_answered = true;
  sip_to = header msg (lit "To");
  sip_remote_tag = header_parameter (header msg (lit "To")) (lit "tag");
  sip_remote_contact = first_uri (header msg (lit "Contact"));
  state = sip_answered_state;
}

unfoldable pub end_call : Env → Ref → M (Unit {0})
end_call env r = do send_sip_teardown env r; report_onhook env r; release_call r

unfoldable pub succeeded : Env → Ref → Message → M (Unit {0})
succeeded env r msg = do
  acceptable ← update_sip_remote_media env r msg.body
  if acceptable then (change r (answered msg) >> try_answer_h248 env r) else end_call env r

unfoldable pub failed_finally : Call → Call
failed_finally c = record c { state = sip_final_failure }

unfoldable pub failed : Env → Ref → M (Unit {0})
failed env r = do change r failed_finally; retain_sip_invite r; report_onhook env r; release_later r

unfoldable pub final : Env → Ref → Message → M (Unit {0})
final env r msg = do
  c ← read r (λ c. c)
  send_invite_ack env (transaction_of c) msg c.sip_peer
  if is_success msg.status then succeeded env r msg else failed env r

-- A response of a call that is there and not released
unfoldable pub response_of_call : Env → Ref → Message → M (Unit {0})
response_of_call env r msg = do
  change r (answered_by msg)
  when (answers msg (lit "INVITE"))
      (if is_final msg.status then final env r msg else provisional env r msg)

unfoldable pub response_of_retained : Env → Message → M (Unit {0})
response_of_retained env msg = do
  found ← gets (λ b. Map.lookup (call_id msg) b.retained_sip_invites)
  for_some found (λ retained. handle_retained_response env (call_id msg) retained msg)

unfoldable pub response_to : Env → Message → Option Ref → M (Unit {0})
response_to env msg none = response_of_retained env msg
response_to env msg (some r) = do
  released ← read r (λ c. c.released)
  if released then response_of_retained env msg else response_of_call env r msg

-- `handleSIPResponse`
unfoldable pub handle_sip_response : Env → Message → M (Unit {0})
handle_sip_response env msg = do found ← find_call msg; response_to env msg found
