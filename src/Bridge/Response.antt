-- ===== src/Bridge/Response.antt =====
-- Responses to the INVITE of a SIP-originated call: `sendSIPOriginatedResponse`,
-- `answerSIPOriginatedCall`, `failSIPOriginatedCall` of internal/bridge/sip.go.
use megaco_sip_gateway.Prelude.{
  ℕ, Bytes, lit, Bool, true, false, not, ◌&&◌, ◌||◌, [], ◌∷◌, Option, some, ◌==◌, ltb, leb,
  if◌then◌else◌,
}
use megaco_sip_gateway.Sip.Message.{Message}
use megaco_sip_gateway.Sip.Sdp.{build_sdp_with_ptime}
use megaco_sip_gateway.Bridge.State.{
  Ref, Call, sip_answered_state, sip_early_media, Responder, SipResponse, Env, M, ◌>>=◌, ◌>>◌, pure,
  done, when, change, read, send, sip_reply,
}
use megaco_sip_gateway.Bridge.Uri.{local_contact}

abbrev pub allowed : Bytes × Bytes
allowed = (lit "Allow", lit "INVITE, ACK, CANCEL, BYE, OPTIONS, INFO, UPDATE")

abbrev pub supported : Bytes × Bytes
supported = (lit "Supported", lit "100rel, replaces, timer")

-- The call after a response has been made for it
unfoldable pub responded : ℕ → SipResponse → Call → Call
responded status response c =
    let last = record c { sip_last_response = some response } in
    if leb 200 status && ltb status 300
    then record last { sip_answered = true; state = sip_answered_state }
    else if status == 183
    then record last { state = sip_early_media }
    else last

unfoldable pub originated_response :
    Env → Ref → ℕ → Bytes → Bool → Call → Option Message → Option Responder → M Bool
originated_response env r status reason with_sdp c (some request) (some responder) =
    let body =
      if with_sdp
      then build_sdp_with_ptime (lit "h248gw") env.cfg.media.rtp_ip c.sip_rtp_port
          (lit "PCMA/8000" ∷ []) c.sip_telephone_event_pt env.cfg.media.packetization_time_millis
      else [] in
    let response : SipResponse = record {
      request = request;
      status = status;
      reason = reason;
      body = body;
      contact = local_contact env.net env.cfg;
      extra = allowed ∷ supported ∷ [];
    } in
    change r (responded status response) >> send env (sip_reply responder response)
originated_response env r status reason with_sdp c _ _ = pure false

-- `sendSIPOriginatedResponse`, for a call that is there
unfoldable pub send_sip_originated_response : Env → Ref → ℕ → Bytes → Bool → M Bool
send_sip_originated_response env r status reason with_sdp = do
  c ← read r (λ c. c)
  if c.released || (c.sip_answered && ltb status 200)
      then pure false
      else originated_response env r status reason with_sdp c c.sip_initial_request c.sip_responder

-- `answerSIPOriginatedCall`
unfoldable pub answer_sip_originated_call : Env → Ref → M (Unit {0})
answer_sip_originated_call env r = do
  c ← read r (λ c. c)
  when (not (c.released || c.sip_answered)) (do
    ok ← send_sip_originated_response env r 200 (lit "OK") true
    when ok (change r (λ c. record c { h248_answered = true })))

-- `failSIPOriginatedCall`
unfoldable pub fail_sip_originated_call : Env → Ref → ℕ → Bytes → M (Unit {0})
fail_sip_originated_call env r status reason = do
  answered ← read r (λ c. c.sip_answered)
  when (not answered) (send_sip_originated_response env r status reason false >> done)
