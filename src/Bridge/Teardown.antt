-- ===== src/Bridge/Teardown.antt =====
-- Ending the SIP side: `dialogHeaders`, `retainSIPInvite`, `sendSIPTeardown` of
-- internal/bridge/sip.go. The order of a request's headers is that of the loop over a map.
use megaco_sip_gateway.Prelude.{
  ℕ, ◌+◌, Bytes, lit, is_empty, Bool, false, not, ◌&&◌, ◌||◌, List, [], ◌∷◌, ◌++◌, Option, none,
  some, if◌then◌else◌, ℤ, is_nonpos,
}
use megaco_sip_gateway.Prelude.Map
use megaco_sip_gateway.Net.{UdpAddr}
use megaco_sip_gateway.Bridge.State.{
  Ref, Call, Direction, h248_to_sip, sip_to_h248, sip_bye_sent, sip_cancel_sent, sip_final_complete,
  RetainedInvite, SipRequest, expire_retained, Bridge, Env, M, ◌>>=◌, ◌>>◌, gets, modify, done,
  when, for_some, change, read, send, schedule, sip_send,
}
use megaco_sip_gateway.Bridge.Uri.{
  advertised, first_uri, itoa_int, next_int, random_token, trim_prefix,
}
use megaco_sip_gateway.Bridge.Response.{fail_sip_originated_call}

abbrev pub cookie : Bytes
cookie = lit "z9hG4bK-"

-- `"SIP/2.0/UDP " + advertised + ";branch=z9hG4bK-" + branch + ";rport"`
unfoldable pub via_of : Env → Bytes → Bytes
via_of env branch =
    lit "SIP/2.0/UDP "
    ++ (advertised env.net env.cfg ++ (lit ";branch=z9hG4bK-" ++ (branch ++ lit ";rport")))

-- The headers that every request of a dialog has.
unfoldable pub request_headers : Env → Bytes → Bytes → Bytes → Bytes → Bytes → List (Bytes × Bytes)
request_headers env via from to call_id cseq =
    (lit "Via", via)
    ∷ (lit "Max-Forwards", lit "70")
    ∷ (lit "From", from)
    ∷ (lit "To", to)
    ∷ (lit "Call-ID", call_id)
    ∷ (lit "CSeq", cseq)
    ∷ (lit "User-Agent", env.cfg.sip.user_agent)
    ∷ []

-- `dialogHeaders`
unfoldable pub dialog_headers : Env → Call → Bytes → ℤ → Bytes → Bytes → List (Bytes × Bytes)
unfolding request_headers
dialog_headers env c to cseq method branch =
    request_headers env (via_of env (trim_prefix branch cookie)) c.sip_from to c.sip_call_id
      (itoa_int cseq ++ (b' ' ∷ method))

-- `defaultSIPInviteTransactionTTL`, which `New` stores in the bridge; nothing else sets it.
abbrev pub invite_transaction_ttl : ℕ
invite_transaction_ttl = 32_000_000_000

was_sent : Option RetainedInvite → Bool
was_sent none = false
was_sent (some retained) = retained.late_2xx_bye_sent

-- The entry that `retainSIPInvite` writes; a flag of an entry that is there stays.
unfoldable pub retained_of : Call → ℕ → Option RetainedInvite → RetainedInvite
unfolding was_sent
retained_of c now old = record {
  call_id = c.sip_call_id;
  request_uri = c.sip_request_uri;
  from = c.sip_from;
  invite_via = c.sip_invite_via;
  invite_branch = c.sip_invite_branch;
  invite_cseq = c.sip_invite_cseq;
  peer = c.sip_peer;
  expires_at = now + invite_transaction_ttl;
  late_2xx_bye_sent = was_sent old;
}

abbrev pub retain : Ref → Bridge → Bridge
retain r b =
    let c = b.cell r in
    record b {
      retained_sip_invites =
          Map.insert c.sip_call_id
            (retained_of c b.clock (Map.lookup c.sip_call_id b.retained_sip_invites))
            b.retained_sip_invites;
    }

-- `retainSIPInvite`, for a call that is there
unfoldable pub retain_sip_invite : Ref → M (Unit {0})
retain_sip_invite r = do
  c ← read r (λ c. c)
  when (not (is_empty c.sip_call_id || is_empty c.sip_request_uri || is_nonpos c.sip_invite_cseq))
      (modify (retain r) >> schedule invite_transaction_ttl (expire_retained c.sip_call_id))

-- `if sender != nil { sender.SendTo(…) }`
unfoldable pub send_by_server : Env → UdpAddr → SipRequest → M (Unit {0})
send_by_server env peer request = do
  attached ← gets (λ b. b.sip_sender)
  when attached (send env (sip_send peer request) >> done)

-- A SIP-originated call that has been answered: BYE towards the PBX that called.
unfoldable pub bye_to_caller : Env → Ref → UdpAddr → M (Unit {0})
bye_to_caller env r peer = do
  c ← read r (λ c. c)
  now ← gets (λ b. b.clock)
  change r (λ c. record c { state = sip_bye_sent })
  let uri = if is_empty c.sip_remote_contact then first_uri c.sip_from else c.sip_remote_contact
  when (not (is_empty uri)) (
      send_by_server env peer (record {
        method = lit "BYE";
        uri = uri;
        headers =
            request_headers env (via_of env (random_token (lit "bye") now)) c.sip_to c.sip_from
              c.sip_call_id (lit "1 BYE");
        body = [];
      }))

-- The BYE of an answered call that the gateway originated.
unfoldable pub bye_request : Env → Call → ℕ → SipRequest
bye_request env c now = record {
  method = lit "BYE";
  uri = if is_empty c.sip_remote_contact then c.sip_request_uri else c.sip_remote_contact;
  headers =
      dialog_headers env c c.sip_to (next_int c.sip_invite_cseq) (lit "BYE")
        (random_token (lit "bye") now);
  body = [];
}

-- `headers["Via"] = …`
abbrev set_via : Bytes → List (Bytes × Bytes) → List (Bytes × Bytes)
set_via via [] = []
set_via via ((name, value) ∷ rest) = (lit "Via", via) ∷ rest

-- The CANCEL of an INVITE without a final response: it reuses the INVITE's Via.
unfoldable pub cancel_request : Env → Call → SipRequest
cancel_request env c =
    let headers =
      dialog_headers env c c.sip_to c.sip_invite_cseq (lit "CANCEL")
        (trim_prefix c.sip_invite_branch cookie) in
    record {
      method = lit "CANCEL";
      uri = c.sip_request_uri;
      headers = if is_empty c.sip_invite_via then headers else set_via c.sip_invite_via headers;
      body = [];
    }

-- The end of a call that the gateway originated.
unfoldable pub end_originated : Env → Ref → UdpAddr → Call → M (Unit {0})
end_originated env r peer c =
    if not c.sip_answered && c.sip_invite_final
    then change r (λ c. record c { state = sip_final_complete })
    else if c.sip_answered
    then (do
      now ← gets (λ b. b.clock)
      change r (λ c. record c { state = sip_bye_sent })
      send_by_server env peer (bye_request env c now))
    else (change r (λ c. record c { state = sip_cancel_sent })
        >> (retain_sip_invite r >> send_by_server env peer (cancel_request env c)))

unfoldable pub teardown_to : Env → Ref → Call → UdpAddr → Direction → M (Unit {0})
teardown_to env r c peer h248_to_sip = end_originated env r peer c
teardown_to env r c peer sip_to_h248 =
    if c.sip_answered
    then bye_to_caller env r peer
    else fail_sip_originated_call env r 503 (lit "Carrier Call Released")

-- `sendSIPTeardown`, for a call that is there
unfoldable pub send_sip_teardown : Env → Ref → M (Unit {0})
send_sip_teardown env r = do
  c ← read r (λ c. c)
  when (not (is_empty c.sip_call_id || c.sip_remote_released))
      (for_some c.sip_peer (λ peer. teardown_to env r c peer c.direction))
