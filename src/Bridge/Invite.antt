-- ===== src/Bridge/Invite.antt =====
-- The INVITE that the gateway sends for a carrier's call: `startSIPInvite`, `retransmitInvite`,
-- `updateSIPRemoteMedia` of internal/bridge/sip.go. `retransmitInvite` is a goroutine in the code
-- and a timed task here. The end of the program, which ends the goroutine, is not modelled.
use megaco_sip_gateway.Prelude.{
  ℕ, ◌+◌, ◌-◌, ◌*◌, Bytes, lit, is_empty, Bool, true, false, not, ◌&&◌, ◌||◌, [], ◌∷◌, ◌++◌, Option,
  none, some, leb, if◌then◌else◌, ℤ, pos, is_nonpos,
}
use megaco_sip_gateway.Prelude.Map
use megaco_sip_gateway.Prelude.Result.{ok, err}
use megaco_sip_gateway.Prelude.Strings.{trim_space}
use megaco_sip_gateway.Prelude.Decimal.{itoa}
use megaco_sip_gateway.Net.{UdpAddr, join_host_port}
use megaco_sip_gateway.Media.Relay.{set_sip_peer}
use megaco_sip_gateway.Sip.Sdp.{build_sdp_with_ptime, parse_sdp}
use megaco_sip_gateway.Bridge.State.{
  Ref, Call, carrier_ringing, sip_invite_sent, sip_invite_timeout, SipRequest, retransmit_invite,
  Bridge, Env, M, ◌>>=◌, ◌>>◌, pure, gets, modify, done, when, for_some, change, read, update, send,
  schedule, sip_send,
}
use megaco_sip_gateway.Bridge.Uri.{
  advertised, host_only, normalize_sip_uri, resolve_sip_peer, sanitize_sip_user, random_token,
}
use megaco_sip_gateway.Bridge.Line.{release_call, report_onhook}
use megaco_sip_gateway.Bridge.Teardown.{cookie}
use megaco_sip_gateway.Bridge.Response.{allowed, supported}

-- What `startSIPInvite` computes before it takes the lock again.
pub record Invite : Type 0 where
  pub call_id : Bytes
  pub request_uri : Bytes
  pub from : Bytes
  pub to : Bytes
  pub local_tag : Bytes
  pub via : Bytes
  pub branch : Bytes
  pub request : SipRequest

-- The caller and the domain of the identity that the INVITE gives.
unfoldable pub identity : Env → Call → Bytes
identity env c =
    let user = sanitize_sip_user c.caller_id in
    let domain = trim_space env.cfg.sip.domain in
    lit "<sip:"
    ++ ((if is_empty user then lit "anonymous" else user)
        ++ (b'@'
            ∷ ((if is_empty domain then host_only (advertised env.net env.cfg) else domain)
                ++ b'>' ∷ [])))

-- The calls of `randomToken` in one handler take place at one time of the clock.
unfoldable pub invite_for : Env → Call → ℕ → Invite
unfolding identity
invite_for env c now =
    let address = advertised env.net env.cfg in
    let request_uri = normalize_sip_uri env.cfg.sip.trunk_uri in
    let local_tag = random_token (lit "tag") now in
    let branch = cookie ++ random_token (lit "branch") now in
    let call_id =
      lit "h248-"
      ++ (c.h248_context_id
          ++ (b'-' ∷ (random_token (lit "call") now ++ (b'@' ∷ host_only address)))) in
    let from = identity env c ++ (lit ";tag=" ++ local_tag) in
    let to = b'<' ∷ (request_uri ++ b'>' ∷ []) in
    let via = lit "SIP/2.0/UDP " ++ (address ++ (lit ";branch=" ++ (branch ++ lit ";rport"))) in
    record {
      call_id = call_id;
      request_uri = request_uri;
      from = from;
      to = to;
      local_tag = local_tag;
      via = via;
      branch = branch;
      request = record {
        method = lit "INVITE";
        uri = request_uri;
        headers =
            (lit "Via", via)
            ∷ (lit "Max-Forwards", lit "70")
            ∷ (lit "From", from)
            ∷ (lit "To", to)
            ∷ (lit "Call-ID", call_id)
            ∷ (lit "CSeq", lit "1 INVITE")
            ∷ (lit "Contact", lit "<sip:gateway@" ++ (address ++ b'>' ∷ []))
            ∷ allowed
            ∷ supported
            ∷ (lit "P-Asserted-Identity", identity env c)
            ∷ (lit "User-Agent", env.cfg.sip.user_agent)
            ∷ [];
        body =
            build_sdp_with_ptime (lit "h248gw") env.cfg.media.rtp_ip c.sip_rtp_port
              env.cfg.media.codec_list env.cfg.media.dtmf_payload_type
              env.cfg.media.packetization_time_millis;
      };
    }

-- The writes to the call before the INVITE is sent
unfoldable pub invited : Invite → UdpAddr → Call → Call
invited i peer c = record c {
  sip_call_id = i.call_id;
  sip_request_uri = i.request_uri;
  sip_peer = some peer;
  sip_from = i.from;
  sip_to = i.to;
  sip_local_tag = i.local_tag;
  sip_invite = some i.request;
  sip_invite_via = i.via;
  sip_invite_branch = i.branch;
  sip_invite_cseq = pos 1;
  state = sip_invite_sent;
}

unfoldable pub register_invite : Ref → Invite → UdpAddr → Bridge → Bridge
unfolding update
register_invite r i peer b = record b {
  cell = update b.cell r (invited i peer (b.cell r));
  calls_by_sip = Map.insert i.call_id r b.calls_by_sip;
}

-- What is undone when the INVITE cannot be sent
unfoldable pub unregister_invite : Ref → Invite → Bridge → Bridge
unfolding update
unregister_invite r i b = record b {
  cell = update b.cell r (record (b.cell r) { sip_call_id = []; state = carrier_ringing });
  calls_by_sip = Map.delete i.call_id b.calls_by_sip;
}

-- 500 milliseconds, 4 and 32 seconds, in nanoseconds
abbrev pub first_interval : ℕ
first_interval = 500_000_000

abbrev pub last_interval : ℕ
last_interval = 4_000_000_000

abbrev pub invite_deadline : ℕ
invite_deadline = 32_000_000_000

abbrev pub min_of : ℕ → ℕ → ℕ
min_of a b = if leb a b then a else b

-- The time to the next turn of the loop: its timer or the deadline, whichever is earlier
unfoldable pub wait_for : Bytes → ℕ → ℕ → M (Unit {0})
wait_for key interval deadline = do
  now ← gets (λ b. b.clock)
  schedule (min_of interval (deadline - now)) (retransmit_invite key interval deadline)

unfoldable pub send_invite : Env → Ref → UdpAddr → Invite → M (Unit {0})
send_invite env r peer i = do
  modify (register_invite r i peer)
  sent ← send env (sip_send peer i.request)
  now ← gets (λ b. b.clock)
  if sent
      then wait_for i.call_id first_interval (now + invite_deadline)
      else modify (unregister_invite r i)

-- `startSIPInvite`, for a call that is there
unfoldable pub start_sip_invite : Env → Ref → M (Unit {0})
start_sip_invite env r = do
  c ← read r (λ c. c)
  attached ← gets (λ b. b.sip_sender)
  now ← gets (λ b. b.clock)
  when (not (c.released || not (is_empty c.sip_call_id)) && attached) (
      for_some (resolve_sip_peer env.net env.cfg.sip.outbound_proxy env.cfg.sip.trunk_uri)
        (λ peer. send_invite env r peer (invite_for env c now)))

-- The test of the loop that ends it before the deadline
unfoldable pub is_settled : Call → Bool
is_settled c = c.released || c.sip_invite_provisional || c.sip_answered

-- The deadline of `retransmitInvite` has come.
unfoldable pub invite_timed_out : Env → Ref → M (Unit {0})
unfolding is_settled
invite_timed_out env r = do
  c ← read r (λ c. c)
  when (not (is_settled c)) (change r (λ c. record c { state = sip_invite_timeout }))
  report_onhook env r
  release_call r

unfoldable pub retransmit_to : Env → SipRequest → UdpAddr → M (Unit {0})
retransmit_to env request peer = send env (sip_send peer request) >> done

-- One turn of the loop of `retransmitInvite` for the call of its key. When the timer of the turn
-- and the deadline have both come, the code takes either branch; here the deadline is taken.
unfoldable pub retransmit_turn : Env → Bytes → ℕ → ℕ → Ref → M (Unit {0})
retransmit_turn env key interval deadline r = do
  now ← gets (λ b. b.clock)
  c ← read r (λ c. c)
  attached ← gets (λ b. b.sip_sender)
  if leb deadline now
      then invite_timed_out env r
      else when (not (is_settled c)) (
          when attached
            (for_some c.sip_invite (λ request. for_some c.sip_peer (retransmit_to env request)))
          >> wait_for key (min_of (interval * 2) last_interval) deadline)

unfoldable pub retransmit_found : Env → Bytes → ℕ → ℕ → M (Unit {0})
retransmit_found env key interval deadline = do
  found ← gets (λ b. Map.lookup key b.calls_by_sip)
  for_some found (retransmit_turn env key interval deadline)

-- The writes of `updateSIPRemoteMedia`: the peer of the relay takes the call's payload type.
unfoldable pub with_sip_media : UdpAddr → ℤ → Call → Call
with_sip_media remote offered c =
    let payload = if is_nonpos offered then c.sip_telephone_event_pt else offered in
    record c {
      sip_remote_media = some remote;
      sip_telephone_event_pt = payload;
      media = elim c.media [
        | none ↦ none
        | some relay ↦ some (set_sip_peer (some remote) payload relay)
      ];
    }

-- The address of the media that a description offers
abbrev pub media_address : Env → Bytes → ℕ → Option UdpAddr
media_address env ip port = env.net.resolve (join_host_port ip (itoa port))

unfoldable pub take_sip_media : Ref → ℤ → Option UdpAddr → M Bool
take_sip_media r offered none = pure false
take_sip_media r offered (some remote) = change r (with_sip_media remote offered) >> pure true

-- `updateSIPRemoteMedia`; whether it returns no error
unfoldable pub update_sip_remote_media : Env → Ref → Bytes → M Bool
update_sip_remote_media env r body = elim (parse_sdp body) [
  | err e ↦ pure false
  | ok sdp ↦ take_sip_media r sdp.telephone_event_payload (media_address env sdp.ip sdp.port)
]
