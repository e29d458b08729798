-- ===== src/Bridge/FromMgc/Add.antt =====
-- The two kinds of Add: `handleIncomingCallAdd`, `handleOutboundCallAdd`.
use megaco_sip_gateway.Prelude.{
  ℕ, ◌+◌, Bytes, lit, same, is_empty, true, ◌||◌, List, ◌++◌, Option, none, some, ◌==◌,
  if◌then◌else◌, ℤ, pos,
}
use megaco_sip_gateway.Prelude.Map
use megaco_sip_gateway.Net.{UdpAddr}
use megaco_sip_gateway.Media.Relay.{MediaRelay, set_h248_peer, set_h248_dtmf_payload_type}
use megaco_sip_gateway.H248.Message.{Message, ActionReply}
use megaco_sip_gateway.H248.Interop.{
  MediaDescription, event_request_id, extract_remote_media, extract_local_telephone_event_payload,
}
use megaco_sip_gateway.Bridge.State.{
  Ref, Call, new_call, h248_to_sip, h248_add_received, carrier_ringing,
  h248_outbound_context_allocated, Responder, Bridge, Env, M, ◌>>=◌, ◌>>◌, modify, done, for_some,
  change, read, update, send, h248_reply, error_reply, action_reply,
}
use megaco_sip_gateway.Bridge.Ports.{Identifiers, allocate_call_identifiers}
use megaco_sip_gateway.Bridge.Line.{release_call}
use megaco_sip_gateway.Bridge.Response.{send_sip_originated_response}
use megaco_sip_gateway.Bridge.Invite.{media_address}
use megaco_sip_gateway.Bridge.Origination.{fail_and_release}
use megaco_sip_gateway.Bridge.Admission.{open_relay}
use megaco_sip_gateway.Bridge.FromMgc.Replies.{add_reply}

-- `_ = responder.Respond(h248.BuildErrorReply(msg, …))`
unfoldable pub reply_error : Env → Message → Responder → Bytes → Bytes → M (Unit {0})
reply_error env msg responder code text =
    send env (h248_reply responder msg (error_reply code text)) >> done

-- The call that an Add of the carrier makes
unfoldable pub added_call :
    Env → Message → Responder → MediaDescription → UdpAddr → Identifiers → Call
added_call env msg responder media remote ids = record (new_call h248_to_sip) {
  id = lit "h248-" ++ ids.context_id;
  state = h248_add_received;
  h248_context_id = ids.context_id;
  h248_context_allocated = true;
  h248_physical_term = env.cfg.h248.physical_termination;
  h248_ephemeral_term = ids.ephemeral;
  h248_event_request_id = event_request_id msg.raw;
  h248_responder = some responder;
  h248_remote_media = some remote;
  h248_rtp_port = ids.h248_port;
  h248_telephone_event_pt =
      if media.telephone_event_payload == 0
      then env.cfg.media.h248_dtmf_payload_type
      else pos media.telephone_event_payload;
  sip_rtp_port = ids.sip_port;
  sip_telephone_event_pt = env.cfg.media.dtmf_payload_type;
}

unfoldable pub make_call : Call → Bridge → Bridge
unfolding update
make_call c b = record b { cell = update b.cell b.next_ref c; next_ref = b.next_ref + 1 }

-- The first part under the lock; the reference of the new call, which no map has yet
unfoldable pub new_added : Env → Message → Responder → MediaDescription → UdpAddr → M Ref
unfolding make_call added_call
new_added env msg responder media remote b =
    let (ids, b') = allocate_call_identifiers env.cfg b in
    (b'.next_ref, make_call (added_call env msg responder media remote ids) b')

-- `b.callsByH248[…] = call`
unfoldable pub register_context : Ref → Bridge → Bridge
register_context r b = record b {
  calls_by_h248 = Map.insert (b.cell r).h248_context_id r b.calls_by_h248;
}

-- The reply of an Add
unfoldable pub reply_of_add : Env → Call → List ActionReply
unfolding add_reply
reply_of_add env c =
    add_reply c.h248_context_id c.h248_physical_term c.h248_ephemeral_term env.cfg.media.h248_rtp_ip
      c.h248_rtp_port c.h248_telephone_event_pt env.cfg.media.packetization_time_millis

unfoldable pub with_h248_relay : UdpAddr → MediaRelay → Call → Call
with_h248_relay remote relay c = record c {
  media = some (set_h248_peer (some remote) c.h248_telephone_event_pt relay);
}

unfoldable pub rings : Call → Call
rings c = record c { state = carrier_ringing }

unfoldable pub start_added :
    Env → Message → Responder → UdpAddr → Ref → Option MediaRelay → M (Unit {0})
start_added env msg responder remote r none =
    reply_error env msg responder (lit "510") (lit "RTP resource unavailable")
start_added env msg responder remote r (some relay) = do
  change r (with_h248_relay remote relay)
  modify (register_context r)
  c ← read r (λ c. c)
  sent ← send env (h248_reply responder msg (action_reply (reply_of_add env c)))
  if sent then change r rings else release_call r

unfoldable pub incoming :
    Env → Message → Responder → MediaDescription → Option UdpAddr → M (Unit {0})
incoming env msg responder media none =
    reply_error env msg responder (lit "510") (lit "invalid remote RTP address")
incoming env msg responder media (some remote) = do
  r ← new_added env msg responder media remote
  relay ← open_relay env r
  start_added env msg responder remote r relay

-- `handleIncomingCallAdd`
unfoldable pub handle_incoming_call_add : Env → Message → Responder → M (Unit {0})
handle_incoming_call_add env msg responder = elim (extract_remote_media msg.raw) [
  | none ↦ reply_error env msg responder (lit "510") (lit "missing remote RTP descriptor")
  | some media ↦ incoming env msg responder media (media_address env media.ip media.port)
]

-- The writes to the call of the part under the lock
unfoldable pub allocated : Message → Responder → Call → Call
allocated msg responder c =
    let request_id = event_request_id msg.raw in
    record c {
      h248_context_allocated = true;
      h248_responder = some responder;
      h248_event_request_id = if is_empty request_id then c.h248_event_request_id else request_id;
      state = h248_outbound_context_allocated;
    }

abbrev pub over_relay : (MediaRelay → MediaRelay) → Option MediaRelay → Option MediaRelay
over_relay f none = none
over_relay f (some relay) = some (f relay)

-- The payload type for telephone events
unfoldable pub with_dtmf : Env → Message → Call → Call
with_dtmf env msg c =
    if same env.cfg.media.h248_dtmf_mode (lit "inband")
    then record c { h248_telephone_event_pt = pos 0 }
    else elim (extract_local_telephone_event_payload msg.raw) [
      | none ↦ c
      | some offered ↦ record c {
        h248_telephone_event_pt = pos offered;
        media = over_relay (set_h248_dtmf_payload_type (pos offered)) c.media;
      }
    ]

-- `call.H248RemoteMedia = …`, and the peer of its relay
unfoldable pub with_h248_media : ℕ → UdpAddr → Call → Call
with_h248_media offered remote c =
    let payload : ℤ = if offered == 0 then c.h248_telephone_event_pt else pos offered in
    record c {
      h248_remote_media = some remote;
      h248_telephone_event_pt = payload;
      media = over_relay (set_h248_peer (some remote) payload) c.media;
    }

-- The media of the other side that a text has, and its address
unfoldable pub remote_of : Env → Bytes → Option (ℕ × UdpAddr)
remote_of env text = elim (extract_remote_media text) [
  | none ↦ none
  | some media ↦ elim (media_address env media.ip media.port) [
    | none ↦ none
    | some remote ↦ some (media.telephone_event_payload, remote)
  ]
]

unfoldable pub allocated_outbound : Env → Message → Responder → Ref → M (Unit {0})
allocated_outbound env msg responder r = do
  change r (allocated msg responder)
  modify (register_context r)
  change r (with_dtmf env msg)
  for_some (remote_of env msg.raw) (λ media. change r (with_h248_media media.0 media.1))
  c ← read r (λ c. c)
  sent ← send env (h248_reply responder msg (action_reply (reply_of_add env c)))
  if sent
      then (send_sip_originated_response env r 183 (lit "Session Progress") true >> done)
      else fail_and_release env r 503 (lit "Carrier Context Allocation Failed")

-- `handleOutboundCallAdd`, for a call that is there
unfoldable pub handle_outbound_call_add : Env → Message → Responder → Ref → M (Unit {0})
handle_outbound_call_add env msg responder r = do
  c ← read r (λ c. c)
  if c.released || c.h248_context_allocated
      then reply_error env msg responder (lit "510") (lit "origination context already allocated")
      else allocated_outbound env msg responder r
