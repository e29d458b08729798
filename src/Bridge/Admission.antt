-- ===== src/Bridge/Admission.antt =====
-- A new INVITE of the PBX: `handleNewSIPInvite` of internal/bridge/sip.go, whose tests on the
-- message and the line are `admission`.
use megaco_sip_gateway.Prelude.{
  ℕ, ◌+◌, ◌==◌, Bytes, lit, is_empty, Bool, true, false, not, ◌&&◌, ◌||◌, List, [], ◌∷◌, ◌++◌,
  Option, none, some, if◌then◌else◌, is_nonpos,
}
use megaco_sip_gateway.Prelude.Map
use megaco_sip_gateway.Prelude.Result.{Result, ok, err}
use megaco_sip_gateway.Prelude.Strings.{trim}
use megaco_sip_gateway.Net.{UdpAddr}
use megaco_sip_gateway.Media.Relay.{MediaRelay, new_relay, set_sip_peer}
use megaco_sip_gateway.Sip.Message.{Message, call_id, cseq_number, header}
use megaco_sip_gateway.Sip.Sdp.{Sdp, SdpError, parse_sdp}
use megaco_sip_gateway.Bridge.State.{
  Ref, Call, new_call, sip_to_h248, sip_invite_received, Responder, SipResponse, Bridge, LineState,
  Env, M, ◌>>=◌, ◌>>◌, gets, done, for_some, change, send, update, sip_reply,
}
use megaco_sip_gateway.Bridge.Ports.{Identifiers, allocate_call_identifiers}
use megaco_sip_gateway.Bridge.Uri.{
  sip_uri_user, contains_codec, add_header_parameter, first_uri, parse_cseq_number, local_contact,
}
use megaco_sip_gateway.Bridge.Response.{send_sip_originated_response}
use megaco_sip_gateway.Bridge.Invite.{media_address}
use megaco_sip_gateway.Bridge.Origination.{fail_and_release, schedule_origination_offhook}

-- A response without a body
unfoldable pub plain_response : Message → ℕ → Bytes → Bytes → List (Bytes × Bytes) → SipResponse
plain_response msg status reason contact extra = record {
  request = msg;
  status = status;
  reason = reason;
  body = [];
  contact = contact;
  extra = extra;
}

-- `_ = responder.Respond(…)`
unfoldable pub reply : Env → Responder → SipResponse → M (Unit {0})
reply env responder response = send env (sip_reply responder response) >> done

-- What the tests of `handleNewSIPInvite` decide.
pub data Admission : Type 0 where
  -- a call of this Call-ID is there: its last response, if it has one, is sent again
  known : Option SipResponse → Admission
  refused : ℕ → Bytes → Admission
  admitted : UdpAddr → Bytes → Sdp → UdpAddr → Admission

abbrev pub is_there : {A : Type 0} → Option A → Bool
is_there none = false
is_there (some a) = true

abbrev pub none_there : {A : Type 0} → List A → Bool
none_there [] = true
none_there (a ∷ rest) = false

-- `lineReady`
unfoldable pub line_ready : LineState → Bool
line_ready line =
    line.ready
    && line.initial_onhook_sent
    && not (is_empty line.event_request_id)
    && is_there line.responder

-- `lineBusy`
unfoldable pub line_busy : Bridge → Bool
line_busy b = is_there b.outbound_call || not (none_there b.calls_by_h248)

-- The tests on the line
unfoldable pub admit_line : Bridge → UdpAddr → Bytes → Sdp → UdpAddr → Admission
unfolding line_ready line_busy
admit_line b source destination offer media =
    if line_busy b
    then refused 486 (lit "Busy Here")
    else if line_ready b.line
    then admitted source destination offer media
    else refused 503 (lit "H248 Line Not Ready")

abbrev pub not_acceptable : Admission
not_acceptable = refused 488 (lit "Not Acceptable Here")

unfoldable pub admit_media : Bridge → UdpAddr → Bytes → Sdp → Option UdpAddr → Admission
unfolding admit_line
admit_media b source destination offer none = not_acceptable
admit_media b source destination offer (some media) = admit_line b source destination offer media

-- The tests on the offer
unfoldable pub admit_offer : Env → Bridge → UdpAddr → Bytes → Result SdpError Sdp → Admission
unfolding admit_media
admit_offer env b source destination (err e) = not_acceptable
admit_offer env b source destination (ok offer) =
    if contains_codec offer.codecs (lit "PCMA/8000")
    then admit_media b source destination offer (media_address env offer.ip offer.port)
    else not_acceptable

-- `destination == "" || strings.Trim(destination, "0123456789*#") != ""`
unfoldable pub is_incomplete : Bytes → Bool
is_incomplete destination =
    is_empty destination || not (is_empty (trim destination (lit "0123456789*#")))

-- The tests on a call that is not known
unfoldable pub admit_new : Env → Bridge → Message → UdpAddr → Admission
unfolding is_incomplete admit_offer
admit_new env b msg source =
    let destination = sip_uri_user msg.uri in
    if is_incomplete destination
    then refused 484 (lit "Address Incomplete")
    else admit_offer env b source destination (parse_sdp msg.body)

unfoldable pub admit_from : Env → Bridge → Message → UdpAddr → Option Ref → Admission
unfolding admit_new
admit_from env b msg source (some r) = known (b.cell r).sip_last_response
admit_from env b msg source none = admit_new env b msg source

unfoldable pub admission : Env → Bridge → Message → Admission
unfolding admit_from
admission env b msg =
    if is_empty (call_id msg) then refused 400 (lit "Bad Request") else elim msg.source [
      | none ↦ refused 400 (lit "Bad Request")
      | some source ↦ admit_from env b msg source (Map.lookup (call_id msg) b.calls_by_sip)
    ]

-- The responses of the tests
unfoldable pub refusal : Env → Message → ℕ → Bytes → SipResponse
unfolding plain_response
refusal env msg status reason =
    let contact : Bytes = if status == 400 then [] else local_contact env.net env.cfg in
    let extra : List (Bytes × Bytes) =
      if status == 486 || status == 503 then (lit "Retry-After", b'5' ∷ []) ∷ [] else [] in
    plain_response msg status reason contact extra

-- The call that an admitted INVITE makes
unfoldable pub invited_call :
    Env → Message → Responder → LineState → UdpAddr → Bytes → Sdp → UdpAddr → Identifiers → Call
invited_call env msg responder line source destination offer media ids =
    record (new_call sip_to_h248) {
      id = lit "sip-" ++ call_id msg;
      state = sip_invite_received;
      h248_context_id = ids.context_id;
      h248_physical_term = env.cfg.h248.physical_termination;
      h248_ephemeral_term = ids.ephemeral;
      h248_event_request_id = line.event_request_id;
      h248_responder = line.responder;
      h248_rtp_port = ids.h248_port;
      h248_telephone_event_pt = env.cfg.media.h248_dtmf_payload_type;
      sip_call_id = call_id msg;
      sip_request_uri = msg.uri;
      sip_peer = some source;
      sip_remote_media = some media;
      sip_rtp_port = ids.sip_port;
      sip_telephone_event_pt =
          if is_nonpos offer.telephone_event_payload
          then env.cfg.media.dtmf_payload_type
          else offer.telephone_event_payload;
      sip_from = header msg (lit "From");
      sip_to = add_header_parameter (header msg (lit "To")) (lit "tag") (lit "gw");
      sip_remote_contact = first_uri (header msg (lit "Contact"));
      sip_invite_cseq = parse_cseq_number (cseq_number msg);
      sip_initial_request = some msg;
      sip_responder = some responder;
      destination_number = destination;
    }

-- `&Call{…}` and the writes to the maps
unfoldable pub register_outbound : Call → Bridge → Bridge
unfolding update
register_outbound c b = record b {
  cell = update b.cell b.next_ref c;
  next_ref = b.next_ref + 1;
  calls_by_sip = Map.insert c.sip_call_id b.next_ref b.calls_by_sip;
  outbound_call = some b.next_ref;
}

-- The part under the lock; the reference of the new call
unfoldable pub new_outbound : Env → Message → Responder → UdpAddr → Bytes → Sdp → UdpAddr → M Ref
unfolding register_outbound invited_call
new_outbound env msg responder source destination offer media b =
    let (ids, b') = allocate_call_identifiers env.cfg b in
    (
      b'.next_ref,
      register_outbound (invited_call env msg responder b'.line source destination offer media ids)
          b',
    )

-- `newMediaRelay`, which fails when a socket cannot be opened
unfoldable pub open_relay : Env → Ref → M (Option MediaRelay)
open_relay env r b =
    let c = b.cell r in
    (
      if env.relay_ok b.wire c.h248_rtp_port c.sip_rtp_port
          then some (
              new_relay c.h248_telephone_event_pt c.sip_telephone_event_pt
                env.cfg.media.h248_dtmf_mode env.cfg.media.packetization_time_millis)
          else none,
      b,
    )

-- `relay.SetSIPPeer(…)`, then `call.Media = relay`
unfoldable pub with_relay : UdpAddr → MediaRelay → Call → Call
with_relay media relay c = record c {
  media = some (set_sip_peer (some media) c.sip_telephone_event_pt relay);
}

unfoldable pub start_outbound : Env → Ref → UdpAddr → Option MediaRelay → M (Unit {0})
start_outbound env r media none = fail_and_release env r 500 (lit "RTP Resource Unavailable")
start_outbound env r media (some relay) = do
  change r (with_relay media relay)
  send_sip_originated_response env r 100 (lit "Trying") false
  schedule_origination_offhook env r

unfoldable pub outbound : Env → Message → Responder → UdpAddr → Bytes → Sdp → UdpAddr → M (Unit {0})
outbound env msg responder source destination offer media = do
  r ← new_outbound env msg responder source destination offer media
  relay ← open_relay env r
  start_outbound env r media relay

unfoldable pub admit : Env → Message → Responder → Admission → M (Unit {0})
admit env msg responder (known last) = for_some last (reply env responder)
admit env msg responder (refused status reason) =
    reply env responder (refusal env msg status reason)
admit env msg responder (admitted source destination offer media) =
    outbound env msg responder source destination offer media

-- `handleNewSIPInvite`
unfoldable pub handle_new_sip_invite : Env → Message → Responder → M (Unit {0})
handle_new_sip_invite env msg responder = do
  decision ← gets (λ b. admission env b msg)
  admit env msg responder decision
