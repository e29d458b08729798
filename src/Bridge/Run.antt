-- ===== src/Bridge/Run.antt =====
-- Runs of the bridge: `New` of internal/bridge/bridge.go, `HandleSIP` of internal/bridge/sip.go, and
-- the steps that the servers, the relays and the timers make. A handler runs to its end before the
-- next one starts.
use megaco_sip_gateway.Prelude.{
  ℕ, ◌+◌, zero, suc, ◌%◌, ◌^◌, ◌≤◌, Bytes, lit, same, is_empty, to_upper, true, false, not, List,
  [], ◌∷◌, none, some, if◌then◌else◌, ◌≡◌, get_elem?,
}
use megaco_sip_gateway.Config.{Config}
use megaco_sip_gateway.Media.Relay.{MediaRelay}
use megaco_sip_gateway.Sip
use megaco_sip_gateway.Sip.Message.{header}
use megaco_sip_gateway.Sip.Server.{header_parameter}
use megaco_sip_gateway.H248
use megaco_sip_gateway.Bridge.State.{
  Ref, Call, h248_to_sip, new_call, Responder, Task, send_offhook, send_digits, release_call,
  retransmit_invite, expire_retained, Bridge, Env, M, ◌>>=◌, modify, done, when, change,
}
use megaco_sip_gateway.Bridge.Ports.{normalize_even_port}
use megaco_sip_gateway.Bridge.Uri.{local_contact}
use megaco_sip_gateway.Bridge.Line
use megaco_sip_gateway.Bridge.Response.{allowed, supported}
use megaco_sip_gateway.Bridge.Retained.{expire}
use megaco_sip_gateway.Bridge.Invite.{retransmit_found}
use megaco_sip_gateway.Bridge.Origination.{send_origination_offhook, send_origination_digits}
use megaco_sip_gateway.Bridge.Admission.{handle_new_sip_invite, plain_response, reply}
use megaco_sip_gateway.Bridge.FromPbx.{
  accepted, handle_sip_bye, handle_sip_cancel, handle_sip_reinvite, handle_sip_session_update,
}
use megaco_sip_gateway.Bridge.Answer.{at_least, handle_sip_response}
use megaco_sip_gateway.Bridge.Carrier.{handle_h248_unavailable}
use megaco_sip_gateway.Bridge.FromMgc.{handle_h248, handle_h248_ready, handle_h248_response}

-- `New`, at a time of the clock
unfoldable pub new_bridge : Config → ℕ → Bridge
new_bridge cfg now = record {
  cell = λ r. new_call h248_to_sip;
  next_ref = 0;
  sip_sender = false;
  calls_by_sip = [];
  calls_by_h248 = [];
  retained_sip_invites = [];
  next_rtp_port = normalize_even_port cfg.media.port_min;
  next_context_id = now % 2 ^ 31;
  next_term_id = 0;
  next_h248_tid = now % 2 ^ 31;
  line = record {
    ready = false;
    ready_at = 0;
    event_request_id = [];
    initial_onhook_sent = false;
    responder = none;
  };
  outbound_call = none;
  pending_h248 = [];
  clock = now;
  timers = [];
  wire = [];
}

-- The cases of `strings.ToUpper(msg.Method)`
pub data Method : Type 0 where
  options ack bye cancel info session_update invite other : Method

unfoldable pub method_of : Bytes → Method
method_of name =
    let m = to_upper name in
    if same m (lit "OPTIONS")
    then options
    else if same m (lit "ACK")
    then ack
    else if same m (lit "BYE")
    then bye
    else if same m (lit "CANCEL")
    then cancel
    else if same m (lit "INFO")
    then info
    else if same m (lit "UPDATE")
    then session_update
    else if same m (lit "INVITE")
    then invite
    else other

-- An INVITE with a tag in To is first looked for among the dialogs.
unfoldable pub handle_invite : Env → Sip.Message.Message → Responder → M (Unit {0})
handle_invite env msg responder =
    if is_empty (header_parameter (header msg (lit "To")) (lit "tag"))
    then handle_new_sip_invite env msg responder
    else (do
      handled ← handle_sip_reinvite env msg responder
      when (not handled) (handle_new_sip_invite env msg responder))

unfoldable pub handle_request : Env → Sip.Message.Message → Responder → Method → M (Unit {0})
handle_request env msg responder options =
    reply env responder
      (plain_response msg 200 (lit "OK") (local_contact env.net env.cfg) (allowed ∷ supported ∷ []))
handle_request env msg responder ack = done
handle_request env msg responder bye = handle_sip_bye env msg responder
handle_request env msg responder cancel = handle_sip_cancel env msg responder
handle_request env msg responder info = reply env responder (accepted msg)
handle_request env msg responder session_update = handle_sip_session_update env msg responder
handle_request env msg responder invite = handle_invite env msg responder
handle_request env msg responder other =
    reply env responder (plain_response msg 405 (lit "Method Not Allowed") [] (allowed ∷ []))

-- `HandleSIP`
unfoldable pub handle_sip : Env → Sip.Message.Message → Responder → M (Unit {0})
handle_sip env msg responder =
    if at_least 1 msg.status
    then handle_sip_response env msg
    else handle_request env msg responder (method_of msg.method)

-- What a timer or a goroutine runs when its time has come.
unfoldable pub run_task : Env → Task → M (Unit {0})
run_task env (send_offhook r) = send_origination_offhook env r
run_task env (send_digits r) = send_origination_digits env r
run_task env (release_call r) = Line.release_call r
run_task env (retransmit_invite key interval deadline) = retransmit_found env key interval deadline
run_task env (expire_retained key) = modify (expire key)

unfoldable pub without_timer : ℕ → List (ℕ × Task) → List (ℕ × Task)
without_timer i [] = []
without_timer zero (timer ∷ rest) = rest
without_timer (suc i) (timer ∷ rest) = timer ∷ without_timer i rest

unfoldable pub take_timer : ℕ → Bridge → Bridge
take_timer i b = record b { timers = without_timer i b.timers }

unfoldable pub advance : ℕ → Bridge → Bridge
advance d b = record b { clock = b.clock + d }

unfoldable pub attach_sender : Bridge → Bridge
attach_sender b = record b { sip_sender = true }

unfoldable pub over_media : (MediaRelay → MediaRelay) → Call → Call
over_media f c = record c { media = elim c.media [ none ↦ none | some relay ↦ some (f relay) ] }

-- One step of the program
pub data Step (env : Env) : Bridge → Bridge → Type 0 where
  by_sip :
      (b : Bridge) (msg : Sip.Message.Message) (responder : Responder)
      → Step env b (handle_sip env msg responder b).1
  by_h248 :
      (b : Bridge) (msg : H248.Message.Message) (responder : Responder)
      → Step env b (handle_h248 env msg responder b).1
  by_reply :
      (b : Bridge) (msg : H248.Message.Message) → Step env b (handle_h248_response env msg b).1
  line_ready :
      (b : Bridge) (responder : Responder) → Step env b (handle_h248_ready env responder b).1
  line_lost : (b : Bridge) → Step env b (handle_h248_unavailable env b).1
  -- a timer of the list whose time has come
  timer :
      (b : Bridge) (i at : ℕ) (task : Task)
      → get_elem? b.timers i ≡ some (at, task)
      → at ≤ b.clock
      → Step env b (run_task env task (take_timer i b)).1
  -- the relay of a call forwards a packet
  relays :
      (b : Bridge) (r : Ref) (f : MediaRelay → MediaRelay)
      → Step env b (change r (over_media f) b).1
  waits : (b : Bridge) (d : ℕ) → Step env b (advance d b)
  attaches : (b : Bridge) → Step env b (attach_sender b)

-- The states that a run gets to
pub data Reach (env : Env) : Bridge → Type 0 where
  starts : (now : ℕ) → Reach env (new_bridge env.cfg now)
  goes : (b b' : Bridge) → Reach env b → Step env b b' → Reach env b'
