-- ===== src/Bridge/State.antt =====
-- The state of internal/bridge/bridge.go, the effects of its operations, and their monad. A
-- `*Call` is a reference into a store of calls, so that the maps, the outbound call and the timers
-- share one call. Each part of a handler between `b.mu.Lock()` and `b.mu.Unlock()` is one action.
pub mod Keeps
use megaco_sip_gateway.Prelude.{
  ℕ, ◌+◌, Bytes, is_empty, Bool, true, false, List, [], ◌∷◌, ◌++◌, Option, none, some, ◌==◌,
  if◌then◌else◌, ℤ, pos,
}
use megaco_sip_gateway.Prelude.Map
use megaco_sip_gateway.Net.{UdpAddr, Resolver}
use megaco_sip_gateway.Config.{Config}
use megaco_sip_gateway.Media.Relay.{MediaRelay}
use megaco_sip_gateway.H248
use megaco_sip_gateway.H248.Interop.Notify.{Notify}
use megaco_sip_gateway.Sip

abbrev pub Ref : Type 0
Ref = ℕ

-- A `udpResponder` of either server.
pub record Responder : Type 0 where
  pub remote : UdpAddr
  pub cache_key : Bytes

pub data Direction : Type 0 where
  h248_to_sip sip_to_h248 : Direction

-- The texts of `Call.State`, which the code sets and only its tests and logs read.
pub data CallState : Type 0 where
  h248_add_received carrier_ringing h248_outbound_context_allocated : CallState
  h248_offhook_sent h248_digits_sent released_state : CallState
  sip_invite_received sip_invite_sent sip_invite_timeout sip_ringing sip_early_media : CallState
  sip_answered_state sip_final_failure sip_final_complete sip_bye_sent sip_cancel_sent : CallState

-- A response before it is printed by `sip.BuildResponse`.
pub record SipResponse : Type 0 where
  pub request : Sip.Message.Message
  pub status : ℕ
  pub reason : Bytes
  pub body : Bytes
  pub contact : Bytes
  pub extra : List (Bytes × Bytes)

-- A request before it is printed by `sip.BuildRequest`.
pub record SipRequest : Type 0 where
  pub method : Bytes
  pub uri : Bytes
  pub headers : List (Bytes × Bytes)
  pub body : Bytes

pub record Call : Type 0 where
  pub id : Bytes
  pub direction : Direction
  pub state : CallState
  pub released : Bool
  pub h248_context_id : Bytes
  pub h248_context_allocated : Bool
  pub h248_physical_term : Bytes
  pub h248_ephemeral_term : Bytes
  pub h248_event_request_id : Bytes
  pub h248_responder : Option Responder
  pub h248_remote_media : Option UdpAddr
  pub h248_rtp_port : ℕ
  pub h248_telephone_event_pt : ℤ
  pub h248_answered : Bool
  pub h248_onhook_sent : Bool
  pub h248_offhook_sent : Bool
  pub h248_digits_sent : Bool
  pub h248_digits_scheduled : Bool
  pub sip_call_id : Bytes
  pub sip_request_uri : Bytes
  pub sip_peer : Option UdpAddr
  pub sip_remote_media : Option UdpAddr
  pub sip_rtp_port : ℕ
  pub sip_telephone_event_pt : ℤ
  pub sip_from : Bytes
  pub sip_to : Bytes
  pub sip_local_tag : Bytes
  pub sip_remote_tag : Bytes
  pub sip_remote_contact : Bytes
  pub sip_invite : Option SipRequest
  pub sip_invite_via : Bytes
  pub sip_invite_branch : Bytes
  pub sip_invite_cseq : ℤ
  pub sip_invite_provisional : Bool
  pub sip_invite_final : Bool
  pub sip_answered : Bool
  pub sip_remote_released : Bool
  pub sip_initial_request : Option Sip.Message.Message
  pub sip_responder : Option Responder
  pub sip_last_response : Option SipResponse
  pub caller_id : Bytes
  pub destination_number : Bytes
  pub media : Option MediaRelay

-- `&Call{}`
abbrev pub new_call : Direction → Call
new_call direction = record {
  id = [];
  direction = direction;
  state = h248_add_received;
  released = false;
  h248_context_id = [];
  h248_context_allocated = false;
  h248_physical_term = [];
  h248_ephemeral_term = [];
  h248_event_request_id = [];
  h248_responder = none;
  h248_remote_media = none;
  h248_rtp_port = 0;
  h248_telephone_event_pt = pos 0;
  h248_answered = false;
  h248_onhook_sent = false;
  h248_offhook_sent = false;
  h248_digits_sent = false;
  h248_digits_scheduled = false;
  sip_call_id = [];
  sip_request_uri = [];
  sip_peer = none;
  sip_remote_media = none;
  sip_rtp_port = 0;
  sip_telephone_event_pt = pos 0;
  sip_from = [];
  sip_to = [];
  sip_local_tag = [];
  sip_remote_tag = [];
  sip_remote_contact = [];
  sip_invite = none;
  sip_invite_via = [];
  sip_invite_branch = [];
  sip_invite_cseq = pos 0;
  sip_invite_provisional = false;
  sip_invite_final = false;
  sip_answered = false;
  sip_remote_released = false;
  sip_initial_request = none;
  sip_responder = none;
  sip_last_response = none;
  caller_id = [];
  destination_number = [];
  media = none;
}

pub record LineState : Type 0 where
  pub ready : Bool
  pub ready_at : ℕ
  pub event_request_id : Bytes
  pub initial_onhook_sent : Bool
  pub responder : Option Responder

-- The texts of `pendingH248Transaction.phase`
pub data Phase : Type 0 where
  initial_onhook origination_offhook origination_digits answer onhook : Phase

pub record PendingTransaction : Type 0 where
  pub call_id : Bytes
  pub phase : Phase

pub record RetainedInvite : Type 0 where
  pub call_id : Bytes
  pub request_uri : Bytes
  pub from : Bytes
  pub invite_via : Bytes
  pub invite_branch : Bytes
  pub invite_cseq : ℤ
  pub peer : Option UdpAddr
  pub expires_at : ℕ
  pub late_2xx_bye_sent : Bool

-- What a reply to an H.248 transaction holds.
pub data ReplyBody : Type 0 where
  error_reply : Bytes → Bytes → ReplyBody
  action_reply : List H248.Message.ActionReply → ReplyBody

-- A message that is written to a socket. A Notify carries the call it is about, none for the line;
-- this is for the record of the run only, and no part of the message.
pub data Output : Type 0 where
  h248_reply : Responder → H248.Message.Message → ReplyBody → Output
  h248_notify : UdpAddr → Option Ref → Phase → Notify → Output
  sip_reply : Responder → SipResponse → Output
  sip_send : UdpAddr → SipRequest → Output

-- What `time.AfterFunc` and `go` leave to be done.
pub data Task : Type 0 where
  send_offhook : Ref → Task
  send_digits : Ref → Task
  release_call : Ref → Task
  -- the call ID, the interval and the deadline of `retransmitInvite`
  retransmit_invite : Bytes → ℕ → ℕ → Task
  expire_retained : Bytes → Task

pub record Bridge : Type 0 where
  pub cell : Ref → Call
  pub next_ref : Ref
  pub sip_sender : Bool
  pub calls_by_sip : List (Bytes × Ref)
  pub calls_by_h248 : List (Bytes × Ref)
  pub retained_sip_invites : List (Bytes × RetainedInvite)
  pub next_rtp_port : ℕ
  pub next_context_id : ℕ
  pub next_term_id : ℕ
  pub next_h248_tid : ℕ
  pub line : LineState
  pub outbound_call : Option Ref
  pub pending_h248 : List (Bytes × PendingTransaction)
  -- the world: the clock, the timers with their times, and all writes with their success
  pub clock : ℕ
  pub timers : List (ℕ × Task)
  pub wire : List (Output × Bool)

-- What the bridge is given, and what the network decides: whether a write succeeds and whether the
-- sockets of a relay can be opened may depend on everything written before.
pub record Env : Type 0 where
  pub cfg : Config
  pub net : Resolver
  pub write_ok : List (Output × Bool) → Output → Bool
  pub relay_ok : List (Output × Bool) → ℕ → ℕ → Bool
  -- `FormatTimestamp` of the clock
  pub timestamp : ℕ → Bytes

abbrev pub M : Type 0 → Type 0
M A = Bridge → A × Bridge

infixl 5 ◌>>=◌ ◌>>◌
unfoldable pub ◌>>=◌ : {A B : Type 0} → M A → (A → M B) → M B
◌>>=◌ m f b = let (a, b') = m b in f a b'

unfoldable pub ◌>>◌ : {A B : Type 0} → M A → M B → M B
◌>>◌ m n b = n (m b).1

unfoldable pub pure : {A : Type 0} → A → M A
pure a b = (a, b)

-- A part under the lock that reads.
unfoldable pub gets : {A : Type 0} → (Bridge → A) → M A
gets f b = (f b, b)

-- A part under the lock that writes.
unfoldable pub modify : (Bridge → Bridge) → M (Unit {0})
modify f b = (tt, f b)

abbrev pub done : M (Unit {0})
done = pure tt

unfoldable pub when : Bool → M (Unit {0}) → M (Unit {0})
when test m = if test then m else done

-- `if x, ok := …; ok { … }`
unfoldable pub for_some : {A : Type 0} → Option A → (A → M (Unit {0})) → M (Unit {0})
for_some none f = done
for_some (some a) f = f a

unfoldable pub for_each : {A : Type 0} → List A → (A → M (Unit {0})) → M (Unit {0})
for_each [] f = done
for_each (a ∷ as_) f = f a >> for_each as_ f

unfoldable pub update : (Ref → Call) → Ref → Call → Ref → Call
update cell r c j = if j == r then c else cell j

-- `call.… = …` under the lock
unfoldable pub change : Ref → (Call → Call) → M (Unit {0})
unfolding update
change r f = modify (λ b. record b { cell = update b.cell r (f (b.cell r)) })

unfoldable pub read : {A : Type 0} → Ref → (Call → A) → M A
read r f = gets (λ b. f (b.cell r))

-- A write to a socket; every write is recorded.
unfoldable pub send : Env → Output → M Bool
send env o b = let ok_ = env.write_ok b.wire o in (ok_, record b { wire = (o, ok_) ∷ b.wire })

-- `time.AfterFunc(delay, …)`
unfoldable pub schedule : ℕ → Task → M (Unit {0})
schedule delay task = modify (λ b. record b { timers = (b.clock + delay, task) ∷ b.timers })
