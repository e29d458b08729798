-- ===== src/Bridge/Invariant.antt =====
-- What an invariant of the bridge has to be kept by: the writes that the handlers of internal/bridge
-- are made of. The children go through the handlers once, for every such invariant.
use megaco_sip_gateway.Prelude.{
  List, [], ◌∷◌, arith, get_elem?, ℕ, ◌<◌, ◌≤◌, Bytes, is_empty, Bool, true, false, none, some, ◌≡◌,
}
pub mod Past
pub mod Basics
pub mod Ends
pub mod Requests
pub mod Invites
pub mod Origination
pub mod Admission
pub mod Pbx
pub mod Carrier
pub mod Mgc
pub mod Commands
pub mod Steps
pub mod Consistent
pub mod Registry
pub mod Released
pub mod LineLoss
pub mod Once
use megaco_sip_gateway.Prelude.Map
use megaco_sip_gateway.Net.{UdpAddr}
use megaco_sip_gateway.Bridge.State.{
  Ref, Call, sip_to_h248, Responder, Phase, Output, h248_reply, h248_notify, sip_reply, sip_send,
  Task, send_offhook, send_digits, release_call, retransmit_invite, expire_retained, Bridge, Env,
  change, send, schedule,
}
use megaco_sip_gateway.Bridge.Line.{take_down}
use megaco_sip_gateway.Bridge.Invite.{Invite, register_invite, unregister_invite}
use megaco_sip_gateway.Bridge.Report.{flag, IsReport}
use megaco_sip_gateway.Bridge.Admission.{register_outbound}
use megaco_sip_gateway.Bridge.FromMgc.Add.{make_call, register_context}
use megaco_sip_gateway.Bridge.Carrier.{refs_of}
use megaco_sip_gateway.Bridge.Run.{take_timer}

-- A write that leaves the calls, the maps of calls, the timers and the record of writes as they are
pub record IsAside (f : Bridge → Bridge) : Type 0 where
  pub cell : (b : Bridge) → (f b).cell ≡ b.cell
  pub next_ref : (b : Bridge) → (f b).next_ref ≡ b.next_ref
  pub calls_by_sip : (b : Bridge) → (f b).calls_by_sip ≡ b.calls_by_sip
  pub calls_by_h248 : (b : Bridge) → (f b).calls_by_h248 ≡ b.calls_by_h248
  pub outbound_call : (b : Bridge) → (f b).outbound_call ≡ b.outbound_call
  pub timers : (b : Bridge) → (f b).timers ≡ b.timers
  pub wire : (b : Bridge) → (f b).wire ≡ b.wire

-- A write to a call that leaves its keys, its direction, its end and the flags of its reports
pub record IsGentle (f : Call → Call) : Type 0 where
  pub sip_call_id : (c : Call) → (f c).sip_call_id ≡ c.sip_call_id
  pub h248_context_id : (c : Call) → (f c).h248_context_id ≡ c.h248_context_id
  pub direction : (c : Call) → (f c).direction ≡ c.direction
  pub released : (c : Call) → (f c).released ≡ c.released
  pub onhook : (c : Call) → (f c).h248_onhook_sent ≡ c.h248_onhook_sent
  pub offhook : (c : Call) → (f c).h248_offhook_sent ≡ c.h248_offhook_sent
  pub digits : (c : Call) → (f c).h248_digits_sent ≡ c.h248_digits_sent

-- A message that is no report about a call
abbrev pub is_ordinary : Output → Bool
is_ordinary (h248_notify to (some r) phase n) = false
is_ordinary (h248_notify to none phase n) = true
is_ordinary (h248_reply to msg body) = true
is_ordinary (sip_reply to response) = true
is_ordinary (sip_send to request) = true

-- The call of a task was made before the reference `n`.
unfoldable pub IsBelow : ℕ → Task → Type 0
IsBelow n (send_offhook r) = r < n
IsBelow n (send_digits r) = r < n
IsBelow n (release_call r) = r < n
IsBelow n (retransmit_invite key interval deadline) = Unit {0}
IsBelow n (expire_retained key) = Unit {0}

-- More references are there later.
pub IsBelow-mono : {n m : ℕ} (task : Task) → IsBelow n task → n ≤ m → IsBelow m task
unfolding IsBelow
IsBelow-mono (send_offhook r) is le = omega arith
IsBelow-mono (send_digits r) is le = omega arith
IsBelow-mono (release_call r) is le = omega arith
IsBelow-mono (retransmit_invite key interval deadline) is le = tt
IsBelow-mono (expire_retained key) is le = tt

-- A call that has just been made
pub record IsNew (c : Call) : Type 0 where
  pub released : c.released ≡ false
  pub onhook : c.h248_onhook_sent ≡ false
  pub offhook : c.h248_offhook_sent ≡ false
  pub digits : c.h248_digits_sent ≡ false

-- All references of a list are below `n`.
unfoldable pub AllBelow : ℕ → List Ref → Type 0
AllBelow n [] = Unit {0}
AllBelow n (r ∷ rest) = (r < n) × AllBelow n rest

-- `P` is kept by every write of the handlers.
pub record Invariant (env : Env) (P : Bridge → Type 0) : Type 0 where
  pub of_sip :
      (b : Bridge)
      → P b
      → (k : Bytes) (r : Ref) → Map.lookup k b.calls_by_sip ≡ some r
      → r < b.next_ref
  pub of_h248 :
      (b : Bridge)
      → P b
      → (k : Bytes) (r : Ref) → Map.lookup k b.calls_by_h248 ≡ some r
      → r < b.next_ref
  pub of_contexts : (b : Bridge) → P b → AllBelow b.next_ref (refs_of b.calls_by_h248)
  pub of_outbound :
      (b : Bridge)
      → P b
      → (r : Ref) → b.outbound_call ≡ some r
      → (r < b.next_ref) × ((b.cell r).released ≡ false)
  pub of_timers :
      (b : Bridge)
      → P b
      → (i at : ℕ) (task : Task) → get_elem? b.timers i ≡ some (at, task)
      → IsBelow b.next_ref task
  pub aside : (f : Bridge → Bridge) → IsAside f → (b : Bridge) → P b → P (f b)
  pub gentle : (r : Ref) (f : Call → Call) → IsGentle f → (b : Bridge) → P b → P (change r f b).1
  pub sends : (o : Output) → is_ordinary o ≡ true → (b : Bridge) → P b → P (send env o b).1
  pub schedules :
      (delay : ℕ) (task : Task) (b : Bridge)
      → IsBelow b.next_ref task
      → P b
      → P (schedule delay task b).1
  pub takes_timer : (i : ℕ) (b : Bridge) → P b → P (take_timer i b)
  pub takes_down : (r : Ref) (b : Bridge) → P b → P (take_down r b)
  pub reports :
      (r : Ref) (phase : Phase) (b b' : Bridge)
      → r < b.next_ref
      → flag phase (b.cell r) ≡ false
      → IsReport r phase b b'
      → P b
      → P b'
  pub invites :
      (r : Ref) (i : Invite) (peer : UdpAddr) (b : Bridge)
      → r < b.next_ref
      → (b.cell r).released ≡ false
      → is_empty (b.cell r).sip_call_id ≡ true
      → is_empty i.call_id ≡ false
      → P b
      → P (register_invite r i peer b)
  pub uninvites :
      (r : Ref) (i : Invite) (b : Bridge)
      → (b.cell r).sip_call_id ≡ i.call_id
      → P b
      → P (unregister_invite r i b)
  pub registers :
      (r : Ref) (b : Bridge)
      → r < b.next_ref
      → (b.cell r).released ≡ false
      → P b
      → P (register_context r b)
  pub makes : (c : Call) → IsNew c → (b : Bridge) → P b → P (make_call c b)
  pub outbound :
      (c : Call)
      → IsNew c
      → c.direction ≡ sip_to_h248
      → is_empty c.sip_call_id ≡ false
      → (b : Bridge) → P b
      → P (register_outbound c b)
