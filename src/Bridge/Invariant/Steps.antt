-- ===== src/Bridge/Invariant/Steps.antt =====
-- An invariant and the runs of the bridge.
use megaco_sip_gateway.Prelude.{ℕ, arith}
use megaco_sip_gateway.Bridge.State.{
  Direction, h248_to_sip, sip_to_h248, SipRequest, SipResponse, RetainedInvite, LineState, Ref,
  Call, Responder, Phase, answer, onhook, Output, Task, Bridge, Env, M, ◌>>=◌, ◌>>◌, pure, gets,
  modify, done, when, for_some, for_each, change, read, send, schedule, update,
}
use megaco_sip_gateway.Bridge.State.Keeps.{Keeps, Keeps-if, Keeps-done, Keeps-bind, Keeps-when}
use megaco_sip_gateway.Bridge.Invariant.{Invariant, IsBelow}
use megaco_sip_gateway.Bridge.Invariant.Past.{Past, Past-Invariant}
use megaco_sip_gateway.Bridge.Invariant.Basics.{Kept}
use megaco_sip_gateway.Sip
use megaco_sip_gateway.Bridge.State.{send_offhook, send_digits, retransmit_invite, expire_retained}
use megaco_sip_gateway.Bridge.State
use megaco_sip_gateway.Bridge.Run.{
  new_bridge, Method, options, ack, bye, cancel, info, session_update, invite, other, handle_invite,
  handle_request, handle_sip, run_task, take_timer, advance, attach_sender, over_media, Step,
  by_sip, by_h248, by_reply, line_ready, line_lost, timer, relays, waits, attaches, Reach, starts,
  goes,
}
use megaco_sip_gateway.Bridge.Invariant.Ends.{release_call-Keeps}
use megaco_sip_gateway.Bridge.Invariant.Requests.{expire-Keeps}
use megaco_sip_gateway.Bridge.Invariant.Invites.{retransmit_found-Keeps}
use megaco_sip_gateway.Bridge.Invariant.Origination.{
  send_origination_offhook-Keeps, send_origination_digits-Keeps,
}
use megaco_sip_gateway.Bridge.Invariant.Admission.{reply-Keeps, handle_new_sip_invite-Keeps}
use megaco_sip_gateway.Bridge.Invariant.Pbx.{
  handle_sip_cancel-Keeps, handle_sip_bye-Keeps, handle_sip_reinvite-Keeps,
  handle_sip_session_update-Keeps, handle_sip_response-Keeps,
}
use megaco_sip_gateway.Bridge.Invariant.Carrier.{handle_h248_unavailable-Keeps}
use megaco_sip_gateway.Bridge.Invariant.Commands.{
  handle_h248-Keeps, handle_h248_ready-Keeps, handle_h248_response-Keeps,
}

module _ {env : Env} {n : ℕ} {P : Bridge → Type 0} (kept : Kept env n P) where
  handle_request-Keeps :
      (msg : Sip.Message.Message) (to : Responder) (method : Method)
      → Keeps P (handle_request env msg to method)
  unfolding handle_request handle_invite
  handle_request-Keeps msg to options = reply-Keeps kept to _
  handle_request-Keeps msg to ack = Keeps-done
  handle_request-Keeps msg to bye = handle_sip_bye-Keeps kept msg to
  handle_request-Keeps msg to cancel = handle_sip_cancel-Keeps kept msg to
  handle_request-Keeps msg to info = reply-Keeps kept to _
  handle_request-Keeps msg to session_update = handle_sip_session_update-Keeps kept msg to
  handle_request-Keeps msg to invite = Keeps-if _ (handle_new_sip_invite-Keeps kept msg to) (
      Keeps-bind (handle_sip_reinvite-Keeps kept msg to)
        (λ handled. Keeps-when _ (handle_new_sip_invite-Keeps kept msg to)))
  handle_request-Keeps msg to other = reply-Keeps kept to _

  handle_sip-Keeps : (msg : Sip.Message.Message) (to : Responder) → Keeps P (handle_sip env msg to)
  unfolding handle_sip
  handle_sip-Keeps msg to =
      Keeps-if _ (handle_sip_response-Keeps kept msg) (handle_request-Keeps msg to _)

  run_task-Keeps : (task : Task) → IsBelow n task → Keeps P (run_task env task)
  unfolding run_task IsBelow
  run_task-Keeps (send_offhook r) lt = send_origination_offhook-Keeps kept r lt
  run_task-Keeps (send_digits r) lt = send_origination_digits-Keeps kept r lt
  run_task-Keeps (State.release_call r) lt = release_call-Keeps kept r
  run_task-Keeps (retransmit_invite key interval deadline) lt =
      retransmit_found-Keeps kept key interval deadline
  run_task-Keeps (expire_retained key) lt = expire-Keeps kept key

module _ {env : Env} {P : Bridge → Type 0} (laws : Invariant env P) where
  kept_from : (m : ℕ) → Kept env m (Past m P)
  kept_from m = record { laws = Past-Invariant laws m; past = λ b h. h.1 }

  kept_now : Kept env 0 P
  kept_now = record { laws = laws; past = λ b h. omega arith }

  pub step : (b b' : Bridge) → Step env b b' → P b → P b'
  unfolding advance attach_sender over_media take_timer
  step _ _ (by_sip b msg to) h = (handle_sip-Keeps kept_now msg to).at b h
  step _ _ (by_h248 b msg to) h = (handle_h248-Keeps kept_now msg to).at b h
  step _ _ (by_reply b msg) h = (handle_h248_response-Keeps kept_now msg).at b h
  step _ _ (line_ready b to) h = (handle_h248_ready-Keeps kept_now to).at b h
  step _ _ (line_lost b) h = (handle_h248_unavailable-Keeps kept_now).at b h
  step _ _ (timer b i at_ task e due) h =
      ((run_task-Keeps (kept_from b.next_ref) task (laws.of_timers b h i at_ task e)).at
        (take_timer i b) (laws.takes_timer i b h, omega arith)).0
  step _ _ (relays b r f) h = laws.gentle r (over_media f) (search) b h
  step _ _ (waits b d) h = laws.aside (advance d) (search) b h
  step _ _ (attaches b) h = laws.aside attach_sender (search) b h

  -- An invariant that holds at the start holds in every reachable state.
  pub reach : ((now : ℕ) → P (new_bridge env.cfg now)) → (b : Bridge) → Reach env b → P b
  reach start _ (starts now) = start now
  reach start _ (goes b0 b1 before s) = step b0 b1 s (reach start b0 before)
