-- ===== src/Bridge/Invariant/Admission.antt =====
-- A new INVITE: an invariant is kept by the functions of Bridge/Admission.antt.
use megaco_sip_gateway.Prelude.{
  ◌+◌, ℕ, ◌<◌, Bytes, false, is_empty, Option, none, some, ◌≡◌, refl, arith,
}
use megaco_sip_gateway.Net.{UdpAddr}
use megaco_sip_gateway.Bridge.State.{SipResponse, LineState, Ref, Responder, Bridge, Env, ◌>>=◌}
use megaco_sip_gateway.Bridge.State.Keeps.{
  Keeps, Keeps-done, Keeps-bind, Keeps-then, Keeps-for_some, Keeps-gets_bind,
}
use megaco_sip_gateway.Bridge.Invariant.{IsAside, IsNew}
use megaco_sip_gateway.Bridge.Invariant.Past.{Past, Past-Invariant}
use megaco_sip_gateway.Bridge.Invariant.Basics.{Kept, Keeps-change, Keeps-send}
use megaco_sip_gateway.Config.{Config}
use megaco_sip_gateway.Sip.Message.{Message, call_id}
use megaco_sip_gateway.Sip.Sdp.{Sdp}
use megaco_sip_gateway.Media.Relay.{MediaRelay}
use megaco_sip_gateway.Bridge.Ports.{allocate_rtp_port, Identifiers, allocate_call_identifiers}
use megaco_sip_gateway.Bridge.Admission.{
  Admission, known, refused, admitted, admission, admit, reply, invited_call, register_outbound,
  new_outbound, open_relay, with_relay, start_outbound, outbound, handle_new_sip_invite,
}
use megaco_sip_gateway.Bridge.Invariant.Ends.{
  fail_and_release-Keeps, send_sip_originated_response-Keeps,
}
use megaco_sip_gateway.Bridge.Invariant.Origination.{schedule_origination_offhook-Keeps}

pub allocate-IsAside : (cfg : Config) → IsAside (λ b. (allocate_call_identifiers cfg b).1)
unfolding allocate_call_identifiers allocate_rtp_port
allocate-IsAside cfg = search

admitted-key :
    (env : Env) (b : Bridge) (msg : Message) (source : UdpAddr) (number : Bytes) (offer : Sdp)
    (media : UdpAddr)
    → admission env b msg ≡ admitted source number offer media
    → is_empty (call_id msg) ≡ false
unfolding admission
admitted-key env b msg source number offer media e = ground arith

invited_call-IsNew :
    (env : Env) (msg : Message) (to : Responder) (line : LineState) (source : UdpAddr)
    (number : Bytes) (offer : Sdp) (media : UdpAddr) (ids : Identifiers)
    → IsNew (invited_call env msg to line source number offer media ids)
unfolding invited_call
invited_call-IsNew env msg to line source number offer media ids = search

module _ {env : Env} {n : ℕ} {P : Bridge → Type 0} (kept : Kept env n P) where
  pub reply-Keeps : (to : Responder) (response : SipResponse) → Keeps P (reply env to response)
  unfolding reply
  reply-Keeps to response = Keeps-then (Keeps-send kept _ refl) Keeps-done

  pub open_relay-Keeps : (r : Ref) → Keeps P (open_relay env r)
  unfolding open_relay
  open_relay-Keeps r = record { at = λ b h. h }

  start_outbound-Keeps :
      (r : Ref)
      → r < n
      → (media : UdpAddr) (o : Option MediaRelay) → Keeps P (start_outbound env r media o)
  unfolding start_outbound with_relay
  start_outbound-Keeps r lt media none = fail_and_release-Keeps kept r 500 _
  start_outbound-Keeps r lt media (some relay) = Keeps-then (Keeps-change kept r _ search) (
      Keeps-then (send_sip_originated_response-Keeps kept r 100 _ false)
        (schedule_origination_offhook-Keeps kept r lt))

  pub allocated : (b : Bridge) → P b → P (allocate_call_identifiers env.cfg b).1
  allocated = kept.laws.aside _ (allocate-IsAside env.cfg)

module _ {env : Env} {n : ℕ} {P : Bridge → Type 0} (kept : Kept env n P) where
  outbound-at :
      (msg : Message)
      → is_empty (call_id msg) ≡ false
      → (to : Responder) (source : UdpAddr) (number : Bytes) (offer : Sdp) (media : UdpAddr)
        (b : Bridge)
      → P b
      → P (outbound env msg to source number offer media b).1
  unfolding outbound new_outbound ◌>>=◌ register_outbound invited_call
  outbound-at msg key to source number offer media b h =
      let b' = (allocate_call_identifiers env.cfg b).1 in
      let c =
        invited_call env msg to b'.line source number offer media
          (allocate_call_identifiers env.cfg b).0 in
      let h1 =
        kept.laws.outbound c (invited_call-IsNew env msg to b'.line source number offer media _)
          refl key b' (allocated kept b h) in
      let m = b'.next_ref + 1 in
      let kept' : Kept env m (Past m P) = record {
        laws = Past-Invariant kept.laws m;
        past = λ b h. h.1;
      } in
      ((Keeps-bind (open_relay-Keeps kept' b'.next_ref)
          (start_outbound-Keeps kept' b'.next_ref (omega arith) media)).at
        _ (h1, omega arith)).0

  admit-at :
      (msg : Message) (to : Responder) (d : Admission) (b : Bridge)
      → admission env b msg ≡ d
      → P b
      → P (admit env msg to d b).1
  unfolding admit
  admit-at msg to (known last) b e h = (Keeps-for_some last (reply-Keeps kept to)).at b h
  admit-at msg to (refused status reason) b e h = (reply-Keeps kept to _).at b h
  admit-at msg to (admitted source number offer media) b e h =
      outbound-at msg (admitted-key env b msg source number offer media e) to source number offer
        media b h

  pub handle_new_sip_invite-Keeps :
      (msg : Message) (to : Responder) → Keeps P (handle_new_sip_invite env msg to)
  unfolding handle_new_sip_invite
  handle_new_sip_invite-Keeps msg to = Keeps-gets_bind _ _ (λ b h. admit-at msg to _ b refl h)
