-- ===== src/Bridge/Invariant/Mgc.antt =====
-- Transactions of the MGC: an invariant is kept by the functions of Bridge/FromMgc.
use megaco_sip_gateway.Prelude.{
  eq_refl, ◌+◌, ℕ, ◌<◌, Bytes, true, false, ◌||◌, Option, none, some, ◌≡◌, refl, if◌then◌else◌,
  arith, lit,
}
use megaco_sip_gateway.Net.{UdpAddr}
use megaco_sip_gateway.Bridge.State.{
  h248_reply, action_reply, Ref, Responder, Bridge, Env, ◌>>=◌, ◌>>◌, modify, change, read, send,
  update,
}
use megaco_sip_gateway.Bridge.State.Keeps.{
  Keeps, Keeps-if, Keeps-done, Keeps-bind, Keeps-then, Keeps-for_some,
}
use megaco_sip_gateway.Bridge.Invariant.{IsGentle, IsNew}
use megaco_sip_gateway.Bridge.Invariant.Past.{Past, Past-Invariant}
use megaco_sip_gateway.Bridge.Invariant.Basics.{
  Kept, Keeps-read, Keeps-read_if, Keeps-change, Keeps-send,
}
use megaco_sip_gateway.H248.Message.{Message}
use megaco_sip_gateway.H248.Interop.{MediaDescription, extract_remote_media}
use megaco_sip_gateway.Media.Relay.{MediaRelay}
use megaco_sip_gateway.Bridge.Invite.{media_address}
use megaco_sip_gateway.Bridge.Ports.{Identifiers, allocate_call_identifiers}
use megaco_sip_gateway.Bridge.Line.{release_call}
use megaco_sip_gateway.Bridge.Admission.{open_relay}
use megaco_sip_gateway.Bridge.FromMgc.Add.{
  reply_error, added_call, make_call, new_added, with_h248_relay, rings, start_added, incoming,
  handle_incoming_call_add, allocated, with_dtmf, with_h248_media, allocated_outbound,
  handle_outbound_call_add, reply_of_add,
}
use megaco_sip_gateway.Bridge.Invariant.Ends.{
  release_call-Keeps, send_sip_originated_response-Keeps, fail_and_release-Keeps,
}
use megaco_sip_gateway.Bridge.Invariant.Admission.{allocate-IsAside}

with_dtmf-IsGentle : (env : Env) (msg : Message) → IsGentle (with_dtmf env msg)
unfolding with_dtmf
with_dtmf-IsGentle env msg = record {
  sip_call_id = λ c. ground arith;
  h248_context_id = λ c. ground arith;
  direction = λ c. ground arith;
  released = λ c. ground arith;
  onhook = λ c. ground arith;
  offhook = λ c. ground arith;
  digits = λ c. ground arith;
}

pub with_h248_media-IsGentle :
    (offered : ℕ) (remote : UdpAddr) → IsGentle (with_h248_media offered remote)
unfolding with_h248_media
with_h248_media-IsGentle offered remote = search

added_call-IsNew :
    (env : Env) (msg : Message) (to : Responder) (media : MediaDescription) (remote : UdpAddr)
    (ids : Identifiers)
    → IsNew (added_call env msg to media remote ids)
unfolding added_call
added_call-IsNew env msg to media remote ids = search

module _ {env : Env} {n : ℕ} {P : Bridge → Type 0} (kept : Kept env n P) where
  pub reply_error-Keeps :
      (msg : Message) (to : Responder) (code text : Bytes)
      → Keeps P (reply_error env msg to code text)
  unfolding reply_error
  reply_error-Keeps msg to code text = Keeps-then (Keeps-send kept _ refl) Keeps-done

  -- What follows the registration of a context
  added_replied-Keeps :
      (msg : Message) (to : Responder) (r : Ref)
      → Keeps P (
          read r (λ c. c) >>= (λ c.
            send env (h248_reply to msg (action_reply (reply_of_add env c)))
            >>= (λ sent. if sent then change r rings else release_call r)))
  unfolding rings
  added_replied-Keeps msg to r = Keeps-bind (Keeps-read r _) (λ c.
      Keeps-bind (Keeps-send kept _ refl)
        (λ sent. Keeps-if _ (Keeps-change kept r _ search) (release_call-Keeps kept r)))

  start_added-at :
      (msg : Message) (to : Responder) (remote : UdpAddr) (r : Ref)
      → r < n
      → (o : Option MediaRelay) (b : Bridge) → (b.cell r).released ≡ false
      → P b
      → P (start_added env msg to remote r o b).1
  unfolding start_added ◌>>◌ modify change update with_h248_relay
  start_added-at msg to remote r lt none b alive h = (reply_error-Keeps msg to _ _).at b h
  start_added-at msg to remote r lt (some relay) b alive h =
      let le = kept.past b h in
      let h1 = kept.laws.gentle r (with_h248_relay remote relay) (search) b h in
      let h2 = kept.laws.registers r _ (omega arith) (ground (arith, eq_refl r)) h1 in
      (added_replied-Keeps msg to r).at _ h2

  new_added-at :
      (msg : Message) (to : Responder) (media : MediaDescription) (remote : UdpAddr) (b : Bridge)
      → P b
      → P (new_added env msg to media remote b).1
  unfolding new_added
  new_added-at msg to media remote b h =
      kept.laws.makes _ (added_call-IsNew env msg to media remote _) _
        (kept.laws.aside _ (allocate-IsAside env.cfg) b h)

  allocated_outbound-at :
      (msg : Message) (to : Responder) (r : Ref)
      → r < n
      → (b : Bridge) → (b.cell r).released ≡ false
      → P b
      → P (allocated_outbound env msg to r b).1
  unfolding allocated_outbound ◌>>◌ modify change update allocated
  allocated_outbound-at msg to r lt b alive h =
      let le = kept.past b h in
      let h1 = kept.laws.gentle r (allocated msg to) (search) b h in
      let h2 = kept.laws.registers r _ (omega arith) (ground (arith, eq_refl r)) h1 in
      (Keeps-then (Keeps-change kept r _ (with_dtmf-IsGentle env msg)) (
          Keeps-then
            (Keeps-for_some _
              (λ media. Keeps-change kept r _ (with_h248_media-IsGentle media.0 media.1)))
            (Keeps-bind (Keeps-read r _) (λ c. Keeps-bind (Keeps-send kept _ refl) (λ sent.
              Keeps-if _
                (Keeps-then (send_sip_originated_response-Keeps kept r 183 _ true) Keeps-done)
                (fail_and_release-Keeps kept r 503 _)))))).at
        _ h2

  pub handle_outbound_call_add-Keeps :
      (msg : Message) (to : Responder) (r : Ref)
      → r < n
      → Keeps P (handle_outbound_call_add env msg to r)
  unfolding handle_outbound_call_add
  handle_outbound_call_add-Keeps msg to r lt =
      Keeps-read_if r (λ c. c.released || c.h248_context_allocated)
        (λ c. reply_error env msg to (lit "510") (lit "origination context already allocated"))
        (λ c. allocated_outbound env msg to r) (λ b h e. (reply_error-Keeps msg to _ _).at b h)
        (λ b h e. allocated_outbound-at msg to r lt b (ground arith) h)

module _ {env : Env} {n : ℕ} {P : Bridge → Type 0} (kept : Kept env n P) where
  no_remote-Keeps :
      (msg : Message) (to : Responder) (media : MediaDescription)
      → Keeps P (incoming env msg to media none)
  unfolding incoming
  no_remote-Keeps msg to media = reply_error-Keeps kept msg to _ _

  added-at :
      (msg : Message) (to : Responder) (media : MediaDescription) (remote : UdpAddr) (b : Bridge)
      → P b
      → P (incoming env msg to media (some remote) b).1
  unfolding incoming new_added make_call update open_relay added_call ◌>>=◌
  added-at msg to media remote b h =
      let r = (allocate_call_identifiers env.cfg b).1.next_ref in
      let kept' : Kept env (r + 1) (Past (r + 1) P) = record {
        laws = Past-Invariant kept.laws (r + 1);
        past = λ b h. h.1;
      } in
      (start_added-at kept' msg to remote r (omega arith) _ (new_added env msg to media remote b).1
        (ground (arith, eq_refl r)) (new_added-at kept msg to media remote b h, omega arith)).0

  incoming-Keeps :
      (msg : Message) (to : Responder) (media : MediaDescription) (o : Option UdpAddr)
      → Keeps P (incoming env msg to media o)
  incoming-Keeps msg to media (some remote) = record { at = added-at msg to media remote }
  incoming-Keeps msg to media none = no_remote-Keeps msg to media

  pub handle_incoming_call_add-Keeps :
      (msg : Message) (to : Responder) → Keeps P (handle_incoming_call_add env msg to)
  unfolding handle_incoming_call_add
  handle_incoming_call_add-Keeps msg to =
      elim (extract_remote_media msg.raw)
        as (λ x. Keeps P (elim x [
          | none ↦ reply_error env msg to (lit "510") (lit "missing remote RTP descriptor")
          | some media ↦ incoming env msg to media (media_address env media.ip media.port)
        ])) [
          | none ↦ reply_error-Keeps kept msg to _ _
          | some media ↦ incoming-Keeps msg to media _
        ]
