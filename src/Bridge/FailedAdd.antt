-- ===== src/Bridge/FailedAdd.antt =====
-- About `handleIncomingCallAdd` of internal/bridge/h248.go, when its reply cannot be written.
use megaco_sip_gateway.Prelude.{
  eq_refl, ℕ, Bytes, is_empty, Bool, true, false, inl, inr, Option, none, some, Option-cases, ◌==◌,
  ◌≡◌, refl, arith, List,
}
use megaco_sip_gateway.Prelude.Map
use megaco_sip_gateway.Prelude.Map.{lookup-insert, lookup-delete}
use megaco_sip_gateway.Net.{UdpAddr}
use megaco_sip_gateway.Media.Relay.{MediaRelay}
use megaco_sip_gateway.H248.Message.{Message}
use megaco_sip_gateway.H248.Interop.{MediaDescription, extract_remote_media}
use megaco_sip_gateway.Bridge.State.{
  Ref, Call, Responder, Output, ReplyBody, Bridge, Env, ◌>>=◌, ◌>>◌, pure, gets, modify, when,
  change, read, send, update, h248_reply,
}
use megaco_sip_gateway.Bridge.Ports.{allocate_call_identifiers, allocate_rtp_port}
use megaco_sip_gateway.Bridge.Line.{take_down, release_call, without_ref}
use megaco_sip_gateway.Bridge.Invite.{media_address}
use megaco_sip_gateway.Bridge.Admission.{open_relay}
use megaco_sip_gateway.Bridge.FromMgc.Add.{
  reply_error, added_call, make_call, new_added, register_context, with_h248_relay, start_added,
  incoming, handle_incoming_call_add,
}
use megaco_sip_gateway.Bridge.Run.{Reach}
use megaco_sip_gateway.Bridge.Invariant.Registry.{reach-IsConsistent}
use megaco_sip_gateway.Bridge.Invariant.Consistent.{IsConsistent, IsOutbound}

-- No entry for a call has come: the Call-IDs and the outbound call are as they were, and a context
-- leads to a call only where it did.
pub record HasNoMore (b b' : Bridge) : Type 0 where
  pub by_call_id : b'.calls_by_sip ≡ b.calls_by_sip
  pub by_context :
      (k : Bytes) (r : Ref)
      → Map.lookup k b'.calls_by_h248 ≡ some r
      → Map.lookup k b.calls_by_h248 ≡ some r
  pub outbound : b'.outbound_call ≡ b.outbound_call

lookup-undone :
    (k j : Bytes) (r s : Ref) (m : List (Bytes × Ref))
    → Map.lookup j (Map.delete k (Map.insert k r m)) ≡ some s
    → Map.lookup j m ≡ some s
lookup-undone k j r s m e =
    ground (arith, lookup-delete k j (Map.insert k r m), lookup-insert k j r m)

-- The end of a call that has a context and no Call-ID
start_added-fails :
    (env : Env) (msg : Message) (responder : Responder) (remote : UdpAddr) (r : Ref)
    (relay : MediaRelay) (b : Bridge)
    → ((wire : List (Output × Bool)) (body : ReplyBody)
        → env.write_ok wire (h248_reply responder msg body) ≡ false)
    → (b.cell r).released ≡ false
    → is_empty (b.cell r).sip_call_id ≡ true
    → without_ref b.outbound_call r ≡ b.outbound_call
    → HasNoMore b (start_added env msg responder remote r (some relay) b).1
unfolding start_added change read send gets modify register_context release_call take_down when
    update ◌>>=◌ ◌>>◌ with_h248_relay
start_added-fails env msg responder remote r relay b fails alive idle out = rw (fails _ _) (
    rw (eq_refl r) (
      rw alive (
        rw (eq_refl r) (record {
          by_call_id = rw idle refl;
          by_context = λ k j e. lookup-undone (b.cell r).h248_context_id k r j b.calls_by_h248 e;
          outbound = out;
        }))))

-- A call that has just been made is not the outbound call.
without_ref-new :
    (n : ℕ) (cell : Ref → Call) (o : Option Ref) → IsOutbound n cell o → without_ref o n ≡ o
unfolding IsOutbound
without_ref-new n cell none h = refl
without_ref-new n cell (some j) (lt, alive, from) =
    let other : (j == n) ≡ false = ground arith in rw other refl

start_any-fails :
    (env : Env) (msg : Message) (responder : Responder) (remote : UdpAddr) (r : Ref)
    (relay : Option MediaRelay) (b : Bridge)
    → ((wire : List (Output × Bool)) (body : ReplyBody)
        → env.write_ok wire (h248_reply responder msg body) ≡ false)
    → (b.cell r).released ≡ false
    → is_empty (b.cell r).sip_call_id ≡ true
    → without_ref b.outbound_call r ≡ b.outbound_call
    → HasNoMore b (start_added env msg responder remote r relay b).1
unfolding start_added reply_error send ◌>>=◌ ◌>>◌ pure
start_any-fails env msg responder remote r none b fails alive idle out = record {
  by_call_id = refl;
  by_context = λ k j e. e;
  outbound = refl;
}
start_any-fails env msg responder remote r (some relay) b fails alive idle out =
    start_added-fails env msg responder remote r relay b fails alive idle out

incoming-fails :
    (env : Env) (msg : Message) (responder : Responder) (media : MediaDescription)
    (remote : Option UdpAddr) (b : Bridge)
    → ((wire : List (Output × Bool)) (body : ReplyBody)
        → env.write_ok wire (h248_reply responder msg body) ≡ false)
    → IsConsistent b
    → HasNoMore b (incoming env msg responder media remote b).1
unfolding incoming reply_error send new_added make_call update added_call open_relay
    allocate_call_identifiers allocate_rtp_port ◌>>=◌ ◌>>◌ pure
incoming-fails env msg responder media none b fails h = record {
  by_call_id = refl;
  by_context = λ k r e. e;
  outbound = refl;
}
incoming-fails env msg responder media (some remote) b fails h =
    let made = (new_added env msg responder media remote b).1 in
    let n = b.next_ref in
    let start =
      start_any-fails env msg responder remote n (open_relay env n made).0 made fails
        (rw (eq_refl n) refl) (rw (eq_refl n) refl)
        (without_ref-new n b.cell b.outbound_call h.outbound) in
    record {
      by_call_id = start.by_call_id;
      by_context = start.by_context;
      outbound = start.outbound;
    }

-- In a state that a run reaches, when no reply to an Add of the carrier can be written, the Add
-- leaves no entry for a call behind: the Call-IDs and the outbound call are as they were, and a
-- context leads to a call only where it did before.
pub add_fails :
    (env : Env) (msg : Message) (responder : Responder) (b : Bridge)
    → Reach env b
    → ((wire : List (Output × Bool)) (body : ReplyBody)
        → env.write_ok wire (h248_reply responder msg body) ≡ false)
    → HasNoMore b (handle_incoming_call_add env msg responder b).1
unfolding handle_incoming_call_add reply_error send ◌>>=◌ ◌>>◌ pure
add_fails env msg responder b run fails = elim (Option-cases (extract_remote_media msg.raw)) [
  | inl e ↦
      rw (e, handle_incoming_call_add)
        (record { by_call_id = refl; by_context = λ k j e. e; outbound = refl })
  | inr (media, e) ↦
      rw (e, handle_incoming_call_add)
        (incoming-fails env msg responder media (media_address env media.ip media.port) b fails
          (reach-IsConsistent env b run))
]
