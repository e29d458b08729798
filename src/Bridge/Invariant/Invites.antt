-- ===== src/Bridge/Invariant/Invites.antt =====
-- The INVITE that the gateway sends: an invariant is kept by the functions of Bridge/Invite.antt.
use megaco_sip_gateway.Prelude.{
  eq_refl, inl, inr, Bool-cases, ℕ, ◌<◌, Bytes, Bool, true, false, not, ◌||◌, ◌&&◌, is_empty,
  Option, none, some, ◌≡◌, refl, if◌then◌else◌, arith, ℤ, ◌+◌, lit,
}
use megaco_sip_gateway.Prelude.Result.{ok, err}
use megaco_sip_gateway.Net.{UdpAddr}
use megaco_sip_gateway.Bridge.State.{
  sip_send, SipRequest, Ref, Call, Bridge, Env, M, ◌>>=◌, ◌>>◌, pure, gets, modify, when, for_some,
  read, send, update,
}
use megaco_sip_gateway.Bridge.State.Keeps.{
  Keeps, Keeps-if, Keeps-done, Keeps-pure, Keeps-bind, Keeps-when, Keeps-then, Keeps-gets,
  Keeps-for_some,
}
use megaco_sip_gateway.Bridge.Invariant.{IsGentle, IsBelow}
use megaco_sip_gateway.Bridge.Invariant.Basics.{
  Kept, Keeps-read, Keeps-found_sip, Keeps-change, Keeps-send, Keeps-schedule,
}
use megaco_sip_gateway.Sip.Sdp.{parse_sdp}
use megaco_sip_gateway.Bridge.Invite.{
  media_address, first_interval, invite_deadline, Invite, invite_for, register_invite,
  unregister_invite, invited, wait_for, send_invite, start_sip_invite, invite_timed_out,
  retransmit_to, retransmit_turn, retransmit_found, with_sip_media, take_sip_media,
  update_sip_remote_media,
}
use megaco_sip_gateway.Bridge.Invariant.Ends.{release_call-Keeps, report_onhook-Keeps}

-- Both branches of a test at one state
at_if :
    {A : Type 0} (P : Bridge → Type 0) (test : Bool) (m n : M A) (b : Bridge)
    → P (m b).1
    → P (n b).1
    → P ((if test then m else n) b).1
at_if P true m n b km kn = km
at_if P false m n b km kn = kn

with_sip_media-IsGentle : (to : UdpAddr) (offered : ℤ) → IsGentle (with_sip_media to offered)
unfolding with_sip_media
with_sip_media-IsGentle to offered = search

module _ {env : Env} {n : ℕ} {P : Bridge → Type 0} (kept : Kept env n P) where
  wait_for-Keeps : (key : Bytes) (interval deadline : ℕ) → Keeps P (wait_for key interval deadline)
  unfolding wait_for IsBelow
  wait_for-Keeps key interval deadline =
      Keeps-bind (Keeps-gets _) (λ now. Keeps-schedule kept _ _ tt)

  send_invite-at :
      (r : Ref) (lt : r < n) (to : UdpAddr) (i : Invite)
      → is_empty i.call_id ≡ false
      → (b : Bridge) → (b.cell r).released ≡ false
      → is_empty (b.cell r).sip_call_id ≡ true
      → P b
      → P (send_invite env r to i b).1
  unfolding send_invite ◌>>=◌ ◌>>◌ modify gets send register_invite update invited
  send_invite-at r lt to i key b alive idle h =
      let le = kept.past b h in
      let h1 = kept.laws.invites r i to b (omega arith) alive idle key h in
      let h2 = kept.laws.sends (sip_send to i.request) refl (register_invite r i to b) h1 in
      let out = send env (sip_send to i.request) (register_invite r i to b) in
      let now : ℕ = b.clock in
      at_if P out.0 (wait_for i.call_id first_interval (now + invite_deadline))
        (modify (unregister_invite r i)) out.1 ((wait_for-Keeps i.call_id first_interval _).at _ h2)
        (kept.laws.uninvites r i _ (ground (arith, eq_refl r)) h2)

  invite_some-at :
      (r : Ref) (lt : r < n) (o : Option UdpAddr) (c : Call) (now : ℕ) (b : Bridge)
      → (b.cell r).released ≡ false
      → is_empty (b.cell r).sip_call_id ≡ true
      → P b
      → P (for_some o (λ peer. send_invite env r peer (invite_for env c now)) b).1
  unfolding for_some pure invite_for lit
  invite_some-at r lt none c now b alive idle h = h
  invite_some-at r lt (some peer) c now b alive idle h =
      send_invite-at r lt peer (invite_for env c now) refl b alive idle h

  pub start_sip_invite-Keeps : (r : Ref) → r < n → Keeps P (start_sip_invite env r)
  unfolding start_sip_invite when ◌>>=◌ gets read pure
  start_sip_invite-Keeps r lt = record {
    at = λ b h.
        elim (Bool-cases
          (not ((b.cell r).released || not (is_empty (b.cell r).sip_call_id)) && b.sip_sender)) [
            | inl e ↦
                rw e (invite_some-at r lt _ (b.cell r) b.clock b (ground arith) (ground arith) h)
            | inr e ↦ rw e h
          ];
  }

  retransmit_to-Keeps :
      (request : SipRequest) (to : UdpAddr) → Keeps P (retransmit_to env request to)
  unfolding retransmit_to
  retransmit_to-Keeps request to = Keeps-then (Keeps-send kept _ refl) Keeps-done

  invite_timed_out-Keeps : (r : Ref) → r < n → Keeps P (invite_timed_out env r)
  unfolding invite_timed_out
  invite_timed_out-Keeps r lt = Keeps-bind (Keeps-read r _) (λ c.
      Keeps-then (Keeps-when _ (Keeps-change kept r _ search))
        (Keeps-then (report_onhook-Keeps kept r lt) (release_call-Keeps kept r)))

  retransmit_turn-Keeps :
      (key : Bytes) (interval deadline : ℕ) (r : Ref)
      → r < n
      → Keeps P (retransmit_turn env key interval deadline r)
  unfolding retransmit_turn
  retransmit_turn-Keeps key interval deadline r lt = Keeps-bind (Keeps-gets _) (λ now.
      Keeps-bind (Keeps-read r _) (λ c. Keeps-bind (Keeps-gets _) (λ attached.
        Keeps-if _ (invite_timed_out-Keeps r lt) (
          Keeps-when _ (
            Keeps-then
              (Keeps-when _ (
                Keeps-for_some _
                  (λ request. Keeps-for_some _ (λ to. retransmit_to-Keeps request to))))
              (wait_for-Keeps key _ deadline))))))

  take_sip_media-Keeps :
      (r : Ref) (offered : ℤ) (o : Option UdpAddr) → Keeps P (take_sip_media r offered o)
  unfolding take_sip_media
  take_sip_media-Keeps r offered none = Keeps-pure false
  take_sip_media-Keeps r offered (some to) =
      Keeps-then (Keeps-change kept r _ (with_sip_media-IsGentle to offered)) (Keeps-pure true)

  pub update_sip_remote_media-Keeps :
      (r : Ref) (body : Bytes) → Keeps P (update_sip_remote_media env r body)
  unfolding update_sip_remote_media
  update_sip_remote_media-Keeps r body =
      elim (parse_sdp body)
        as (λ x. Keeps P (elim x [
          | err e ↦ pure false
          | ok sdp ↦
              take_sip_media r sdp.telephone_event_payload (media_address env sdp.ip sdp.port)
        ])) [ err e ↦ Keeps-pure false | ok sdp ↦ take_sip_media-Keeps r _ _ ]

module _ {env : Env} {n : ℕ} {P : Bridge → Type 0} (kept : Kept env n P) where
  pub retransmit_found-Keeps :
      (key : Bytes) (interval deadline : ℕ) → Keeps P (retransmit_found env key interval deadline)
  unfolding retransmit_found for_some
  retransmit_found-Keeps key interval deadline =
      Keeps-found_sip kept key _ Keeps-done
        (λ m kept' r lt. retransmit_turn-Keeps kept' key interval deadline r lt)
