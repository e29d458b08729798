-- ===== src/Bridge/Invariant/Requests.antt =====
-- The requests of a dialog: an invariant is kept by the functions of Bridge/Teardown.antt and
-- Bridge/Retained.antt.
use megaco_sip_gateway.Prelude.{ℕ, Bytes, Option, refl, arith}
use megaco_sip_gateway.Net.{UdpAddr}
use megaco_sip_gateway.Bridge.State.{
  Direction, h248_to_sip, sip_to_h248, SipRequest, RetainedInvite, Ref, Call, Bridge, Env, modify,
}
use megaco_sip_gateway.Bridge.State.Keeps.{
  Keeps, Keeps-if, Keeps-done, Keeps-bind, Keeps-when, Keeps-then, Keeps-gets, Keeps-for_some,
}
use megaco_sip_gateway.Bridge.Invariant.{IsBelow}
use megaco_sip_gateway.Bridge.Invariant.Basics.{
  Kept, Keeps-read, Keeps-aside, Keeps-change, Keeps-send, Keeps-schedule,
}
use megaco_sip_gateway.Sip.Message.{Message}
use megaco_sip_gateway.Bridge.Teardown.{
  retain_sip_invite, send_by_server, bye_to_caller, end_originated, teardown_to, send_sip_teardown,
}
use megaco_sip_gateway.Bridge.Retained.{
  Transaction, send_invite_ack, send_prack, change_retained, refresh_retained, expire, late_bye_to,
  send_late_answer_bye, retained_invite_final, handle_retained_response,
}
use megaco_sip_gateway.Bridge.Invariant.Ends.{fail_sip_originated_call-Keeps}

module _ {env : Env} {n : ℕ} {P : Bridge → Type 0} (kept : Kept env n P) where
  pub retain_sip_invite-Keeps : (r : Ref) → Keeps P (retain_sip_invite r)
  unfolding retain_sip_invite IsBelow
  retain_sip_invite-Keeps r =
      Keeps-bind (Keeps-read r _)
        (λ c. Keeps-when _ (Keeps-then (Keeps-aside kept _ search) (Keeps-schedule kept _ _ tt)))

  send_by_server-Keeps :
      (to : UdpAddr) (request : SipRequest) → Keeps P (send_by_server env to request)
  unfolding send_by_server
  send_by_server-Keeps to request =
      Keeps-bind (Keeps-gets _)
        (λ attached. Keeps-when _ (Keeps-then (Keeps-send kept _ refl) Keeps-done))

  bye_to_caller-Keeps : (r : Ref) (to : UdpAddr) → Keeps P (bye_to_caller env r to)
  unfolding bye_to_caller
  bye_to_caller-Keeps r to = Keeps-bind (Keeps-read r _) (λ c.
      Keeps-bind (Keeps-gets _) (λ now.
        Keeps-then (Keeps-change kept r _ search) (Keeps-when _ (send_by_server-Keeps to _))))

  end_originated-Keeps : (r : Ref) (to : UdpAddr) (c : Call) → Keeps P (end_originated env r to c)
  unfolding end_originated
  end_originated-Keeps r to c = Keeps-if _ (Keeps-change kept r _ search) (
      Keeps-if _
        (Keeps-bind (Keeps-gets _)
          (λ now. Keeps-then (Keeps-change kept r _ search) (send_by_server-Keeps to _)))
        (Keeps-then (Keeps-change kept r _ search)
          (Keeps-then (retain_sip_invite-Keeps r) (send_by_server-Keeps to _))))

  teardown_to-Keeps :
      (r : Ref) (c : Call) (to : UdpAddr) (direction : Direction)
      → Keeps P (teardown_to env r c to direction)
  unfolding teardown_to
  teardown_to-Keeps r c to h248_to_sip = end_originated-Keeps r to c
  teardown_to-Keeps r c to sip_to_h248 =
      Keeps-if _ (bye_to_caller-Keeps r to) (fail_sip_originated_call-Keeps kept r 503 _)

  pub send_sip_teardown-Keeps : (r : Ref) → Keeps P (send_sip_teardown env r)
  unfolding send_sip_teardown
  send_sip_teardown-Keeps r =
      Keeps-bind (Keeps-read r _)
        (λ c. Keeps-when _ (Keeps-for_some _ (λ to. teardown_to-Keeps r c to _)))

  pub send_invite_ack-Keeps :
      (t : Transaction) (msg : Message) (to : Option UdpAddr)
      → Keeps P (send_invite_ack env t msg to)
  unfolding send_invite_ack
  send_invite_ack-Keeps t msg to =
      Keeps-bind (Keeps-gets _)
        (λ now. Keeps-for_some _ (λ peer. Keeps-then (Keeps-send kept _ refl) Keeps-done))

  pub send_prack-Keeps :
      (r : Ref) (msg : Message) (rseq : Bytes) → Keeps P (send_prack env r msg rseq)
  unfolding send_prack
  send_prack-Keeps r msg rseq = Keeps-bind (Keeps-read r _) (λ c.
      Keeps-bind (Keeps-gets _)
        (λ now. Keeps-for_some _ (λ peer. Keeps-then (Keeps-send kept _ refl) Keeps-done)))

  change_retained-Keeps :
      (key : Bytes) (f : RetainedInvite → RetainedInvite) → Keeps P (change_retained key f)
  unfolding change_retained
  change_retained-Keeps key f = Keeps-aside kept _ (record {
    cell = λ b. ground arith;
    next_ref = λ b. ground arith;
    calls_by_sip = λ b. ground arith;
    calls_by_h248 = λ b. ground arith;
    outbound_call = λ b. ground arith;
    timers = λ b. ground arith;
    wire = λ b. ground arith;
  })

  pub expire-Keeps : (key : Bytes) → Keeps P (modify (expire key))
  unfolding expire
  expire-Keeps key = Keeps-aside kept _ (record {
    cell = λ b. ground arith;
    next_ref = λ b. ground arith;
    calls_by_sip = λ b. ground arith;
    calls_by_h248 = λ b. ground arith;
    outbound_call = λ b. ground arith;
    timers = λ b. ground arith;
    wire = λ b. ground arith;
  })

  refresh_retained-Keeps : (key : Bytes) → Keeps P (refresh_retained key)
  unfolding refresh_retained IsBelow
  refresh_retained-Keeps key =
      Keeps-bind (Keeps-gets _)
        (λ now. Keeps-then (change_retained-Keeps key _) (Keeps-schedule kept _ _ tt))

  late_bye_to-Keeps :
      (key : Bytes) (e : RetainedInvite) (msg : Message) (to : UdpAddr)
      → Keeps P (late_bye_to env key e msg to)
  unfolding late_bye_to
  late_bye_to-Keeps key e msg to = Keeps-bind (Keeps-gets _) (λ now.
      Keeps-bind (Keeps-send kept _ refl) (λ sent. Keeps-when _ (change_retained-Keeps key _)))

  send_late_answer_bye-Keeps :
      (key : Bytes) (msg : Message) → Keeps P (send_late_answer_bye env key msg)
  unfolding send_late_answer_bye
  send_late_answer_bye-Keeps key msg = Keeps-bind (Keeps-gets _) (λ found. Keeps-for_some _ (λ e.
      Keeps-when _ (
        Keeps-then (change_retained-Keeps key _)
          (Keeps-when _ (Keeps-for_some _ (λ to. late_bye_to-Keeps key e msg to))))))

  pub handle_retained_response-Keeps :
      (key : Bytes) (e : RetainedInvite) (msg : Message)
      → Keeps P (handle_retained_response env key e msg)
  unfolding handle_retained_response retained_invite_final
  handle_retained_response-Keeps key e msg = Keeps-then (change_retained-Keeps key _) (
      Keeps-when _ (
        Keeps-then (send_invite_ack-Keeps _ msg _) (
          Keeps-then (refresh_retained-Keeps key)
            (Keeps-when _ (send_late_answer_bye-Keeps key msg)))))
