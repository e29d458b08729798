-- ===== src/Bridge/Invariant/LineLoss/Teardown.antt =====
-- About `sendSIPTeardown` of internal/bridge/sip.go: the state that it leaves as it is.
use megaco_sip_gateway.Prelude.{ℕ, Bytes, Bool, false, List, Option, none, some}
use megaco_sip_gateway.Net.{UdpAddr}
use megaco_sip_gateway.Sip.Message.{Message}
use megaco_sip_gateway.Bridge.State.{
  Ref, Call, LineState, Responder, SipRequest, Direction, h248_to_sip, sip_to_h248, Output, Bridge,
  Env, change, send, schedule, read,
}
use megaco_sip_gateway.Bridge.State.Keeps.{
  Keeps, Keeps-modify, Keeps-bind, Keeps-then, Keeps-when, Keeps-if, Keeps-gets, Keeps-for_some,
  Keeps-done, Keeps-pure,
}
use megaco_sip_gateway.Bridge.Response.{
  originated_response, send_sip_originated_response, fail_sip_originated_call,
}
use megaco_sip_gateway.Bridge.Teardown.{
  retain_sip_invite, send_by_server, bye_to_caller, end_originated, teardown_to, send_sip_teardown,
}

abbrev pub Facts : Type 1
Facts = LineState → List (Bytes × Ref) → Option Ref → Type 0

abbrev pub Untouched : Facts → Bridge → Type 0
Untouched Q b = Q b.line b.calls_by_h248 b.outbound_call

-- What a teardown does not write: the line, the contexts, and the outbound call but at a release
module _ (env : Env) (Q : Facts) where
  pub change-Untouched : (r : Ref) (f : Call → Call) → Keeps (Untouched Q) (change r f)
  unfolding change
  change-Untouched r f = Keeps-modify _ (λ b h. h)

  send-Untouched : (o : Output) → Keeps (Untouched Q) (send env o)
  unfolding send
  send-Untouched o = record { at = λ b h. h }

  pub read-Untouched : {A : Type 0} (r : Ref) (f : Call → A) → Keeps (Untouched Q) (read r f)
  unfolding read
  read-Untouched r f = Keeps-gets _

  retain-Untouched : (r : Ref) → Keeps (Untouched Q) (retain_sip_invite r)
  unfolding retain_sip_invite schedule
  retain-Untouched r =
      Keeps-bind (read-Untouched r _)
        (λ c. Keeps-when _ (Keeps-then (Keeps-modify _ (λ b h. h)) (Keeps-modify _ (λ b h. h))))

  by_server-Untouched :
      (to : UdpAddr) (request : SipRequest) → Keeps (Untouched Q) (send_by_server env to request)
  unfolding send_by_server
  by_server-Untouched to request =
      Keeps-bind (Keeps-gets _)
        (λ attached. Keeps-when _ (Keeps-then (send-Untouched _) Keeps-done))

  bye-Untouched : (r : Ref) (to : UdpAddr) → Keeps (Untouched Q) (bye_to_caller env r to)
  unfolding bye_to_caller
  bye-Untouched r to = Keeps-bind (read-Untouched r _) (λ c.
      Keeps-bind (Keeps-gets _)
        (λ now. Keeps-then (change-Untouched r _) (Keeps-when _ (by_server-Untouched to _))))

  originated-Untouched :
      (r : Ref) (to : UdpAddr) (c : Call) → Keeps (Untouched Q) (end_originated env r to c)
  unfolding end_originated
  originated-Untouched r to c = Keeps-if _ (change-Untouched r _) (
      Keeps-if _
        (Keeps-bind (Keeps-gets _)
          (λ now. Keeps-then (change-Untouched r _) (by_server-Untouched to _)))
        (Keeps-then (change-Untouched r _)
          (Keeps-then (retain-Untouched r) (by_server-Untouched to _))))

  response-Untouched :
      (r : Ref) (status : ℕ) (reason : Bytes) (with_sdp : Bool) (c : Call) (m : Option Message)
      (to : Option Responder)
      → Keeps (Untouched Q) (originated_response env r status reason with_sdp c m to)
  unfolding originated_response
  response-Untouched r status reason with_sdp c none to = Keeps-pure false
  response-Untouched r status reason with_sdp c (some m) none = Keeps-pure false
  response-Untouched r status reason with_sdp c (some m) (some to) =
      Keeps-then (change-Untouched r _) (send-Untouched _)

  fail-Untouched :
      (r : Ref) (status : ℕ) (reason : Bytes)
      → Keeps (Untouched Q) (fail_sip_originated_call env r status reason)
  unfolding fail_sip_originated_call send_sip_originated_response
  fail-Untouched r status reason = Keeps-bind (read-Untouched r _) (λ answered. Keeps-when _ (
      Keeps-then
        (Keeps-bind (read-Untouched r _)
          (λ c. Keeps-if _ (Keeps-pure false) (response-Untouched r status reason false c _ _)))
        Keeps-done))

  to-Untouched :
      (r : Ref) (c : Call) (to : UdpAddr) (direction : Direction)
      → Keeps (Untouched Q) (teardown_to env r c to direction)
  unfolding teardown_to
  to-Untouched r c to h248_to_sip = originated-Untouched r to c
  to-Untouched r c to sip_to_h248 = Keeps-if _ (bye-Untouched r to) (fail-Untouched r 503 _)

  pub teardown-Untouched : (r : Ref) → Keeps (Untouched Q) (send_sip_teardown env r)
  unfolding send_sip_teardown
  teardown-Untouched r =
      Keeps-bind (read-Untouched r _)
        (λ c. Keeps-when _ (Keeps-for_some _ (λ to. to-Untouched r c to _)))
