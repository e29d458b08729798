-- ===== src/Bridge/Invariant/Ends.antt =====
-- Reports, responses and the end of a call: an invariant is kept by the functions of
-- Bridge/Line.antt, Bridge/Response.antt and Bridge/Teardown.antt.
use megaco_sip_gateway.Prelude.{
  ℕ, ◌<◌, Bytes, Bool, true, false, ◌||◌, is_empty, Option, none, some, ◌≡◌, refl, arith,
}
use megaco_sip_gateway.Bridge.State.{Ref, Call, Responder, Phase, answer, onhook, Bridge, Env, pure}
use megaco_sip_gateway.Bridge.State.Keeps.{
  Keeps, Keeps-if, Keeps-done, Keeps-pure, Keeps-modify, Keeps-bind, Keeps-when, Keeps-then,
  Keeps-gets, Keeps-for_some,
}
use megaco_sip_gateway.Bridge.Ports.{next_uint64}
use megaco_sip_gateway.Sip.Message.{Message}
use megaco_sip_gateway.Bridge.Response.{
  originated_response, responded, send_sip_originated_response, answer_sip_originated_call,
  fail_sip_originated_call,
}
use megaco_sip_gateway.Bridge.Origination.{fail_and_release}
use megaco_sip_gateway.Bridge.Report.{flag, is_line_phase, line_event_to-IsReport}
use megaco_sip_gateway.Bridge.State.{SipResponse}
use megaco_sip_gateway.Bridge.Line.{
  take_down, release_call, new_h248_transaction_id, add_pending, drop_pending, send_initial_onhook,
  initial_onhook_to, send_call_line_event, line_event_by, is_reported, report_onhook,
  try_answer_h248,
}
use megaco_sip_gateway.Bridge.Invariant.{IsGentle}
use megaco_sip_gateway.Bridge.Invariant.Basics.{
  Kept, Keeps-read, Keeps-read_if, Keeps-aside, Keeps-change, Keeps-send,
}

-- A flag of a line event that `sendCallLineEvent` reads
flag-is_reported :
    (phase : Phase) (c : Call)
    → is_line_phase phase ≡ true
    → is_reported phase c ≡ false
    → flag phase c ≡ false
unfolding is_line_phase is_reported flag
flag-is_reported phase c line is = ground arith

responded-IsGentle : (status : ℕ) (response : SipResponse) → IsGentle (responded status response)
unfolding responded
responded-IsGentle status response = record {
  sip_call_id = λ c. ground arith;
  h248_context_id = λ c. ground arith;
  direction = λ c. ground arith;
  released = λ c. ground arith;
  onhook = λ c. ground arith;
  offhook = λ c. ground arith;
  digits = λ c. ground arith;
}

unreported :
    (phase : Phase) (c : Call)
    → (c.released || is_empty c.h248_event_request_id || is_reported phase c) ≡ false
    → is_reported phase c ≡ false
unreported phase c e = ground arith

module _ {env : Env} {n : ℕ} {P : Bridge → Type 0} (kept : Kept env n P) where
  pub release_call-Keeps : (r : Ref) → Keeps P (release_call r)
  unfolding release_call
  release_call-Keeps r = Keeps-bind (Keeps-read r _) (λ over. Keeps-when _ (
      Keeps-then (Keeps-modify (take_down r) (kept.laws.takes_down r))
        (Keeps-change kept r _ search)))

  pub new_h248_transaction_id-Keeps : Keeps P new_h248_transaction_id
  unfolding new_h248_transaction_id
  new_h248_transaction_id-Keeps = record {
    at = kept.laws.aside (λ b. record b { next_h248_tid = next_uint64 b.next_h248_tid }) search;
  }

  pub add_pending-Keeps :
      (tid call_id : Bytes) (phase : Phase) → Keeps P (add_pending tid call_id phase)
  unfolding add_pending
  add_pending-Keeps tid call_id phase = Keeps-aside kept _ search

  pub drop_pending-Keeps : (tid : Bytes) → Keeps P (drop_pending tid)
  unfolding drop_pending
  drop_pending-Keeps tid = Keeps-aside kept _ search

  pub send_initial_onhook-Keeps : Keeps P (send_initial_onhook env)
  unfolding send_initial_onhook initial_onhook_to
  send_initial_onhook-Keeps = Keeps-bind (Keeps-gets _) (λ line. Keeps-when _ (
      Keeps-for_some _ (λ responder. Keeps-bind new_h248_transaction_id-Keeps (λ tid.
        Keeps-then (Keeps-aside kept _ search) (
          Keeps-then (add_pending-Keeps tid _ _) (
            Keeps-bind (Keeps-gets _) (λ now. Keeps-bind (Keeps-send kept _ refl) (λ sent.
              Keeps-when _ (Keeps-then (Keeps-aside kept _ search) (drop_pending-Keeps tid))))))))))

  line_event_by-at :
      (r : Ref)
      → r < n
      → (event : Bytes) (phase : Phase) → is_line_phase phase ≡ true
      → (o : Option Responder) (b : Bridge) → is_reported phase (b.cell r) ≡ false
      → P b
      → P (line_event_by env r event phase o b).1
  unfolding line_event_by pure
  line_event_by-at r lt event phase line none b is h = h
  line_event_by-at r lt event phase line (some to) b is h =
      let le = kept.past b h in
      kept.laws.reports r phase b _ (omega arith) (flag-is_reported phase (b.cell r) line is)
        (line_event_to-IsReport env r event phase line to b) h

  pub send_call_line_event-Keeps :
      (r : Ref)
      → r < n
      → (event : Bytes) (phase : Phase) → is_line_phase phase ≡ true
      → Keeps P (send_call_line_event env r event phase)
  unfolding send_call_line_event
  send_call_line_event-Keeps r lt event phase line =
      Keeps-read_if r (λ c. c.released || is_empty c.h248_event_request_id || is_reported phase c)
        (λ c. pure false) (λ c. line_event_by env r event phase c.h248_responder)
        (λ b h e. (Keeps-pure {P = P} false).at b h)
        (λ b h e. line_event_by-at r lt event phase line _ b (unreported phase (b.cell r) e) h)

  pub report_onhook-Keeps : (r : Ref) → r < n → Keeps P (report_onhook env r)
  unfolding report_onhook is_line_phase
  report_onhook-Keeps r lt = Keeps-then (send_call_line_event-Keeps r lt _ onhook refl) Keeps-done

  pub try_answer_h248-Keeps : (r : Ref) → r < n → Keeps P (try_answer_h248 env r)
  unfolding try_answer_h248 is_line_phase
  try_answer_h248-Keeps r lt = Keeps-then (send_call_line_event-Keeps r lt _ answer refl) Keeps-done

  originated_response-Keeps :
      (r : Ref) (status : ℕ) (reason : Bytes) (with_sdp : Bool) (c : Call)
      (request : Option Message) (to : Option Responder)
      → Keeps P (originated_response env r status reason with_sdp c request to)
  unfolding originated_response responded
  originated_response-Keeps r status reason with_sdp c none to = Keeps-pure false
  originated_response-Keeps r status reason with_sdp c (some request) none = Keeps-pure false
  originated_response-Keeps r status reason with_sdp c (some request) (some to) =
      Keeps-then (Keeps-change kept r _ (responded-IsGentle status _)) (Keeps-send kept _ refl)

  pub send_sip_originated_response-Keeps :
      (r : Ref) (status : ℕ) (reason : Bytes) (with_sdp : Bool)
      → Keeps P (send_sip_originated_response env r status reason with_sdp)
  unfolding send_sip_originated_response
  send_sip_originated_response-Keeps r status reason with_sdp = Keeps-bind (Keeps-read r _) (λ c.
      Keeps-if _ (Keeps-pure false) (originated_response-Keeps r status reason with_sdp c _ _))

  pub answer_sip_originated_call-Keeps : (r : Ref) → Keeps P (answer_sip_originated_call env r)
  unfolding answer_sip_originated_call
  answer_sip_originated_call-Keeps r = Keeps-bind (Keeps-read r _) (λ c. Keeps-when _ (
      Keeps-bind (send_sip_originated_response-Keeps r 200 _ true)
        (λ sent. Keeps-when _ (Keeps-change kept r _ search))))

  pub fail_sip_originated_call-Keeps :
      (r : Ref) (status : ℕ) (reason : Bytes)
      → Keeps P (fail_sip_originated_call env r status reason)
  unfolding fail_sip_originated_call
  fail_sip_originated_call-Keeps r status reason = Keeps-bind (Keeps-read r _) (λ answered.
      Keeps-when _
        (Keeps-then (send_sip_originated_response-Keeps r status reason false) Keeps-done))

  pub fail_and_release-Keeps :
      (r : Ref) (status : ℕ) (reason : Bytes) → Keeps P (fail_and_release env r status reason)
  unfolding fail_and_release
  fail_and_release-Keeps r status reason =
      Keeps-then (fail_sip_originated_call-Keeps r status reason) (release_call-Keeps r)
