-- ===== src/Bridge/Invariant/Pbx.antt =====
-- The other messages of the PBX: an invariant is kept by the functions of Bridge/FromPbx.antt and
-- Bridge/Answer.antt.
use megaco_sip_gateway.Prelude.{ℕ, ◌<◌, Bytes, true, false, some, arith, ℤ}
use megaco_sip_gateway.Bridge.State.{
  Direction, h248_to_sip, sip_to_h248, Ref, Responder, Bridge, Env,
}
use megaco_sip_gateway.Bridge.State.Keeps.{
  Keeps, Keeps-if, Keeps-done, Keeps-pure, Keeps-bind, Keeps-when, Keeps-then, Keeps-gets,
  Keeps-for_some,
}
use megaco_sip_gateway.Bridge.Invariant.{IsGentle, IsBelow}
use megaco_sip_gateway.Bridge.Invariant.Basics.{
  Kept, Keeps-read, Keeps-found_sip, Keeps-change, Keeps-schedule,
}
use megaco_sip_gateway.Sip.Message.{Message, call_id}
use megaco_sip_gateway.Bridge.FromPbx.{
  release_later, find_call, remote_released, cancel_call, cancel_found, handle_sip_cancel,
  bye_found, handle_sip_bye, take_body, reinvite_found, handle_sip_reinvite, update_found,
  handle_sip_session_update,
}
use megaco_sip_gateway.Bridge.Answer.{
  answered_by, progressed, provisional, answered, end_call, succeeded, failed_finally, failed,
  final, response_of_call, response_of_retained, response_to, handle_sip_response,
}
use megaco_sip_gateway.Bridge.Invariant.Ends.{
  release_call-Keeps, report_onhook-Keeps, try_answer_h248-Keeps, fail_sip_originated_call-Keeps,
}
use megaco_sip_gateway.Bridge.Invariant.Requests.{
  retain_sip_invite-Keeps, send_sip_teardown-Keeps, send_invite_ack-Keeps, send_prack-Keeps,
  handle_retained_response-Keeps,
}
use megaco_sip_gateway.Bridge.Invariant.Invites.{update_sip_remote_media-Keeps}
use megaco_sip_gateway.Bridge.Invariant.Admission.{reply-Keeps}

progressed-IsGentle : (status : ℤ) → IsGentle (progressed status)
unfolding progressed
progressed-IsGentle status = record {
  sip_call_id = λ c. ground arith;
  h248_context_id = λ c. ground arith;
  direction = λ c. ground arith;
  released = λ c. ground arith;
  onhook = λ c. ground arith;
  offhook = λ c. ground arith;
  digits = λ c. ground arith;
}

module _ {env : Env} {n : ℕ} {P : Bridge → Type 0} (kept : Kept env n P) where
  release_later-Keeps : (r : Ref) → r < n → Keeps P (release_later r)
  unfolding release_later IsBelow
  release_later-Keeps r lt = Keeps-schedule kept _ _ lt

  cancel_call-Keeps :
      (msg : Message) (to : Responder) (r : Ref)
      → r < n
      → (direction : Direction) → Keeps P (cancel_call env msg to r direction)
  unfolding cancel_call remote_released
  cancel_call-Keeps msg to r lt h248_to_sip = reply-Keeps kept to _
  cancel_call-Keeps msg to r lt sip_to_h248 = Keeps-then (Keeps-change kept r _ search) (
      Keeps-then (reply-Keeps kept to _) (
        Keeps-then (fail_sip_originated_call-Keeps kept r 487 _)
          (Keeps-then (report_onhook-Keeps kept r lt) (release_later-Keeps r lt))))

  cancel_found-Keeps :
      (msg : Message) (to : Responder) (r : Ref)
      → r < n
      → Keeps P (cancel_found env msg to (some r))
  unfolding cancel_found
  cancel_found-Keeps msg to r lt =
      Keeps-bind (Keeps-read r _) (λ direction. cancel_call-Keeps msg to r lt direction)

  bye_found-Keeps :
      (msg : Message) (to : Responder) (r : Ref) → r < n → Keeps P (bye_found env msg to (some r))
  unfolding bye_found remote_released
  bye_found-Keeps msg to r lt = Keeps-then (Keeps-change kept r _ search) (
      Keeps-then (reply-Keeps kept to _)
        (Keeps-then (report_onhook-Keeps kept r lt) (release_later-Keeps r lt)))

  take_body-Keeps : (r : Ref) (body : Bytes) → Keeps P (take_body env r body)
  unfolding take_body
  take_body-Keeps r body = Keeps-if _ (Keeps-pure true) (update_sip_remote_media-Keeps kept r body)

  reinvite_found-Keeps :
      (msg : Message) (to : Responder) (r : Ref) → Keeps P (reinvite_found env msg to (some r))
  unfolding reinvite_found
  reinvite_found-Keeps msg to r = Keeps-bind (take_body-Keeps r msg.body) (λ acceptable.
      Keeps-bind (Keeps-read r _) (λ c. Keeps-then (reply-Keeps kept to _) (Keeps-pure true)))

  update_found-Keeps :
      (msg : Message) (to : Responder) (r : Ref) → Keeps P (update_found env msg to (some r))
  unfolding update_found
  update_found-Keeps msg to r =
      Keeps-bind (take_body-Keeps r msg.body) (λ acceptable. reply-Keeps kept to _)

  provisional-Keeps : (r : Ref) (msg : Message) → Keeps P (provisional env r msg)
  unfolding provisional
  provisional-Keeps r msg =
      Keeps-then
        (Keeps-when _ (Keeps-then (update_sip_remote_media-Keeps kept r msg.body) Keeps-done))
        (Keeps-then (Keeps-change kept r _ (progressed-IsGentle msg.status))
          (Keeps-when _ (send_prack-Keeps kept r msg _)))

  succeeded-Keeps : (r : Ref) → r < n → (msg : Message) → Keeps P (succeeded env r msg)
  unfolding succeeded end_call answered
  succeeded-Keeps r lt msg =
      Keeps-bind (update_sip_remote_media-Keeps kept r msg.body) (λ acceptable.
        Keeps-if _ (Keeps-then (Keeps-change kept r _ search) (try_answer_h248-Keeps kept r lt)) (
          Keeps-then (send_sip_teardown-Keeps kept r)
            (Keeps-then (report_onhook-Keeps kept r lt) (release_call-Keeps kept r))))

  failed-Keeps : (r : Ref) → r < n → Keeps P (failed env r)
  unfolding failed failed_finally
  failed-Keeps r lt = Keeps-then (Keeps-change kept r _ search) (
      Keeps-then (retain_sip_invite-Keeps kept r)
        (Keeps-then (report_onhook-Keeps kept r lt) (release_later-Keeps r lt)))

  response_of_call-Keeps :
      (r : Ref) → r < n → (msg : Message) → Keeps P (response_of_call env r msg)
  unfolding response_of_call final answered_by
  response_of_call-Keeps r lt msg = Keeps-then (Keeps-change kept r _ search) (
      Keeps-when _ (
        Keeps-if _
          (Keeps-bind (Keeps-read r _) (λ c.
            Keeps-then (send_invite_ack-Keeps kept _ msg _)
              (Keeps-if _ (succeeded-Keeps r lt msg) (failed-Keeps r lt))))
          (provisional-Keeps r msg)))

  response_of_retained-Keeps : (msg : Message) → Keeps P (response_of_retained env msg)
  unfolding response_of_retained
  response_of_retained-Keeps msg =
      Keeps-bind (Keeps-gets _)
        (λ found. Keeps-for_some _ (λ e. handle_retained_response-Keeps kept _ e msg))

  response_to-Keeps : (msg : Message) (r : Ref) → r < n → Keeps P (response_to env msg (some r))
  unfolding response_to
  response_to-Keeps msg r lt =
      Keeps-bind (Keeps-read r _)
        (λ released. Keeps-if _ (response_of_retained-Keeps msg) (response_of_call-Keeps r lt msg))

module _ {env : Env} {n : ℕ} {P : Bridge → Type 0} (kept : Kept env n P) where
  pub handle_sip_cancel-Keeps :
      (msg : Message) (to : Responder) → Keeps P (handle_sip_cancel env msg to)
  unfolding handle_sip_cancel find_call cancel_found
  handle_sip_cancel-Keeps msg to =
      Keeps-found_sip kept (call_id msg) _ (reply-Keeps kept to _)
        (λ m kept' r lt. cancel_found-Keeps kept' msg to r lt)

  pub handle_sip_bye-Keeps : (msg : Message) (to : Responder) → Keeps P (handle_sip_bye env msg to)
  unfolding handle_sip_bye find_call bye_found
  handle_sip_bye-Keeps msg to =
      Keeps-found_sip kept (call_id msg) _ (reply-Keeps kept to _)
        (λ m kept' r lt. bye_found-Keeps kept' msg to r lt)

  pub handle_sip_reinvite-Keeps :
      (msg : Message) (to : Responder) → Keeps P (handle_sip_reinvite env msg to)
  unfolding handle_sip_reinvite find_call reinvite_found
  handle_sip_reinvite-Keeps msg to =
      Keeps-found_sip kept (call_id msg) _ (Keeps-pure false)
        (λ m kept' r lt. reinvite_found-Keeps kept' msg to r)

  pub handle_sip_session_update-Keeps :
      (msg : Message) (to : Responder) → Keeps P (handle_sip_session_update env msg to)
  unfolding handle_sip_session_update find_call update_found
  handle_sip_session_update-Keeps msg to =
      Keeps-found_sip kept (call_id msg) _ (reply-Keeps kept to _)
        (λ m kept' r lt. update_found-Keeps kept' msg to r)

  pub handle_sip_response-Keeps : (msg : Message) → Keeps P (handle_sip_response env msg)
  unfolding handle_sip_response find_call response_to
  handle_sip_response-Keeps msg =
      Keeps-found_sip kept (call_id msg) _ (response_of_retained-Keeps kept msg)
        (λ m kept' r lt. response_to-Keeps kept' msg r lt)
