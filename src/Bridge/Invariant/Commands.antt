-- ===== src/Bridge/Invariant/Commands.antt =====
-- Commands of the MGC and its replies: an invariant is kept by the functions of
-- Bridge/FromMgc/Command.antt and Bridge/FromMgc.antt.
use megaco_sip_gateway.Prelude.{inl, inr, Option-cases, ℕ, ◌<◌, Bytes, List, some, ◌≡◌, refl, arith}
use megaco_sip_gateway.Prelude.Result.{Result, ok, err}
use megaco_sip_gateway.Net.{UdpAddr}
use megaco_sip_gateway.Bridge.State.{Ref, Responder, Phase, answer, onhook, Bridge, Env, for_some}
use megaco_sip_gateway.Bridge.State.Keeps.{
  Keeps, Keeps-if, Keeps-done, Keeps-bind, Keeps-when, Keeps-then, Keeps-gets, Keeps-for_some,
  Keeps-for_each,
}
use megaco_sip_gateway.Bridge.Invariant.Basics.{
  Kept, Keeps-read, Keeps-found_h248, Keeps-aside, Keeps-change, Keeps-send,
}
use megaco_sip_gateway.H248.Message.{Command, Message, ActionReply}
use megaco_sip_gateway.Bridge.State.{initial_onhook, origination_offhook, origination_digits}
use megaco_sip_gateway.Bridge.FromMgc.{
  add_for, awaiting_add, commands_of, handle_h248, handle_h248_ready, line_up, handle_h248_response,
  rejected, unanswered,
}
use megaco_sip_gateway.Bridge.FromMgc.Command.{
  listen_line, listens, outbound_command, line_command, commanded, command_media, call_command,
  no_call_command, context_command, process_h248_command, context_of,
}
use megaco_sip_gateway.Bridge.Invariant.Basics.{Keeps-found}
use megaco_sip_gateway.Bridge.Invariant.Ends.{
  drop_pending-Keeps, send_initial_onhook-Keeps, try_answer_h248-Keeps,
  answer_sip_originated_call-Keeps, fail_and_release-Keeps,
}
use megaco_sip_gateway.Bridge.Invariant.Invites.{start_sip_invite-Keeps}
use megaco_sip_gateway.Bridge.Invariant.Origination.{schedule_origination_digits-Keeps}
use megaco_sip_gateway.Bridge.Invariant.Carrier.{handle_carrier_release-Keeps, release_all-Keeps}
use megaco_sip_gateway.Bridge.Invariant.Mgc.{
  reply_error-Keeps, with_h248_media-IsGentle, handle_incoming_call_add-Keeps,
  handle_outbound_call_add-Keeps,
}

module _ {env : Env} {n : ℕ} {P : Bridge → Type 0} (kept : Kept env n P) where
  outbound_command-Keeps :
      (command : Command) (request_id : Bytes) (to : Responder) (r : Ref)
      → r < n
      → Keeps P (outbound_command env command request_id to r)
  unfolding outbound_command listens
  outbound_command-Keeps command request_id to r lt = Keeps-bind (Keeps-read r _) (λ waits.
      Keeps-then (Keeps-when _ (Keeps-change kept r _ search))
        (Keeps-when _ (schedule_origination_digits-Keeps kept r lt)))

  command_media-Keeps :
      (command : Command) (r : Ref) (media : ℕ × UdpAddr)
      → Keeps P (command_media env command r media)
  unfolding command_media
  command_media-Keeps command r (offered, remote) =
      Keeps-then (Keeps-change kept r _ (with_h248_media-IsGentle offered remote)) (
        Keeps-bind (Keeps-read r _)
          (λ direction. Keeps-when _ (answer_sip_originated_call-Keeps kept r)))

  call_command-Keeps :
      (command : Command) (request_id : Bytes) (to : Responder) (r : Ref)
      → r < n
      → Keeps P (call_command env command request_id to r)
  unfolding call_command commanded
  call_command-Keeps command request_id to r lt = Keeps-then (Keeps-change kept r _ search) (
      Keeps-then (Keeps-for_some _ (λ media. command_media-Keeps command r media)) (
        Keeps-bind (Keeps-read r _) (λ termination.
          Keeps-then (Keeps-when _ (start_sip_invite-Keeps kept r lt)) (
            Keeps-if _ (handle_carrier_release-Keeps kept r lt _)
              (Keeps-when _ (try_answer_h248-Keeps kept r lt))))))

  awaiting_add-known : (b : Bridge) → P b → (r : Ref) → awaiting_add b ≡ some r → r < b.next_ref
  unfolding awaiting_add
  awaiting_add-known b h r e = elim (Option-cases b.outbound_call) [
    | inl none_e ↦ ground arith
    | inr (j, some_e) ↦ let known = kept.laws.of_outbound b h j some_e in ground arith
  ]

  rejected-Keeps : (phase : Phase) (r : Ref) → Keeps P (rejected env phase r)
  unfolding rejected unanswered
  rejected-Keeps answer r = Keeps-change kept r _ search
  rejected-Keeps origination_offhook r = fail_and_release-Keeps kept r 503 _
  rejected-Keeps origination_digits r = fail_and_release-Keeps kept r 503 _
  rejected-Keeps onhook r = Keeps-done
  rejected-Keeps initial_onhook r = Keeps-done

module _ {env : Env} {n : ℕ} {P : Bridge → Type 0} (kept : Kept env n P) where
  line_command-Keeps :
      (command : Command) (request_id : Bytes) (to : Responder)
      → Keeps P (line_command env command request_id to)
  unfolding line_command listen_line for_some
  line_command-Keeps command request_id to =
      Keeps-then
        (Keeps-when _ (Keeps-then (Keeps-aside kept _ search) (send_initial_onhook-Keeps kept)))
        (Keeps-found kept _ _ (λ b h r e. (kept.laws.of_outbound b h r e).0) Keeps-done
          (λ m kept' r lt. outbound_command-Keeps kept' command request_id to r lt))

  no_call_command-Keeps :
      (msg : Message) (command : Command) → Keeps P (no_call_command env msg command)
  unfolding no_call_command
  no_call_command-Keeps msg command = Keeps-when _ (release_all-Keeps kept)

module _ {env : Env} {n : ℕ} {P : Bridge → Type 0} (kept : Kept env n P) where
  process_h248_command-Keeps :
      (msg : Message) (to : Responder) (command : Command)
      → Keeps P (process_h248_command env msg to command)
  unfolding process_h248_command context_command
  process_h248_command-Keeps msg to command =
      Keeps-found_h248 kept (context_of msg command) _
        (Keeps-if _ (line_command-Keeps kept command _ to) (no_call_command-Keeps kept msg command))
        (λ m kept' r lt.
          Keeps-if _ (line_command-Keeps kept' command _ to)
            (call_command-Keeps kept' command _ to r lt))

  commands_of-Keeps :
      (msg : Message) (to : Responder) (actions : Result Bytes (List ActionReply))
      → Keeps P (commands_of env msg to actions)
  unfolding commands_of
  commands_of-Keeps msg to (err e) = reply_error-Keeps kept msg to _ e
  commands_of-Keeps msg to (ok actions) =
      Keeps-bind (Keeps-send kept _ refl)
        (λ sent. Keeps-when _ (Keeps-for_each msg.commands (process_h248_command-Keeps msg to)))

module _ {env : Env} {n : ℕ} {P : Bridge → Type 0} (kept : Kept env n P) where
  pub handle_h248-Keeps : (msg : Message) (to : Responder) → Keeps P (handle_h248 env msg to)
  unfolding handle_h248 add_for
  handle_h248-Keeps msg to =
      Keeps-found kept awaiting_add _ (awaiting_add-known kept)
        (Keeps-when _ (
          Keeps-if _ (handle_incoming_call_add-Keeps kept msg to)
            (commands_of-Keeps kept msg to _)))
        (λ m kept' r lt. Keeps-when _ (
          Keeps-if _ (handle_outbound_call_add-Keeps kept' msg to r lt)
            (commands_of-Keeps kept' msg to _)))

  pub handle_h248_ready-Keeps : (to : Responder) → Keeps P (handle_h248_ready env to)
  unfolding handle_h248_ready line_up
  handle_h248_ready-Keeps to =
      Keeps-then (Keeps-aside kept _ search) (send_initial_onhook-Keeps kept)

  pub handle_h248_response-Keeps : (msg : Message) → Keeps P (handle_h248_response env msg)
  unfolding handle_h248_response
  handle_h248_response-Keeps msg = Keeps-bind (Keeps-gets _) (λ found.
      Keeps-bind (Keeps-gets _) (λ call.
        Keeps-then (Keeps-when _ (drop_pending-Keeps kept msg.transaction_id)) (
          Keeps-when _ (
            Keeps-for_some _
              (λ pending. Keeps-for_some _ (λ r. rejected-Keeps kept pending.phase r))))))
