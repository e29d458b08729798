-- ===== src/Bridge/FromMgc.antt =====
-- Transactions of the MGC: `HandleH248`, `HandleH248Ready`, `HandleH248Response` of
-- internal/bridge/h248.go. The two kinds of Add are in Bridge/FromMgc/Add.antt, every other command
-- in Bridge/FromMgc/Command.antt.
pub mod Replies
pub mod Add
pub mod Command
use megaco_sip_gateway.Prelude.{
  ℕ, Bytes, lit, same, is_empty, Bool, true, false, not, ◌&&◌, ◌||◌, List, [], ◌∷◌, Option, none,
  some, if◌then◌else◌,
}
use megaco_sip_gateway.Prelude.Map
use megaco_sip_gateway.Prelude.Result.{Result, ok, err}
use megaco_sip_gateway.H248.Message.{Message, ActionReply}
use megaco_sip_gateway.Bridge.State.{
  Ref, Call, Responder, Phase, answer, origination_offhook, origination_digits, initial_onhook,
  onhook, Bridge, LineState, PendingTransaction, Env, M, ◌>>=◌, ◌>>◌, pure, gets, modify, done,
  when, for_some, for_each, change, send, h248_reply, action_reply,
}
use megaco_sip_gateway.Bridge.Line.{drop_pending, send_initial_onhook}
use megaco_sip_gateway.Bridge.Origination.{fail_and_release}
use Replies.{is_incoming_call_add, simple_action_replies}
use Add.{handle_incoming_call_add, handle_outbound_call_add, reply_error}
use Command.{process_h248_command}

-- The outbound call that an Add is for
unfoldable pub awaiting_add : Bridge → Option Ref
awaiting_add b = elim b.outbound_call [
  | none ↦ none
  | some r ↦ if (b.cell r).released || not (b.cell r).h248_digits_sent then none else some r
]

unfoldable pub add_for : Env → Message → Responder → Option Ref → M (Unit {0})
add_for env msg responder none = handle_incoming_call_add env msg responder
add_for env msg responder (some r) = handle_outbound_call_add env msg responder r

unfoldable pub commands_of :
    Env → Message → Responder → Result Bytes (List ActionReply) → M (Unit {0})
commands_of env msg responder (err e) = reply_error env msg responder (lit "400") e
commands_of env msg responder (ok actions) = do
  sent ← send env (h248_reply responder msg (action_reply actions))
  when sent (for_each msg.commands (process_h248_command env msg responder))

-- `HandleH248`
unfoldable pub handle_h248 : Env → Message → Responder → M (Unit {0})
handle_h248 env msg responder = do
  waiting ← gets awaiting_add
  when (same msg.transaction_type (lit "Transaction")) (
      if is_incoming_call_add msg env.cfg.h248.physical_termination
      then add_for env msg responder waiting
      else commands_of env msg responder (simple_action_replies msg env.cfg.h248.version))

unfoldable pub line_up : Responder → Bridge → Bridge
line_up responder b = record b {
  line = record b.line { ready = true; ready_at = b.clock; responder = some responder };
}

-- `HandleH248Ready`
unfoldable pub handle_h248_ready : Env → Responder → M (Unit {0})
handle_h248_ready env responder = do modify (line_up responder); send_initial_onhook env

-- The calls of a map in its order
unfoldable pub call_with_id : (Ref → Call) → Bytes → List (Bytes × Ref) → Option Ref
call_with_id cell id [] = none
call_with_id cell id ((key, r) ∷ rest) =
    let other = call_with_id cell id rest in if same (cell r).id id then some r else other

-- `b.outboundCall`, if its ID is the one that is looked for
unfoldable pub outbound_with_id : Bridge → Bytes → Option Ref
outbound_with_id b id = elim b.outbound_call [
  | none ↦ none
  | some r ↦ if same (b.cell r).id id then some r else none
]

abbrev pub or_else_ref : Option Ref → Option Ref → Option Ref
or_else_ref none other = other
or_else_ref (some r) other = some r

-- The call that a transaction of the gateway was about
unfoldable pub call_of_pending : Bridge → Option PendingTransaction → Option Ref
unfolding call_with_id outbound_with_id
call_of_pending b none = none
call_of_pending b (some pending) =
    if is_empty pending.call_id
    then none
    else or_else_ref (Map.lookup pending.call_id b.calls_by_sip) (
        or_else_ref (call_with_id b.cell pending.call_id b.calls_by_h248)
          (outbound_with_id b pending.call_id))

unfoldable pub unanswered : Call → Call
unanswered c = record c { h248_answered = false }

-- What an error of the MGC does to the call, by the phase
unfoldable pub rejected : Env → Phase → Ref → M (Unit {0})
rejected env answer r = change r unanswered
rejected env origination_offhook r = fail_and_release env r 503 (lit "H248 Origination Rejected")
rejected env origination_digits r = fail_and_release env r 503 (lit "H248 Origination Rejected")
rejected env onhook r = done
rejected env initial_onhook r = done

-- `HandleH248Response`
unfoldable pub handle_h248_response : Env → Message → M (Unit {0})
handle_h248_response env msg = do
  found ← gets (λ b. Map.lookup msg.transaction_id b.pending_h248)
  call ← gets (λ b. call_of_pending b (Map.lookup msg.transaction_id b.pending_h248))
  when (same msg.transaction_type (lit "Reply")) (drop_pending msg.transaction_id)
  when (not (is_empty msg.error_code))
      (for_some found (λ pending. for_some call (rejected env pending.phase)))
