-- ===== src/Tests/Runs.antt =====
-- Runs of the bridge and the requests of a dialog.
use megaco_sip_gateway.Prelude.{◌≤◌, lit, true, [], ◌∷◌, some, ◌≡◌, refl, pos, arith, same}
use megaco_sip_gateway.Prelude.Map
use megaco_sip_gateway.Bridge.State.{Bridge, onhook, new_call, h248_to_sip, Call}
use megaco_sip_gateway.Bridge.Report.{one_shot}
use megaco_sip_gateway.Bridge.Invite.{invite_for, invited, retransmit_found}
use megaco_sip_gateway.Bridge.Teardown.{cancel_request}
use megaco_sip_gateway.Bridge.Invariant.Consistent.{IsConsistent}
use megaco_sip_gateway.Bridge.Invariant.Registry.{reach-IsConsistent}
use megaco_sip_gateway.Bridge.Invariant.Once.{reported_once}
use megaco_sip_gateway.Bridge.Invariant.Once.Counting.{reports_sent}
use megaco_sip_gateway.Bridge.Dialog.{
  timed_out_lem, BelongsTo, cancel_matches_invite, ack_matches_invite,
}
use megaco_sip_gateway.Sip.Message.{Message, header}
use megaco_sip_gateway.Bridge.Retained.{ack_request, transaction_of}
use megaco_sip_gateway.Tests.Data.{after_add, run, calm, home, fresh}

reach-IsConsistent_example : IsConsistent after_add
reach-IsConsistent_example = reach-IsConsistent calm after_add run

reported_once_example : reports_sent onhook 0 after_add.wire ≤ 1
unfolding one_shot
reported_once_example = reported_once calm after_add run onhook refl 0

-- A call whose INVITE has been answered when the deadline comes
abbrev answered_call : Call
answered_call = record (new_call h248_to_sip) { sip_call_id = lit "a"; sip_answered = true }

abbrev answered_bridge : Bridge
answered_bridge = record fresh {
  cell = λ r. answered_call;
  next_ref = 1;
  calls_by_sip = (lit "a", 0) ∷ [];
  clock = 40_000_000_000;
}

timed_out_lem_example :
    ((retransmit_found calm (lit "a") 4_000_000_000 32_000_000_000 answered_bridge).1.cell
      0).released
    ≡ true
unfolding Map.lookup lit same
timed_out_lem_example =
    timed_out_lem calm (lit "a") 4_000_000_000 32_000_000_000 0 answered_bridge refl (omega arith)

cancel_matches_invite_example :
    BelongsTo
      (invite_for calm answered_call 3).request
      (cancel_request calm (invited (invite_for calm answered_call 3) home answered_call))
      (invite_for calm answered_call 3).to
      (lit "1 CANCEL")
cancel_matches_invite_example = cancel_matches_invite calm answered_call 3 home

abbrev busy : Message
busy = record {
  start_line = lit "SIP/2.0 486 Busy Here";
  method = [];
  uri = [];
  status = pos 486;
  reason = lit "Busy Here";
  headers = (lit "To", lit "<sip:b@c>;tag=9" ∷ []) ∷ [];
  body = [];
  source = some home;
}

ack_matches_invite_example :
    BelongsTo
      (invite_for calm answered_call 3).request
      (ack_request calm
        (transaction_of (invited (invite_for calm answered_call 3) home answered_call))
        busy
        4)
      (header busy (lit "To"))
      (lit "1 ACK")
ack_matches_invite_example = ack_matches_invite calm answered_call 3 4 home busy refl
