-- ===== src/Tests/Ends.antt =====
-- The loss of the line in a run of the bridge.
use megaco_sip_gateway.Prelude.{false, to_upper, equal_fold, true, ◌≡◌, refl}
use megaco_sip_gateway.Config.{default_config}
use megaco_sip_gateway.Bridge.FailedAdd.{HasNoMore, add_fails}
use megaco_sip_gateway.Bridge.State.{
  Env, ◌>>=◌, ◌>>◌, pure, gets, modify, when, for_each, change, read, send,
}
use megaco_sip_gateway.Bridge.Ports.{allocate_call_identifiers}
use megaco_sip_gateway.Bridge.Line.{take_down, release_call, send_initial_onhook}
use megaco_sip_gateway.Bridge.Run.{starts, new_bridge, advance}
use megaco_sip_gateway.Bridge.FromMgc.{
  awaiting_add, add_for, handle_h248, line_up, handle_h248_ready,
}
use megaco_sip_gateway.Bridge.FromMgc.Replies.{is_incoming_call_add}
use megaco_sip_gateway.Bridge.FromMgc.Add.{
  new_added, register_context, with_h248_relay, rings, start_added, incoming,
  handle_incoming_call_add,
}
use megaco_sip_gateway.Bridge.Carrier.{
  has, once, line_calls, lose_line, tear_down, handle_h248_unavailable,
}
use megaco_sip_gateway.Bridge.Teardown.{send_sip_teardown}
use megaco_sip_gateway.Bridge.Admission.{open_relay}
use megaco_sip_gateway.H248.Interop.{parse_media_description, extract_remote_media}
use megaco_sip_gateway.Prelude.Regex.{is_word, plus, capture_plus, equals}
use megaco_sip_gateway.Prelude.Strings.{replace_all}
use megaco_sip_gateway.Prelude.Decimal.{atoi}
use megaco_sip_gateway.Prelude.Map.{lookup, insert, delete}
use megaco_sip_gateway.H248.Syntax.{is_space, is_name_char, balanced_end}
use megaco_sip_gateway.Bridge.State.{Bridge}
use megaco_sip_gateway.Bridge.Run.{starts, line_lost, waits, goes}
use megaco_sip_gateway.Prelude.{none, some, arith}
use megaco_sip_gateway.Prelude.Map
use megaco_sip_gateway.Prelude.{Bytes}
use megaco_sip_gateway.Bridge.State.{Ref}
use megaco_sip_gateway.Bridge.Invariant.LineLoss.{line_lost_ends_calls}
use megaco_sip_gateway.Bridge.Invariant.Released.{released_stays, now, next}
use megaco_sip_gateway.Tests.Data.{add_message, fresh, mgc, calm, after_add, run}

-- The line of a call is lost.
abbrev after_loss : Bridge
after_loss = (handle_h248_unavailable calm after_add).1

ended : (after_loss.next_ref ≡ 1) × ((after_loss.cell 0).released ≡ true)
unfolding ◌>>=◌ ◌>>◌ pure gets modify when for_each change read send allocate_call_identifiers
    take_down release_call send_initial_onhook new_bridge awaiting_add add_for handle_h248 line_up
    handle_h248_ready is_incoming_call_add new_added register_context with_h248_relay rings
    start_added incoming handle_incoming_call_add has once line_calls lose_line tear_down
    handle_h248_unavailable send_sip_teardown open_relay parse_media_description
    extract_remote_media to_upper equal_fold is_word plus capture_plus equals replace_all atoi
    insert is_space is_name_char balanced_end default_config
ended = (refl, refl)

line_lost_ends_calls_example :
    (after_loss.line.ready ≡ false)
    × ((k : Bytes) (r : Ref)
        → Map.lookup k after_add.calls_by_h248 ≡ some r
        → (after_loss.cell r).released ≡ true)
    × ((r : Ref) → after_add.outbound_call ≡ some r → (after_loss.cell r).released ≡ true)
    × ((k : Bytes) → Map.lookup k after_loss.calls_by_h248 ≡ none)
    × (after_loss.outbound_call ≡ none)
line_lost_ends_calls_example = line_lost_ends_calls calm after_add run

-- A second later
abbrev later : Bridge
later = advance 1_000_000_000 after_loss

released_stays_example :
    ((later.cell 0).released ≡ true)
    × ((k : Bytes) → ¬ (Map.lookup k later.calls_by_sip ≡ some 0))
    × ((k : Bytes) → ¬ (Map.lookup k later.calls_by_h248 ≡ some 0))
    × ¬ (later.outbound_call ≡ some 0)
released_stays_example =
    released_stays calm after_loss later (goes _ _ run (line_lost after_add))
      (next _ _ _ (now after_loss) (waits after_loss 1_000_000_000)) 0
      (let made = ended.0 in omega arith) ended.1

-- Nothing can be written.
abbrev cut_off : Env
cut_off = record calm { write_ok = λ wire o. false }

add_fails_example : HasNoMore fresh (handle_incoming_call_add cut_off add_message mgc fresh).1
add_fails_example = add_fails cut_off add_message mgc fresh (starts 3) (λ wire body. refl)
