-- ===== src/Bridge/Report.antt =====
-- What a report on the H.248 line does to the state: `sendCallLineEvent`, `sendOriginationOffhook`
-- and `sendOriginationDigits` of internal/bridge/h248.go have this part in common.
use megaco_sip_gateway.Prelude.{
  eq_refl, Bytes, lit, Bool, true, false, [], ◌∷◌, some, if◌then◌else◌, ◌≡◌, refl, ◌⊎◌, inl, inr,
  Bool-cases, arith, ◌==◌,
}
use megaco_sip_gateway.Net.{UdpAddr}
use megaco_sip_gateway.H248.Interop.Notify.{Notify, digit_map_event}
use megaco_sip_gateway.Prelude.Decimal.{itoa}
use megaco_sip_gateway.Bridge.Ports.{next_uint64}
use megaco_sip_gateway.Bridge.State.{
  Ref, Call, Responder, Phase, initial_onhook, origination_offhook, origination_digits, answer,
  onhook, h248_notify, Bridge, Env, send, change, when, ◌>>=◌, ◌>>◌, pure, gets, modify, read,
  update,
}
use megaco_sip_gateway.Bridge.Line.{
  line_event_to, mark_reported, notify_of, new_h248_transaction_id, add_pending, drop_pending,
}
use megaco_sip_gateway.Bridge.Origination.{
  report_offhook, report_digits, taken_off_hook, back_on_hook, dialled, undialled,
}

-- The phases that are reported once in a call, and their flags
unfoldable pub one_shot : Phase → Bool
one_shot onhook = true
one_shot origination_offhook = true
one_shot origination_digits = true
one_shot answer = false
one_shot initial_onhook = false

unfoldable pub flag : Phase → Call → Bool
flag onhook c = c.h248_onhook_sent
flag origination_offhook c = c.h248_offhook_sent
flag origination_digits c = c.h248_digits_sent
flag answer c = false
flag initial_onhook c = false

unfoldable pub same_phase : Phase → Phase → Bool
same_phase onhook onhook = true
same_phase origination_offhook origination_offhook = true
same_phase origination_digits origination_digits = true
same_phase answer answer = true
same_phase initial_onhook initial_onhook = true
same_phase _ _ = false

-- A write to a call that sets the flag of `phase` to `v` and leaves its keys, direction and end
pub record IsMark (phase : Phase) (v : Bool) (f : Call → Call) : Type 0 where
  pub sip_call_id : (c : Call) → (f c).sip_call_id ≡ c.sip_call_id
  pub h248_context_id : (c : Call) → (f c).h248_context_id ≡ c.h248_context_id
  pub direction : (c : Call) → (f c).direction ≡ c.direction
  pub released : (c : Call) → (f c).released ≡ c.released
  pub flags :
      (p : Phase)
      → one_shot p ≡ true
      → (c : Call) → flag p (f c) ≡ (if same_phase phase p then v else flag p c)

-- From `b` to `b'` the call `r` is reported, or the report cannot be sent and is taken back.
pub record IsReport (r : Ref) (phase : Phase) (b b' : Bridge) : Type 0 where
  pub mark : Call → Call
  pub unmark : Call → Call
  pub to : UdpAddr
  pub text : Notify
  pub marks : IsMark phase true mark
  pub unmarks : IsMark phase false unmark
  pub next_ref : b'.next_ref ≡ b.next_ref
  pub calls_by_sip : b'.calls_by_sip ≡ b.calls_by_sip
  pub calls_by_h248 : b'.calls_by_h248 ≡ b.calls_by_h248
  pub outbound_call : b'.outbound_call ≡ b.outbound_call
  pub timers : b'.timers ≡ b.timers
  pub others : (j : Ref) → (j == r) ≡ false → b'.cell j ≡ b.cell j
  pub outcome :
      ((b'.cell r ≡ mark (b.cell r))
        × (b'.wire ≡ (h248_notify to (some r) phase text, true) ∷ b.wire))
      ⊎ ((b'.cell r ≡ unmark (mark (b.cell r)))
          × (b'.wire ≡ (h248_notify to (some r) phase text, false) ∷ b.wire))

-- The phases of `sendCallLineEvent`
unfoldable pub is_line_phase : Phase → Bool
is_line_phase onhook = true
is_line_phase answer = true
is_line_phase _ = false

mark_reported-IsMark :
    (phase : Phase)
    → is_line_phase phase ≡ true
    → (v : Bool) → IsMark phase v (mark_reported phase v)
unfolding mark_reported is_line_phase flag one_shot same_phase
mark_reported-IsMark phase line v = record {
  sip_call_id = λ c. ground arith;
  h248_context_id = λ c. ground arith;
  direction = λ c. ground arith;
  released = λ c. ground arith;
  flags = λ p is c. ground arith;
}

taken_off_hook-IsMark :
    (id : Bytes) (to : Responder) → IsMark origination_offhook true (taken_off_hook id to)
unfolding taken_off_hook flag one_shot same_phase
taken_off_hook-IsMark id to = record {
  sip_call_id = λ c. refl;
  h248_context_id = λ c. refl;
  direction = λ c. refl;
  released = λ c. refl;
  flags = λ p is c. ground arith;
}

back_on_hook-IsMark : IsMark origination_offhook false back_on_hook
unfolding back_on_hook flag one_shot same_phase
back_on_hook-IsMark = record {
  sip_call_id = λ c. refl;
  h248_context_id = λ c. refl;
  direction = λ c. refl;
  released = λ c. refl;
  flags = λ p is c. ground arith;
}

dialled-IsMark : IsMark origination_digits true dialled
unfolding dialled flag one_shot same_phase
dialled-IsMark = record {
  sip_call_id = λ c. refl;
  h248_context_id = λ c. refl;
  direction = λ c. refl;
  released = λ c. refl;
  flags = λ p is c. ground arith;
}

undialled-IsMark : IsMark origination_digits false undialled
unfolding undialled flag one_shot same_phase
undialled-IsMark = record {
  sip_call_id = λ c. refl;
  h248_context_id = λ c. refl;
  direction = λ c. refl;
  released = λ c. refl;
  flags = λ p is c. ground arith;
}

pub line_event_to-IsReport :
    (env : Env) (r : Ref) (event : Bytes) (phase : Phase)
    → is_line_phase phase ≡ true
    → (to : Responder) (b : Bridge) → IsReport r phase b (line_event_to env r event phase to b).1
unfolding line_event_to new_h248_transaction_id add_pending drop_pending send change when ◌>>=◌ ◌>>◌
    pure gets modify read update
line_event_to-IsReport env r event phase line to b =
    let c : Call = update b.cell r (mark_reported phase true (b.cell r)) r in
    let text : Notify =
      notify_of env (itoa (next_uint64 b.next_h248_tid))
        (if c.h248_context_allocated then c.h248_context_id else b'-' ∷ []) c.h248_physical_term
        c.h248_event_request_id b.clock event in
    record {
      mark = mark_reported phase true;
      unmark = mark_reported phase false;
      to = to.remote;
      text = text;
      marks = mark_reported-IsMark phase line true;
      unmarks = mark_reported-IsMark phase line false;
      next_ref = ground (arith, eq_refl r);
      calls_by_sip = ground (arith, eq_refl r);
      calls_by_h248 = ground (arith, eq_refl r);
      outbound_call = ground (arith, eq_refl r);
      timers = ground (arith, eq_refl r);
      others = λ j e. ground (arith, eq_refl r);
      outcome =
          elim (Bool-cases (env.write_ok b.wire (h248_notify to.remote (some r) phase text))) [
            | inl e ↦ inl (ground (arith, eq_refl r), ground (arith, eq_refl r))
            | inr e ↦ inr (ground (arith, eq_refl r), ground (arith, eq_refl r))
          ];
    }

pub report_offhook-IsReport :
    (env : Env) (r : Ref) (request_id : Bytes) (to : Responder) (b : Bridge)
    → IsReport r origination_offhook b (report_offhook env r request_id to b).1
unfolding report_offhook new_h248_transaction_id add_pending drop_pending send change when ◌>>=◌
    ◌>>◌ pure gets modify read update
report_offhook-IsReport env r request_id to b =
    let text : Notify =
      notify_of env (itoa (next_uint64 b.next_h248_tid)) (b'-' ∷ [])
        env.cfg.h248.physical_termination request_id b.clock (lit "al/of") in
    record {
      mark = taken_off_hook request_id to;
      unmark = back_on_hook;
      to = to.remote;
      text = text;
      marks = taken_off_hook-IsMark request_id to;
      unmarks = back_on_hook-IsMark;
      next_ref = ground (arith, eq_refl r);
      calls_by_sip = ground (arith, eq_refl r);
      calls_by_h248 = ground (arith, eq_refl r);
      outbound_call = ground (arith, eq_refl r);
      timers = ground (arith, eq_refl r);
      others = λ j e. ground (arith, eq_refl r);
      outcome =
          elim (Bool-cases
            (env.write_ok b.wire (h248_notify to.remote (some r) origination_offhook text))) [
              | inl e ↦ inl (ground (arith, eq_refl r), ground (arith, eq_refl r))
              | inr e ↦ inr (ground (arith, eq_refl r), ground (arith, eq_refl r))
            ];
    }

pub report_digits-IsReport :
    (env : Env) (r : Ref) (c : Call) (to : Responder) (b : Bridge)
    → IsReport r origination_digits b (report_digits env r c to b).1
unfolding report_digits new_h248_transaction_id add_pending drop_pending send change when ◌>>=◌ ◌>>◌
    pure gets modify read update
report_digits-IsReport env r c to b =
    let text : Notify =
      notify_of env (itoa (next_uint64 b.next_h248_tid)) (b'-' ∷ [])
        env.cfg.h248.physical_termination c.h248_event_request_id b.clock
        (digit_map_event c.destination_number) in
    record {
      mark = dialled;
      unmark = undialled;
      to = to.remote;
      text = text;
      marks = dialled-IsMark;
      unmarks = undialled-IsMark;
      next_ref = ground (arith, eq_refl r);
      calls_by_sip = ground (arith, eq_refl r);
      calls_by_h248 = ground (arith, eq_refl r);
      outbound_call = ground (arith, eq_refl r);
      timers = ground (arith, eq_refl r);
      others = λ j e. ground (arith, eq_refl r);
      outcome =
          elim (Bool-cases
            (env.write_ok b.wire (h248_notify to.remote (some r) origination_digits text))) [
              | inl e ↦ inl (ground (arith, eq_refl r), ground (arith, eq_refl r))
              | inr e ↦ inr (ground (arith, eq_refl r), ground (arith, eq_refl r))
            ];
    }
