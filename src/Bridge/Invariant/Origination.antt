-- ===== src/Bridge/Invariant/Origination.antt =====
-- The reports of an origination: an invariant is kept by the functions of Bridge/Origination.antt.
use megaco_sip_gateway.Prelude.{
  inl, inr, Bool-cases, ℕ, ◌<◌, Bytes, false, not, ◌||◌, is_empty, Option, none, some, ◌≡◌, arith,
}
use megaco_sip_gateway.Bridge.State.{
  LineState, Ref, Call, Responder, Bridge, Env, ◌>>=◌, gets, change, read,
}
use megaco_sip_gateway.Bridge.State.Keeps.{Keeps, Keeps-bind, Keeps-when, Keeps-then, Keeps-gets}
use megaco_sip_gateway.Bridge.Invariant.{IsBelow}
use megaco_sip_gateway.Bridge.Invariant.Basics.{
  Kept, Keeps-read, Keeps-read_if, Keeps-change, Keeps-schedule,
}
use megaco_sip_gateway.Bridge.Origination.{
  schedule_origination_offhook, offhook_to, offhook_by, send_origination_offhook,
  schedule_origination_digits, digits_to, digits_by, unscheduled, send_origination_digits,
}
use megaco_sip_gateway.Bridge.Report.{flag, report_offhook-IsReport, report_digits-IsReport}
use megaco_sip_gateway.Bridge.Invariant.Ends.{fail_and_release-Keeps}

offhook_free :
    (c : Call) (line : LineState)
    → (c.released
        || c.h248_offhook_sent
        || not line.ready
        || not line.initial_onhook_sent
        || is_empty line.event_request_id)
      ≡ false
    → c.h248_offhook_sent ≡ false
offhook_free c line e = ground arith

digits_free :
    (c : Call)
    → (c.released || c.h248_digits_sent || is_empty c.h248_event_request_id) ≡ false
    → c.h248_digits_sent ≡ false
digits_free c e = ground arith

module _ {env : Env} {n : ℕ} {P : Bridge → Type 0} (kept : Kept env n P) where
  pub schedule_origination_offhook-Keeps :
      (r : Ref) → r < n → Keeps P (schedule_origination_offhook env r)
  unfolding schedule_origination_offhook IsBelow
  schedule_origination_offhook-Keeps r lt = Keeps-bind (Keeps-read r _) (λ c.
      Keeps-bind (Keeps-gets _)
        (λ line. Keeps-bind (Keeps-gets _) (λ now. Keeps-when _ (Keeps-schedule kept _ _ lt))))

  pub schedule_origination_digits-Keeps :
      (r : Ref) → r < n → Keeps P (schedule_origination_digits env r)
  unfolding schedule_origination_digits IsBelow
  schedule_origination_digits-Keeps r lt =
      Keeps-bind (Keeps-read r _)
        (λ c. Keeps-when _ (Keeps-then (Keeps-change kept r _ search) (Keeps-schedule kept _ _ lt)))

  offhook_by-at :
      (r : Ref)
      → r < n
      → (request_id : Bytes) (o : Option Responder) (b : Bridge)
      → (b.cell r).h248_offhook_sent ≡ false
      → P b
      → P (offhook_by env r request_id o b).1
  unfolding offhook_by offhook_to ◌>>=◌ flag
  offhook_by-at r lt request_id none b free h = (fail_and_release-Keeps kept r 503 _).at b h
  offhook_by-at r lt request_id (some to) b free h =
      let le = kept.past b h in
      let h1 =
        kept.laws.reports r _ b _ (omega arith) free (report_offhook-IsReport env r request_id to b)
          h in
      (Keeps-when _ (fail_and_release-Keeps kept r 503 _)).at _ h1

  pub send_origination_offhook-Keeps : (r : Ref) → r < n → Keeps P (send_origination_offhook env r)
  unfolding send_origination_offhook ◌>>=◌ gets read
  send_origination_offhook-Keeps r lt = record {
    at = λ b h.
        let c = b.cell r in
        let line = b.line in
        elim (Bool-cases (
          c.released
          || c.h248_offhook_sent
          || not line.ready
          || not line.initial_onhook_sent
          || is_empty line.event_request_id)) [
            | inl e ↦ rw e ((fail_and_release-Keeps kept r 503 _).at b h)
            | inr e ↦ rw e (offhook_by-at r lt _ _ b (offhook_free c line e) h)
          ];
  }

  digits_by-at :
      (r : Ref)
      → r < n
      → (c : Call) (o : Option Responder) (b : Bridge) → (b.cell r).h248_digits_sent ≡ false
      → P b
      → P (digits_by env r c o b).1
  unfolding digits_by digits_to ◌>>=◌ flag unscheduled
  digits_by-at r lt c none b free h = (Keeps-change kept r unscheduled search).at b h
  digits_by-at r lt c (some to) b free h =
      let le = kept.past b h in
      let h1 =
        kept.laws.reports r _ b _ (omega arith) free (report_digits-IsReport env r c to b) h in
      (Keeps-when _ (fail_and_release-Keeps kept r 503 _)).at _ h1

  pub send_origination_digits-Keeps : (r : Ref) → r < n → Keeps P (send_origination_digits env r)
  unfolding send_origination_digits unscheduled
  send_origination_digits-Keeps r lt =
      Keeps-read_if r (λ c. c.released || c.h248_digits_sent || is_empty c.h248_event_request_id)
        (λ c. change r unscheduled) (λ c. digits_by env r c c.h248_responder)
        (λ b h e. (Keeps-change kept r unscheduled search).at b h)
        (λ b h e. digits_by-at r lt (b.cell r) _ b (digits_free (b.cell r) e) h)
