-- ===== src/Bridge/Invariant/Once/Counting.antt =====
-- How often a report about a call has been sent on the H.248 line.
use megaco_sip_gateway.Prelude.{
  eq_refl, ℕ, ◌+◌, ◌<◌, ◌≤◌, Bool, true, false, ◌&&◌, List, [], ◌∷◌, none, some, ◌==◌,
  if◌then◌else◌, ◌≡◌, refl, sym, arith, Bool-cases, inl, inr,
}
use megaco_sip_gateway.Net.{UdpAddr}
use megaco_sip_gateway.H248.Interop.Notify.{Notify}
use megaco_sip_gateway.Bridge.State.{
  Ref, Call, Phase, Output, h248_reply, h248_notify, sip_reply, sip_send, Bridge, update,
}
use megaco_sip_gateway.Bridge.FromMgc.Add.{make_call}
use megaco_sip_gateway.Bridge.Report.{IsReport, one_shot, flag, same_phase}
use megaco_sip_gateway.Bridge.Invariant.{IsGentle, IsNew, is_ordinary}

-- Whether an output is a report of the phase about the call
unfoldable pub is_about : Phase → Ref → Output → Bool
is_about p r (h248_notify to (some j) phase text) = same_phase phase p && j == r
is_about p r (h248_notify to none phase text) = false
is_about p r (h248_reply to msg body) = false
is_about p r (sip_reply to response) = false
is_about p r (sip_send to request) = false

-- How many reports of the phase about the call have been sent
unfoldable pub reports_sent : Phase → Ref → List (Output × Bool) → ℕ
reports_sent p r [] = 0
reports_sent p r ((o, sent) ∷ rest) =
    let more = reports_sent p r rest in if sent && is_about p r o then 1 + more else more

abbrev pub as_count : Bool → ℕ
as_count true = 1
as_count false = 0

-- A phase that is reported once has been reported as often as its flag says, and not about a call
-- that is yet to be made.
pub record IsOnce (b : Bridge) : Type 0 where
  pub counted :
      (p : Phase)
      → one_shot p ≡ true
      → (r : Ref) → reports_sent p r b.wire ≡ as_count (flag p (b.cell r))
  pub unmade :
      (p : Phase) → one_shot p ≡ true → (r : Ref) → b.next_ref ≤ r → flag p (b.cell r) ≡ false

pub ordinary-is_about :
    (p : Phase) (r : Ref) (o : Output) → is_ordinary o ≡ true → is_about p r o ≡ false
unfolding is_about
ordinary-is_about p r o is = ground arith

-- What leaves the flags and the record of writes keeps the count.
pub same-IsOnce :
    (b b' : Bridge)
    → b.next_ref ≤ b'.next_ref
    → b'.wire ≡ b.wire
    → ((p : Phase) → one_shot p ≡ true → (r : Ref) → flag p (b'.cell r) ≡ flag p (b.cell r))
    → IsOnce b
    → IsOnce b'
same-IsOnce b b' le wire flags h = record {
  counted = λ p is r. rw wire (rw (flags p is r) (h.counted p is r));
  unmade = λ p is r past. rw (flags p is r) (h.unmade p is r (omega arith));
}

-- A write to one call that leaves its flags
pub update-flag :
    (cell : Ref → Call) (r : Ref) (c : Call) (p : Phase)
    → flag p c ≡ flag p (cell r)
    → (j : Ref) → flag p (update cell r c j) ≡ flag p (cell j)
unfolding update
update-flag cell r c p is j = elim (Bool-cases (j == r)) [
  | inl e ↦ let at_r : j ≡ r = ground arith in rw (at_r, eq_refl r) is
  | inr e ↦ rw e refl
]

pub gentle-flag : (f : Call → Call) → IsGentle f → (p : Phase) (c : Call) → flag p (f c) ≡ flag p c
unfolding flag
gentle-flag f is p c = ground (arith, is.onhook c, is.offhook c, is.digits c)

new-flag : (c : Call) → IsNew c → (p : Phase) → flag p c ≡ false
unfolding flag
new-flag c new p = ground (arith, new.onhook, new.offhook, new.digits)

pub make_call-IsOnce : (c : Call) → IsNew c → (b : Bridge) → IsOnce b → IsOnce (make_call c b)
unfolding make_call
make_call-IsOnce c new b h =
    same-IsOnce b _ (omega arith) refl
      (λ p is r.
        update-flag b.cell b.next_ref c p
          (rw (new-flag c new p) (sym (h.unmade p is b.next_ref (omega arith)))) r)
      h

same_phase-flag : (phase p : Phase) (c : Call) → same_phase phase p ≡ true → flag phase c ≡ flag p c
unfolding same_phase flag
same_phase-flag phase p c e = ground arith

-- The counts after a report, about its call and about another
sent-count :
    (p phase : Phase) (r : Ref) (to : UdpAddr) (text : Notify) (wire : List (Output × Bool))
    (c c' : Call)
    → reports_sent p r wire ≡ as_count (flag p c)
    → flag phase c ≡ false
    → flag p c' ≡ (if same_phase phase p then true else flag p c)
    → reports_sent p r ((h248_notify to (some r) phase text, true) ∷ wire) ≡ as_count (flag p c')
unfolding reports_sent is_about
sent-count p phase r to text wire c c' count free marked = elim (Bool-cases (same_phase phase p)) [
  | inl e ↦ let was = same_phase-flag phase p c e in ground (arith, eq_refl r)
  | inr e ↦ ground (arith, eq_refl r)
]

failed-count :
    (p phase : Phase) (c c' c'' : Call)
    → flag phase c ≡ false
    → flag p c' ≡ (if same_phase phase p then true else flag p c)
    → flag p c'' ≡ (if same_phase phase p then false else flag p c')
    → flag p c'' ≡ flag p c
failed-count p phase c c' c'' free marked unmarked = elim (Bool-cases (same_phase phase p)) [
  | inl e ↦ let was = same_phase-flag phase p c e in ground arith
  | inr e ↦ ground arith
]

other-count :
    (p phase : Phase) (r j : Ref) (to : UdpAddr) (text : Notify) (sent : Bool)
    (wire : List (Output × Bool))
    → (j == r) ≡ false
    → reports_sent p j ((h248_notify to (some r) phase text, sent) ∷ wire) ≡ reports_sent p j wire
unfolding reports_sent is_about
other-count p phase r j to text sent wire e =
    let back : (r == j) ≡ false = ground arith in ground arith

report-count :
    (r : Ref) (phase : Phase) (b b' : Bridge)
    → flag phase (b.cell r) ≡ false
    → IsReport r phase b b'
    → IsOnce b
    → (p : Phase) → one_shot p ≡ true
    → reports_sent p r b'.wire ≡ as_count (flag p (b'.cell r))
unfolding reports_sent
report-count r phase b b' free report h p is =
    let marked = report.marks.flags p is (b.cell r) in
    let unmarked = report.unmarks.flags p is (report.mark (b.cell r)) in
    elim report.outcome [
      | inl (cell, wire) ↦ rw wire (
          rw cell (
            sent-count p phase r report.to report.text b.wire (b.cell r) (report.mark (b.cell r))
              (h.counted p is r) free marked))
      | inr (cell, wire) ↦ rw wire (
          rw cell (
            rw
              (failed-count p phase (b.cell r) (report.mark (b.cell r))
                (report.unmark (report.mark (b.cell r))) free marked unmarked)
              (h.counted p is r)))
    ]

report-other :
    (r : Ref) (phase : Phase) (b b' : Bridge)
    → IsReport r phase b b'
    → (p : Phase) (j : Ref) → (j == r) ≡ false
    → reports_sent p j b'.wire ≡ reports_sent p j b.wire
report-other r phase b b' report p j e = elim report.outcome [
  | inl (cell, wire) ↦ rw wire (other-count p phase r j report.to report.text true b.wire e)
  | inr (cell, wire) ↦ rw wire (other-count p phase r j report.to report.text false b.wire e)
]

pub report-IsOnce :
    (r : Ref) (phase : Phase) (b b' : Bridge)
    → r < b.next_ref
    → flag phase (b.cell r) ≡ false
    → IsReport r phase b b'
    → IsOnce b
    → IsOnce b'
report-IsOnce r phase b b' lt free report h = record {
  counted = λ p is j. elim (Bool-cases (j == r)) [
    | inl e ↦
        let at_r : j ≡ r = ground arith in rw at_r (report-count r phase b b' free report h p is)
    | inr e ↦
        rw (report-other r phase b b' report p j e) (rw (report.others j e) (h.counted p is j))
  ];
  unmade = λ p is j past.
      let le = report.next_ref in
      let other : (j == r) ≡ false = ground arith in
      rw (report.others j other) (h.unmade p is j (omega arith));
}
