-- ===== src/Bridge/Invariant/Consistent.antt =====
-- The maps of calls and the outbound call, compared with the calls.
use megaco_sip_gateway.Prelude.{
  ℕ, zero, suc, ◌<◌, ◌≤◌, Bytes, is_empty, same_iff, true, false, List, [], ◌∷◌, Option, none, some,
  ◌==◌, if◌then◌else◌, ◌≡◌, refl, arith, Bool-cases, inl, inr, get_elem?, sym,
}
use megaco_sip_gateway.Prelude.Map
use megaco_sip_gateway.Prelude.Entries.{Entries, Entries-map, Entries-delete}
use megaco_sip_gateway.Bridge.State.{
  released_state, Ref, Call, sip_to_h248, Task, Phase, Bridge, update,
}
use megaco_sip_gateway.Bridge.Line.{take_down, without_ref}
use megaco_sip_gateway.Bridge.Carrier.{refs_of}
use megaco_sip_gateway.Bridge.Report.{IsReport}
use megaco_sip_gateway.Bridge.Run.{without_timer}
use megaco_sip_gateway.Bridge.Invariant.{AllBelow, IsBelow, IsBelow-mono}

-- The call that a Call-ID leads to is there, not released, and has this Call-ID.
unfoldable pub IsSipEntry : ℕ → (Ref → Call) → Bytes → Ref → Type 0
IsSipEntry n cell k r =
    (r < n) × ((cell r).released ≡ false) × ((cell r).sip_call_id ≡ k) × (is_empty k ≡ false)

-- The call that a context leads to is there, not released, and has this context.
unfoldable pub IsContextEntry : ℕ → (Ref → Call) → Bytes → Ref → Type 0
IsContextEntry n cell k r = (r < n) × ((cell r).released ≡ false) × ((cell r).h248_context_id ≡ k)

-- The outbound call is there, not released, and comes from the PBX.
unfoldable pub IsOutbound : ℕ → (Ref → Call) → Option Ref → Type 0
IsOutbound n cell none = Unit {0}
IsOutbound n cell (some r) =
    (r < n) × ((cell r).released ≡ false) × ((cell r).direction ≡ sip_to_h248)

unfoldable pub TasksBelow : ℕ → List (ℕ × Task) → Type 0
TasksBelow n [] = Unit {0}
TasksBelow n ((at_, task) ∷ rest) = IsBelow n task × TasksBelow n rest

pub record IsConsistent (b : Bridge) : Type 0 where
  pub by_call_id : Entries (IsSipEntry b.next_ref b.cell) b.calls_by_sip
  pub by_context : Entries (IsContextEntry b.next_ref b.cell) b.calls_by_h248
  pub outbound : IsOutbound b.next_ref b.cell b.outbound_call
  pub tasks : TasksBelow b.next_ref b.timers

pub refs_of-AllBelow :
    (n : ℕ) (cell : Ref → Call) (m : List (Bytes × Ref))
    → Entries (IsContextEntry n cell) m
    → AllBelow n (refs_of m)
unfolding Entries AllBelow IsContextEntry
refs_of-AllBelow n cell [] all = tt
refs_of-AllBelow n cell ((k, r) ∷ rest) ((lt, alive, key), all) =
    (lt, refs_of-AllBelow n cell rest all)

pub TasksBelow-get :
    (n : ℕ) (l : List (ℕ × Task))
    → TasksBelow n l
    → (i at_ : ℕ) (task : Task) → get_elem? l i ≡ some (at_, task)
    → IsBelow n task
unfolding TasksBelow
TasksBelow-get n [] all i at_ task e = absurd (ground arith)
TasksBelow-get n ((a, t) ∷ rest) (good, all) zero at_ task e =
    let same_task : t ≡ task = ground arith in rw (sym same_task) good
TasksBelow-get n ((a, t) ∷ rest) (good, all) (suc i) at_ task e =
    TasksBelow-get n rest all i at_ task e

pub TasksBelow-without :
    (n : ℕ) (i : ℕ) (l : List (ℕ × Task)) → TasksBelow n l → TasksBelow n (without_timer i l)
unfolding TasksBelow without_timer
TasksBelow-without n i [] all = tt
TasksBelow-without n zero (t ∷ rest) (good, all) = all
TasksBelow-without n (suc i) ((a, t) ∷ rest) (good, all) = (good, TasksBelow-without n i rest all)

pub TasksBelow-mono : (n m : ℕ) → n ≤ m → (l : List (ℕ × Task)) → TasksBelow n l → TasksBelow m l
unfolding TasksBelow
TasksBelow-mono n m le [] all = tt
TasksBelow-mono n m le ((a, t) ∷ rest) (good, all) =
    (IsBelow-mono t good le, TasksBelow-mono n m le rest all)

-- The cells of `b'` say the same of a call as those of `b`.
pub record Agrees (cell cell' : Ref → Call) (r : Ref) : Type 0 where
  pub released : (cell' r).released ≡ (cell r).released
  pub sip_call_id : (cell' r).sip_call_id ≡ (cell r).sip_call_id
  pub context : (cell' r).h248_context_id ≡ (cell r).h248_context_id
  pub direction : (cell' r).direction ≡ (cell r).direction

pub Agrees-IsOutbound :
    (n m : ℕ) (cell cell' : Ref → Call)
    → n ≤ m
    → ((r : Ref) → r < n → Agrees cell cell' r)
    → (o : Option Ref) → IsOutbound n cell o
    → IsOutbound m cell' o
unfolding IsOutbound
Agrees-IsOutbound n m cell cell' le f none h = tt
Agrees-IsOutbound n m cell cell' le f (some r) (lt, alive, from) =
    let a = f r lt in (omega arith, rw a.released alive, rw a.direction from)

-- What changes neither the maps nor what they say of the calls keeps them consistent.
pub Agrees-IsConsistent :
    (b b' : Bridge)
    → b.next_ref ≤ b'.next_ref
    → ((r : Ref) → r < b.next_ref → Agrees b.cell b'.cell r)
    → b'.calls_by_sip ≡ b.calls_by_sip
    → b'.calls_by_h248 ≡ b.calls_by_h248
    → b'.outbound_call ≡ b.outbound_call
    → b'.timers ≡ b.timers
    → IsConsistent b
    → IsConsistent b'
unfolding IsSipEntry IsContextEntry
Agrees-IsConsistent b b' le f sip h248 out timers h = record {
  by_call_id = rw sip (
      Entries-map _ _
        (λ k r (lt, alive, key, there).
          let a = f r lt in (omega arith, rw a.released alive, rw a.sip_call_id key, there))
        _ h.by_call_id);
  by_context = rw h248 (
      Entries-map _ _
        (λ k r (lt, alive, key).
          let a = f r lt in (omega arith, rw a.released alive, rw a.context key))
        _ h.by_context);
  outbound = rw out (Agrees-IsOutbound _ _ b.cell b'.cell le f _ h.outbound);
  tasks = rw timers (TasksBelow-mono _ _ le _ h.tasks);
}

-- A write to a call that leaves what the maps say of it
pub change-Agrees :
    (cell : Ref → Call) (r : Ref) (c : Call)
    → c.released ≡ (cell r).released
    → c.sip_call_id ≡ (cell r).sip_call_id
    → c.h248_context_id ≡ (cell r).h248_context_id
    → c.direction ≡ (cell r).direction
    → (j : Ref) → Agrees cell (update cell r c) j
unfolding update
change-Agrees cell r c released sip context direction j = record {
  released = ground arith;
  sip_call_id = ground arith;
  context = ground arith;
  direction = ground arith;
}

report-Agrees_at :
    (r : Ref) (phase : Phase) (b b' : Bridge) → IsReport r phase b b' → Agrees b.cell b'.cell r
report-Agrees_at r phase b b' report = elim report.outcome [
  | inl (e, wire) ↦ record {
    released = rw e (report.marks.released _);
    sip_call_id = rw e (report.marks.sip_call_id _);
    context = rw e (report.marks.h248_context_id _);
    direction = rw e (report.marks.direction _);
  }
  | inr (e, wire) ↦ record {
    released = rw e (rw (report.unmarks.released _) (report.marks.released _));
    sip_call_id = rw e (rw (report.unmarks.sip_call_id _) (report.marks.sip_call_id _));
    context = rw e (rw (report.unmarks.h248_context_id _) (report.marks.h248_context_id _));
    direction = rw e (rw (report.unmarks.direction _) (report.marks.direction _));
  }
]

pub report-Agrees :
    (r : Ref) (phase : Phase) (b b' : Bridge)
    → IsReport r phase b b'
    → (j : Ref) → Agrees b.cell b'.cell j
report-Agrees r phase b b' report j = elim (Bool-cases (j == r)) [
  | inl e ↦ let is : j ≡ r = ground arith in rw is (report-Agrees_at r phase b b' report)
  | inr e ↦
      let same_cell = report.others j e in
      record {
        released = rw same_cell refl;
        sip_call_id = rw same_cell refl;
        context = rw same_cell refl;
        direction = rw same_cell refl;
      }
]

take_down-sip :
    (n : ℕ) (cell : Ref → Call) (r : Ref) (m : List (Bytes × Ref))
    → Entries (IsSipEntry n cell) m
    → Entries
        (IsSipEntry n (update cell r (record (cell r) { released = true; state = released_state })))
        (if is_empty (cell r).sip_call_id then m else Map.delete (cell r).sip_call_id m)
unfolding update IsSipEntry
take_down-sip n cell r m all = elim (Bool-cases (is_empty (cell r).sip_call_id)) [
  | inl e ↦ rw e (
      Entries-map _ _ (λ k j (lt, alive, key, there). (lt, ground arith, ground arith, there)) m
        all)
  | inr e ↦ rw e (
      Entries-delete _ _ _
        (λ k j other (lt, alive, key, there).
          (lt, ground (arith, same_iff k (cell r).sip_call_id), ground arith, there))
        m all)
]

take_down-outbound :
    (n : ℕ) (cell : Ref → Call) (r : Ref) (o : Option Ref)
    → IsOutbound n cell o
    → IsOutbound n
        (update cell r (record (cell r) { released = true; state = released_state }))
        (without_ref o r)
unfolding update IsOutbound
take_down-outbound n cell r none h = tt
take_down-outbound n cell r (some j) (lt, alive, from) = elim (Bool-cases (j == r)) [
  | inl e ↦ rw e tt
  | inr e ↦ rw e (lt, ground arith, ground arith)
]

pub take_down-IsConsistent : (r : Ref) (b : Bridge) → IsConsistent b → IsConsistent (take_down r b)
unfolding take_down update IsContextEntry
take_down-IsConsistent r b h = record {
  by_call_id = take_down-sip b.next_ref b.cell r b.calls_by_sip h.by_call_id;
  by_context =
      Entries-delete _ _ _
        (λ k j other (lt, alive, key).
          (lt, ground (arith, same_iff k (b.cell r).h248_context_id), ground arith))
        _ h.by_context;
  outbound = take_down-outbound b.next_ref b.cell r b.outbound_call h.outbound;
  tasks = h.tasks;
}
