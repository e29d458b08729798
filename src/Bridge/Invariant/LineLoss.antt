-- ===== src/Bridge/Invariant/LineLoss.antt =====
-- About `HandleH248Unavailable` of internal/bridge/h248.go: the calls of the lost line.
pub mod Teardown
pub mod Found
use megaco_sip_gateway.Prelude.{
  eq_refl, ℕ, ◌<◌, Bytes, Bool, true, false, ◌||◌, List, [], ◌∷◌, ◌++◌, Option, none, some, ◌≡◌,
  refl, arith, ◌==◌, Bool-cases, Option-cases, inl, inr, sym, if◌then◌else◌,
}
use megaco_sip_gateway.Prelude.Map
use megaco_sip_gateway.Prelude.Entries.{Entries, Entries-lookup, Entries-map, Entries-delete}
use megaco_sip_gateway.Bridge.Invariant.LineLoss.Teardown.{
  Facts, Untouched, read-Untouched, change-Untouched, teardown-Untouched,
}
use megaco_sip_gateway.Bridge.Invariant.LineLoss.Found.{
  IsOneOf, IsOneOf-known, without_ref-IsOneOf, has-line_calls, outbound-line_calls, Entries-refs_of,
}
use megaco_sip_gateway.Net.{UdpAddr}
use megaco_sip_gateway.Sip.Message.{Message}
use megaco_sip_gateway.Bridge.State.{
  ◌>>=◌, ◌>>◌, gets, when, done, pure, Ref, Call, LineState, Responder, SipRequest, Direction,
  h248_to_sip, sip_to_h248, Output, Task, Bridge, Env, M, for_each, update, change, send, schedule,
  modify, read,
}
use megaco_sip_gateway.Bridge.State.Keeps.{
  Keeps, Keeps-modify, Keeps-bind, Keeps-then, Keeps-when, Keeps-if, Keeps-gets, Keeps-for_some,
  Keeps-done, Keeps-pure, Keeps-for_each,
}
use megaco_sip_gateway.Bridge.Line.{take_down, release_call, without_ref}
use megaco_sip_gateway.Bridge.Response.{
  originated_response, send_sip_originated_response, fail_sip_originated_call,
}
use megaco_sip_gateway.Bridge.Teardown.{
  retain_sip_invite, send_by_server, bye_to_caller, end_originated, teardown_to, send_sip_teardown,
}
use megaco_sip_gateway.Bridge.Carrier.{
  has, once, refs_of, line_calls, lose_line, tear_down, handle_h248_unavailable,
}
use megaco_sip_gateway.Bridge.Run.{Reach}
use megaco_sip_gateway.Bridge.Invariant.Registry.{
  IsConsistent-Invariant, reach-IsConsistent, outbound-known,
}
use megaco_sip_gateway.Bridge.Invariant.Past.{Past, Past-Invariant}
use megaco_sip_gateway.Bridge.Invariant.Basics.{Kept}
use megaco_sip_gateway.Bridge.Invariant.{AllBelow}
use megaco_sip_gateway.Bridge.Invariant.Consistent.{IsConsistent, IsContextEntry}
use megaco_sip_gateway.Bridge.Invariant.Released.{IsOver, IsOver-Invariant}
use megaco_sip_gateway.Bridge.Invariant.Carrier.{
  tear_down-Keeps, line_calls-AllBelow, lose_line-Keeps,
}

-- The line is not ready, and its calls are of the list.
record IsLost (l : List Ref) (line : LineState) (contexts : List (Bytes × Ref))
    (outbound : Option Ref) : Type 0 where
  not_ready : line.ready ≡ false
  by_context : Entries (λ k r. has r l ≡ true) contexts
  one_of : IsOneOf l outbound

tear_down-IsLost :
    (env : Env) (l : List Ref) (r : Ref) → Keeps (Untouched (IsLost l)) (tear_down env r)
unfolding tear_down release_call take_down
tear_down-IsLost env l r = Keeps-then (teardown-Untouched env (IsLost l) r) (
    Keeps-bind (read-Untouched env (IsLost l) r _) (λ over. Keeps-when _ (
      Keeps-then
        (Keeps-modify _ (λ b h. record {
          not_ready = h.not_ready;
          by_context = Entries-delete _ _ _ (λ k j other is. is) _ h.by_context;
          one_of = without_ref-IsOneOf l b.outbound_call r h.one_of;
        }))
        (change-Untouched env (IsLost l) r _))))

lose_line-IsLost : (b : Bridge) → Untouched (IsLost (line_calls b)) (lose_line b)
unfolding lose_line
lose_line-IsLost b = record {
  not_ready = refl;
  by_context = Entries-refs_of _ _ (has-line_calls b);
  one_of = outbound-line_calls b;
}

-- What the release of one call, and of a list of calls, ends in

release_call-released : (r : Ref) (b : Bridge) → ((release_call r b).1.cell r).released ≡ true
unfolding release_call take_down change update ◌>>=◌ ◌>>◌ read gets when modify pure
release_call-released r b = elim (Bool-cases (b.cell r).released) [
  | inl over ↦ rw over over
  | inr alive ↦ rw alive (rw (eq_refl r) refl)
]

-- The invariants and a bound of the references
kept-Past : (env : Env) (n : ℕ) → Kept env n (Past n IsConsistent)
kept-Past env n = record { laws = Past-Invariant (IsConsistent-Invariant env) n; past = λ b h. h.1 }

kept-IsOver : (env : Env) (r : Ref) → Kept env 0 (IsOver r)
kept-IsOver env r = record { laws = IsOver-Invariant env r; past = λ b h. omega arith }

tear_down-IsOver :
    (env : Env) (r : Ref) (n : ℕ) (b : Bridge)
    → r < n
    → Past n IsConsistent b
    → IsOver r (tear_down env r b).1
unfolding tear_down ◌>>◌
tear_down-IsOver env r n b lt h =
    let after = (tear_down-Keeps (kept-Past env n) r).at b h in
    record {
      consistent = after.0;
      made = let le = after.1 in omega arith;
      released = release_call-released r (send_sip_teardown env r b).1;
    }

all-IsOver :
    (env : Env) (n : ℕ) (l : List Ref)
    → AllBelow n l
    → (b : Bridge) → Past n IsConsistent b
    → (r : Ref) → has r l ≡ true
    → IsOver r (for_each l (tear_down env) b).1
unfolding for_each AllBelow has ◌>>◌
all-IsOver env n [] all b h r e = absurd (ground arith)
all-IsOver env n (j ∷ rest) (lt, all) b h r e = elim (Bool-cases (j == r)) [
  | inl is ↦
      let same : j ≡ r = ground arith in
      (Keeps-for_each rest (tear_down-Keeps (kept-IsOver env r))).at (tear_down env j b).1
        (rw (sym same) (tear_down-IsOver env j n b lt h))
  | inr other ↦
      all-IsOver env n rest all (tear_down env j b).1 ((tear_down-Keeps (kept-Past env n) j).at b h)
        r (ground arith)
]

-- Every call of the line has been made.
known_calls : (env : Env) (b : Bridge) → IsConsistent b → AllBelow b.next_ref (line_calls b)
known_calls env b h = line_calls-AllBelow (kept-Past env b.next_ref) b (h, omega arith)

all-IsLost :
    (env : Env) (l m : List Ref) (b : Bridge)
    → Untouched (IsLost l) b
    → Untouched (IsLost l) (for_each m (tear_down env) b).1
all-IsLost env l m b h =
    (Keeps-for_each {P = Untouched (IsLost l)} m (λ r. tear_down-IsLost env l r)).at b h

no_entry :
    (l : List Ref) (b : Bridge)
    → Untouched (IsLost l) b
    → IsConsistent b
    → ((r : Ref) → has r l ≡ true → IsOver r b)
    → (k : Bytes) → Map.lookup k b.calls_by_h248 ≡ none
unfolding IsContextEntry
no_entry l b lost h over k = elim (Option-cases (Map.lookup k b.calls_by_h248)) [
  | inl e ↦ e
  | inr (r, e) ↦
      let gone = (over r (Entries-lookup _ _ lost.by_context k r e)).released in
      let alive = (Entries-lookup _ _ h.by_context k r e).1 in absurd (ground arith)
]

no_outbound :
    (l : List Ref) (b : Bridge)
    → Untouched (IsLost l) b
    → IsConsistent b
    → ((r : Ref) → has r l ≡ true → IsOver r b)
    → b.outbound_call ≡ none
no_outbound l b lost h over = elim (Option-cases b.outbound_call) [
  | inl e ↦ e
  | inr (r, e) ↦
      let gone = (over r (IsOneOf-known l b.outbound_call lost.one_of r e)).released in
      let alive = (outbound-known _ b.cell b.outbound_call h.outbound r e).1 in
      absurd (ground arith)
]

-- In a state that a run reaches, the loss of the line leaves no call of the carrier: the line is
-- not ready, every call that a context or the outbound call led to is released, no context leads
-- to a call, and there is no outbound call.
pub line_lost_ends_calls :
    (env : Env) (b : Bridge)
    → Reach env b
    → ((handle_h248_unavailable env b).1.line.ready ≡ false)
      × ((k : Bytes) (r : Ref)
          → Map.lookup k b.calls_by_h248 ≡ some r
          → ((handle_h248_unavailable env b).1.cell r).released ≡ true)
      × ((r : Ref)
          → b.outbound_call ≡ some r
          → ((handle_h248_unavailable env b).1.cell r).released ≡ true)
      × ((k : Bytes) → Map.lookup k (handle_h248_unavailable env b).1.calls_by_h248 ≡ none)
      × ((handle_h248_unavailable env b).1.outbound_call ≡ none)
unfolding handle_h248_unavailable ◌>>=◌ ◌>>◌ gets modify
line_lost_ends_calls env b run =
    let start = reach-IsConsistent env b run in
    let calls = line_calls b in
    let lost = all-IsLost env calls calls (lose_line b) (lose_line-IsLost b) in
    let here = (lose_line-Keeps (kept-Past env b.next_ref)).at b (start, omega arith) in
    let over = all-IsOver env b.next_ref calls (known_calls env b start) (lose_line b) here in
    let after =
      (Keeps-for_each {P = Past b.next_ref IsConsistent} calls
          (λ r. tear_down-Keeps (kept-Past env b.next_ref) r)).at
        (lose_line b) here in
    (
      lost.not_ready,
      λ k r e.
          (over r (Entries-lookup _ _ (Entries-refs_of _ _ (has-line_calls b)) k r e)).released,
      λ r e. (over r (IsOneOf-known calls b.outbound_call (outbound-line_calls b) r e)).released,
      no_entry calls _ lost after.0 over,
      no_outbound calls _ lost after.0 over,
    )
