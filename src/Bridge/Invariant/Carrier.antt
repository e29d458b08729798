-- ===== src/Bridge/Invariant/Carrier.antt =====
-- The end of calls by the carrier: an invariant is kept by the functions of Bridge/Carrier.antt.
use megaco_sip_gateway.Prelude.{
  inl, inr, Bool-cases, Option-cases, ℕ, ◌<◌, Bool, true, false, List, [], ◌∷◌, if◌then◌else◌, ◌++◌,
}
use megaco_sip_gateway.Bridge.State.{Ref, Bridge, Env, modify}
use megaco_sip_gateway.Bridge.State.Keeps.{Keeps, Keeps-bind, Keeps-when, Keeps-then}
use megaco_sip_gateway.Bridge.Invariant.Basics.{Kept, Keeps-read, Keeps-aside, Keeps-change}
use megaco_sip_gateway.Bridge.Carrier.{
  in_null_context, handle_carrier_release, refs_of, release_all_calls_from_carrier, has, once,
  line_calls, lose_line, tear_down, handle_h248_unavailable,
}
use megaco_sip_gateway.Bridge.Invariant.{AllBelow}
use megaco_sip_gateway.Bridge.Invariant.Basics.{Keeps-for_each_ref, Keeps-found_refs}
use megaco_sip_gateway.Bridge.Invariant.Ends.{release_call-Keeps, report_onhook-Keeps}
use megaco_sip_gateway.Bridge.Invariant.Requests.{send_sip_teardown-Keeps}

once-AllBelow : (n : ℕ) (l : List Ref) → AllBelow n l → AllBelow n (once l)
unfolding once AllBelow
once-AllBelow n [] all = tt
once-AllBelow n (r ∷ rest) (lt, all) = elim (Bool-cases (has r (once rest))) [
  | inl e ↦ rw e (once-AllBelow n rest all)
  | inr e ↦ rw e (lt, once-AllBelow n rest all)
]

append-AllBelow :
    (n : ℕ) (l : List Ref) (r : Ref) → AllBelow n l → r < n → AllBelow n (l ++ (r ∷ []))
unfolding AllBelow
append-AllBelow n [] r all lt = (lt, tt)
append-AllBelow n (j ∷ rest) r (lj, all) lt = (lj, append-AllBelow n rest r all lt)

if_AllBelow :
    (n : ℕ) (test : Bool) (l m : List Ref)
    → AllBelow n l
    → AllBelow n m
    → AllBelow n (if test then l else m)
if_AllBelow n true l m al am = al
if_AllBelow n false l m al am = am

module _ {env : Env} {n : ℕ} {P : Bridge → Type 0} (kept : Kept env n P) where
  pub handle_carrier_release-Keeps :
      (r : Ref)
      → r < n
      → (context_released : Bool) → Keeps P (handle_carrier_release env r context_released)
  unfolding handle_carrier_release in_null_context
  handle_carrier_release-Keeps r lt context_released = Keeps-bind (Keeps-read r _) (λ c.
      Keeps-then
        (Keeps-when _ (Keeps-then (Keeps-change kept r _ search) (Keeps-aside kept _ search)))
        (Keeps-then (Keeps-when _ (report_onhook-Keeps kept r lt))
          (Keeps-then (send_sip_teardown-Keeps kept r) (release_call-Keeps kept r))))

  pub line_calls-AllBelow : (b : Bridge) → P b → AllBelow b.next_ref (line_calls b)
  unfolding line_calls
  line_calls-AllBelow b h =
      let known = once-AllBelow b.next_ref _ (kept.laws.of_contexts b h) in
      elim (Option-cases b.outbound_call) [
        | inl e ↦ rw e known
        | inr (r, e) ↦ rw e (
            if_AllBelow b.next_ref (has r (once (refs_of b.calls_by_h248))) _ _ known
              (append-AllBelow b.next_ref _ r known (kept.laws.of_outbound b h r e).0))
      ]

  pub lose_line-Keeps : Keeps P (modify lose_line)
  unfolding lose_line
  lose_line-Keeps = Keeps-aside kept _ search

  pub tear_down-Keeps : (r : Ref) → Keeps P (tear_down env r)
  unfolding tear_down
  tear_down-Keeps r = Keeps-then (send_sip_teardown-Keeps kept r) (release_call-Keeps kept r)

module _ {env : Env} {n : ℕ} {P : Bridge → Type 0} (kept : Kept env n P) where
  pub release_all-Keeps : Keeps P (release_all_calls_from_carrier env)
  unfolding release_all_calls_from_carrier
  release_all-Keeps = Keeps-found_refs kept _ _ kept.laws.of_contexts (λ m kept' l all.
      Keeps-for_each_ref kept' l all _ (λ r lt. handle_carrier_release-Keeps kept' r lt true))

  pub handle_h248_unavailable-Keeps : Keeps P (handle_h248_unavailable env)
  unfolding handle_h248_unavailable
  handle_h248_unavailable-Keeps =
      Keeps-found_refs kept _ _ (line_calls-AllBelow kept) (λ m kept' l all.
        Keeps-then (lose_line-Keeps kept')
          (Keeps-for_each_ref kept' l all _ (λ r lt. tear_down-Keeps kept' r)))
