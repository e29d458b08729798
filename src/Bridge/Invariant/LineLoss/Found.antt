-- ===== src/Bridge/Invariant/LineLoss/Found.antt =====
-- About the calls that `HandleH248Unavailable` of internal/bridge/h248.go collects.
use megaco_sip_gateway.Prelude.{
  eq_refl, Bytes, true, List, [], ◌∷◌, ◌++◌, Option, none, some, ◌≡◌, refl, arith, ◌==◌, Bool-cases,
  Option-cases, inl, inr, sym,
}
use megaco_sip_gateway.Prelude.Entries.{Entries}
use megaco_sip_gateway.Bridge.State.{Ref, Bridge}
use megaco_sip_gateway.Bridge.Line.{without_ref}
use megaco_sip_gateway.Bridge.Carrier.{has, once, refs_of, line_calls}

-- The outbound call is of the list.
unfoldable pub IsOneOf : List Ref → Option Ref → Type 0
IsOneOf l none = Unit {0}
IsOneOf l (some r) = has r l ≡ true

pub IsOneOf-known :
    (l : List Ref) (o : Option Ref) → IsOneOf l o → (r : Ref) → o ≡ some r → has r l ≡ true
unfolding IsOneOf
IsOneOf-known l none h r e = absurd (ground arith)
IsOneOf-known l (some j) h r e = let same : j ≡ r = ground arith in rw (sym same) h

pub without_ref-IsOneOf :
    (l : List Ref) (o : Option Ref) (r : Ref) → IsOneOf l o → IsOneOf l (without_ref o r)
unfolding IsOneOf
without_ref-IsOneOf l none r h = tt
without_ref-IsOneOf l (some j) r h = elim (Bool-cases (j == r)) [ inl e ↦ rw e tt | inr e ↦ rw e h ]

has-here : (r : Ref) (l m : List Ref) → has r l ≡ true → has r (l ++ m) ≡ true
unfolding has
has-here r [] m e = absurd (ground arith)
has-here r (j ∷ l) m e = elim (Bool-cases (j == r)) [
  | inl is ↦ rw is refl
  | inr other ↦ rw other (has-here r l m (ground arith))
]

has-last : (r : Ref) (l : List Ref) → has r (l ++ (r ∷ [])) ≡ true
unfolding has
has-last r [] = rw (eq_refl r) refl
has-last r (j ∷ l) = elim (Bool-cases (j == r)) [
  | inl is ↦ rw is refl
  | inr other ↦ rw other (has-last r l)
]

has-once : (r : Ref) (l : List Ref) → has r l ≡ true → has r (once l) ≡ true
unfolding has once
has-once r [] e = absurd (ground arith)
has-once r (j ∷ l) e = elim (Bool-cases (has j (once l))) [
  | inl seen ↦ rw seen (elim (Bool-cases (j == r)) [
    | inl is ↦ let same : j ≡ r = ground arith in rw (sym same) seen
    | inr other ↦ has-once r l (ground arith)
  ])
  | inr new ↦ rw new (elim (Bool-cases (j == r)) [
    | inl is ↦ rw is refl
    | inr other ↦ rw other (has-once r l (ground arith))
  ])
]

pub has-line_calls :
    (b : Bridge) (r : Ref) → has r (refs_of b.calls_by_h248) ≡ true → has r (line_calls b) ≡ true
unfolding line_calls
has-line_calls b r e =
    let found = has-once r (refs_of b.calls_by_h248) e in
    elim (Option-cases b.outbound_call) [
      | inl none_ ↦ rw none_ found
      | inr (j, is) ↦ rw is (elim (Bool-cases (has j (once (refs_of b.calls_by_h248)))) [
        | inl there ↦ rw there found
        | inr new ↦ rw new (has-here r _ _ found)
      ])
    ]

pub outbound-line_calls : (b : Bridge) → IsOneOf (line_calls b) b.outbound_call
unfolding line_calls IsOneOf
outbound-line_calls b = elim (Option-cases b.outbound_call) [
  | inl none_ ↦ rw none_ tt
  | inr (j, is) ↦ rw is (elim (Bool-cases (has j (once (refs_of b.calls_by_h248)))) [
    | inl there ↦ rw there there
    | inr new ↦ rw new (has-last j _)
  ])
]

pub Entries-refs_of :
    (l : List Ref) (m : List (Bytes × Ref))
    → ((r : Ref) → has r (refs_of m) ≡ true → has r l ≡ true)
    → Entries (λ k r. has r l ≡ true) m
unfolding Entries has
Entries-refs_of l [] f = tt
Entries-refs_of l ((k, j) ∷ rest) f = (
  f j (rw (eq_refl j) refl),
  Entries-refs_of l rest
      (λ r e. f r (elim (Bool-cases (j == r)) [ inl is ↦ rw is refl | inr other ↦ rw other e ])),
)
