-- ===== src/Bridge/Invariant/Basics.antt =====
-- An invariant is kept by what the handlers are made of. Every lemma about a handler of a call `r`
-- takes `r < n` for a bound `n` of the references that are there.
use megaco_sip_gateway.Prelude.{
  List, [], ◌∷◌, inl, inr, Bool-cases, Option-cases, ℕ, ◌≤◌, ◌<◌, Bytes, Bool, true, false, Option,
  none, some, ◌≡◌, if◌then◌else◌, arith,
}
use megaco_sip_gateway.Bridge.State.{
  Ref, Call, Output, Task, Bridge, Env, M, ◌>>=◌, gets, modify, for_each, change, read, send,
  schedule,
}
use megaco_sip_gateway.Bridge.State.Keeps.{
  Keeps, Keeps-pure, Keeps-done, Keeps-gets, Keeps-modify, Keeps-bind, Keeps-then, Keeps-gets_bind,
  Keeps-if, Keeps-if_known, Keeps-when, Keeps-for_some, Keeps-for_each,
}
use megaco_sip_gateway.Prelude.Map
use megaco_sip_gateway.Bridge.Invariant.Past.{Past, Past-Invariant}
use megaco_sip_gateway.Bridge.Invariant.{
  AllBelow, Invariant, IsAside, IsGentle, IsBelow, IsBelow-mono, is_ordinary,
}

-- An invariant and a bound of the references that are there
pub record Kept (env : Env) (n : ℕ) (P : Bridge → Type 0) : Type 0 where
  pub laws : Invariant env P
  pub past : (b : Bridge) → P b → n ≤ b.next_ref

pub ruleset keeping = (
  Keeps-pure, Keeps-done, Keeps-gets, Keeps-bind, Keeps-then, Keeps-if, Keeps-when, Keeps-for_some,
  Keeps-for_each,
)

pub Keeps-read : {P : Bridge → Type 0} {A : Type 0} (r : Ref) (f : Call → A) → Keeps P (read r f)
unfolding read
Keeps-read r f = Keeps-gets _

-- The value that is read from a call may be used for what comes next.
pub Keeps-read_bind :
    {P : Bridge → Type 0} {A B : Type 0} (r : Ref) (g : Call → A) (f : A → M B)
    → ((b : Bridge) → P b → P (f (g (b.cell r)) b).1)
    → Keeps P (read r g >>= f)
unfolding read
Keeps-read_bind r g f k = Keeps-gets_bind _ f k

-- What a test on a call decides, at the state that it is read in
pub Keeps-read_if :
    {P : Bridge → Type 0} {A : Type 0} (r : Ref) (test : Call → Bool) (m n : Call → M A)
    → ((b : Bridge) → P b → test (b.cell r) ≡ true → P (m (b.cell r) b).1)
    → ((b : Bridge) → P b → test (b.cell r) ≡ false → P (n (b.cell r) b).1)
    → Keeps P (read r (λ c. c) >>= (λ c. if test c then m c else n c))
Keeps-read_if {P} r test m n km kn = Keeps-read_bind r _ _ (λ b h.
    elim (Bool-cases (test (b.cell r))) [ inl e ↦ rw e (km b h e) | inr e ↦ rw e (kn b h e) ])

module _ {env : Env} {n : ℕ} {P : Bridge → Type 0} (kept : Kept env n P) where
  pub Keeps-aside : (f : Bridge → Bridge) → IsAside f → Keeps P (modify f)
  Keeps-aside f is = Keeps-modify f (kept.laws.aside f is)

  pub Keeps-change : (r : Ref) (f : Call → Call) → IsGentle f → Keeps P (change r f)
  Keeps-change r f is = record { at = kept.laws.gentle r f is }

  pub Keeps-send : (o : Output) → is_ordinary o ≡ true → Keeps P (send env o)
  Keeps-send o is = record { at = kept.laws.sends o is }

  pub Keeps-schedule : (delay : ℕ) (task : Task) → IsBelow n task → Keeps P (schedule delay task)
  Keeps-schedule delay task is = record {
    at = λ b h. kept.laws.schedules delay task b (IsBelow-mono task is (kept.past b h)) h;
  }

  -- A call that is found in the state is there: its handler is taken at the references of that state.
  pub Keeps-found :
      {A : Type 0} (g : Bridge → Option Ref) (f : Option Ref → M A)
      → ((b : Bridge) → P b → (r : Ref) → g b ≡ some r → r < b.next_ref)
      → Keeps P (f none)
      → ((m : ℕ) → Kept env m (Past m P) → (r : Ref) → r < m → Keeps (Past m P) (f (some r)))
      → Keeps P (gets g >>= f)
  Keeps-found g f known kn ks = Keeps-gets_bind g f (λ b h. elim (Option-cases (g b)) [
    | inl e ↦ rw e (kn.at b h)
    | inr (r, e) ↦
        rw e
          ((ks b.next_ref (record { laws = Past-Invariant kept.laws b.next_ref; past = λ b h. h.1 })
              r (known b h r e)).at
            b (h, omega arith)).0
  ])

  pub Keeps-found_sip :
      {A : Type 0} (key : Bytes) (f : Option Ref → M A)
      → Keeps P (f none)
      → ((m : ℕ) → Kept env m (Past m P) → (r : Ref) → r < m → Keeps (Past m P) (f (some r)))
      → Keeps P (gets (λ b. Map.lookup key b.calls_by_sip) >>= f)
  Keeps-found_sip key f = Keeps-found _ f (λ b h r. kept.laws.of_sip b h key r)

  pub Keeps-found_h248 :
      {A : Type 0} (key : Bytes) (f : Option Ref → M A)
      → Keeps P (f none)
      → ((m : ℕ) → Kept env m (Past m P) → (r : Ref) → r < m → Keeps (Past m P) (f (some r)))
      → Keeps P (gets (λ b. Map.lookup key b.calls_by_h248) >>= f)
  Keeps-found_h248 key f = Keeps-found _ f (λ b h r. kept.laws.of_h248 b h key r)

  pub Keeps-for_each_ref :
      (l : List Ref)
      → AllBelow n l
      → (f : Ref → M (Unit {0})) → ((r : Ref) → r < n → Keeps P (f r))
      → Keeps P (for_each l f)
  unfolding for_each AllBelow
  Keeps-for_each_ref [] all f kf = Keeps-done
  Keeps-for_each_ref (r ∷ rest) (lt, all) f kf =
      Keeps-then (kf r lt) (Keeps-for_each_ref rest all f kf)

  -- Calls that are found in the state are there.
  pub Keeps-found_refs :
      {A : Type 0} (g : Bridge → List Ref) (f : List Ref → M A)
      → ((b : Bridge) → P b → AllBelow b.next_ref (g b))
      → ((m : ℕ) → Kept env m (Past m P) → (l : List Ref) → AllBelow m l → Keeps (Past m P) (f l))
      → Keeps P (gets g >>= f)
  Keeps-found_refs g f known kf = Keeps-gets_bind g f (λ b h.
      ((kf b.next_ref (record { laws = Past-Invariant kept.laws b.next_ref; past = λ b h. h.1 })
          (g b) (known b h)).at
        b (h, omega arith)).0)
