-- ===== src/Bridge/State/Keeps.antt =====
-- Invariants of actions: one rule for each way to build one.
use megaco_sip_gateway.Prelude.{
  Bool, true, false, List, [], ◌∷◌, Option, none, some, if◌then◌else◌, ◌≡◌, refl,
}
use megaco_sip_gateway.Bridge.State.{
  Bridge, M, ◌>>=◌, ◌>>◌, pure, gets, modify, done, when, for_some, for_each,
}

-- `m` keeps `P`.
pub record Keeps {A : Type 0} (P : Bridge → Type 0) (m : M A) : Type 0 where
  pub at : (b : Bridge) → P b → P (m b).1

module _ {P : Bridge → Type 0} where
  pub Keeps-pure : {A : Type 0} (a : A) → Keeps P (pure a)
  unfolding pure
  Keeps-pure a = record { at = λ b h. h }

  pub Keeps-done : Keeps P done
  Keeps-done = Keeps-pure tt

  pub Keeps-gets : {A : Type 0} (f : Bridge → A) → Keeps P (gets f)
  unfolding gets
  Keeps-gets f = record { at = λ b h. h }

  pub Keeps-modify : (f : Bridge → Bridge) → ((b : Bridge) → P b → P (f b)) → Keeps P (modify f)
  unfolding modify
  Keeps-modify f k = record { at = k }

  pub Keeps-bind :
      {A B : Type 0} {m : M A} {f : A → M B}
      → Keeps P m
      → ((a : A) → Keeps P (f a))
      → Keeps P (m >>= f)
  unfolding ◌>>=◌
  Keeps-bind {m = m} km kf = record { at = λ b h. (kf (m b).0).at (m b).1 (km.at b h) }

  pub Keeps-then : {A B : Type 0} {m : M A} {n : M B} → Keeps P m → Keeps P n → Keeps P (m >> n)
  unfolding ◌>>◌
  Keeps-then {m = m} km kn = record { at = λ b h. kn.at (m b).1 (km.at b h) }

  -- The value that a reading part found may be used for what comes next.
  pub Keeps-gets_bind :
      {A B : Type 0} (g : Bridge → A) (f : A → M B)
      → ((b : Bridge) → P b → P (f (g b) b).1)
      → Keeps P (gets g >>= f)
  unfolding ◌>>=◌ gets
  Keeps-gets_bind g f k = record { at = k }

  pub Keeps-if :
      {A : Type 0} (test : Bool) {m n : M A}
      → Keeps P m
      → Keeps P n
      → Keeps P (if test then m else n)
  Keeps-if true km kn = km
  Keeps-if false km kn = kn

  pub Keeps-if_known :
      {A : Type 0} (test : Bool) {m n : M A}
      → (test ≡ true → Keeps P m)
      → (test ≡ false → Keeps P n)
      → Keeps P (if test then m else n)
  Keeps-if_known true km kn = km refl
  Keeps-if_known false km kn = kn refl

  pub Keeps-when : (test : Bool) {m : M (Unit {0})} → Keeps P m → Keeps P (when test m)
  unfolding when
  Keeps-when test km = Keeps-if test km Keeps-done

  pub Keeps-for_some :
      {A : Type 0} (o : Option A) {f : A → M (Unit {0})}
      → ((a : A) → Keeps P (f a))
      → Keeps P (for_some o f)
  unfolding for_some
  Keeps-for_some none kf = Keeps-done
  Keeps-for_some (some a) kf = kf a

  pub Keeps-for_each :
      {A : Type 0} (l : List A) {f : A → M (Unit {0})}
      → ((a : A) → Keeps P (f a))
      → Keeps P (for_each l f)
  unfolding for_each
  Keeps-for_each [] kf = Keeps-done
  Keeps-for_each (a ∷ rest) kf = Keeps-then (kf a) (Keeps-for_each rest kf)
