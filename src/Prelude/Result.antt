-- ===== src/Prelude/Result.antt =====
-- A Go pair of a value and an error.

pub data Result {ℓ} (E : Type ℓ) (A : Type ℓ) : Type ℓ where
  err : E → Result E A
  ok : A → Result E A

module _ {ℓ} {E A B : Type ℓ} where
  infixl 5 ◌>>=◌
  abbrev pub ◌>>=◌ : Result E A → (A → Result E B) → Result E B
  m >>= next = elim m [ err e ↦ err e | ok value ↦ next value ]
