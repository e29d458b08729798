-- ===== src/Prelude/Entries.antt =====
-- A property of all entries of a map.
use mathlib.Core.Path.{◌≡◌, sym}
use mathlib.Core.Bool.{false}
use mathlib.Core.Logic.{inl, inr}
use mathlib.Core.List.{List, [], ◌∷◌}
use mathlib.Core.Option.{some}
use native.Mathlib.Omega.{arith}
use megaco_sip_gateway.Prelude.Tests.{Bool-cases}
use megaco_sip_gateway.Prelude.Text.{Bytes, same, same-eq}
use megaco_sip_gateway.Prelude.Map.{lookup, insert, delete}

module _ {V : Type 0} where
  unfoldable pub Entries : (Bytes → V → Type 0) → List (Bytes × V) → Type 0
  Entries Good [] = Unit {0}
  Entries Good ((k, v) ∷ rest) = Good k v × Entries Good rest

  pub Entries-lookup :
      (Good : Bytes → V → Type 0) (m : List (Bytes × V))
      → Entries Good m
      → (k : Bytes) (v : V) → lookup k m ≡ some v
      → Good k v
  unfolding Entries lookup
  Entries-lookup Good [] all k v e = absurd (ground arith)
  Entries-lookup Good ((j, w) ∷ rest) (good, all) k v e = elim (Bool-cases (same j k)) [
    | inl is ↦
        let key = same-eq j k is in
        let value : w ≡ v = ground arith in rw (sym key) (rw (sym value) good)
    | inr other ↦ Entries-lookup Good rest all k v (ground arith)
  ]

  pub Entries-map :
      (Good Good' : Bytes → V → Type 0)
      → ((k : Bytes) (v : V) → Good k v → Good' k v)
      → (m : List (Bytes × V)) → Entries Good m
      → Entries Good' m
  unfolding Entries
  Entries-map Good Good' f [] all = tt
  Entries-map Good Good' f ((j, w) ∷ rest) (good, all) =
      (f j w good, Entries-map Good Good' f rest all)

  pub Entries-delete :
      (Good Good' : Bytes → V → Type 0) (k : Bytes)
      → ((j : Bytes) (v : V) → same j k ≡ false → Good j v → Good' j v)
      → (m : List (Bytes × V)) → Entries Good m
      → Entries Good' (delete k m)
  unfolding Entries delete
  Entries-delete Good Good' k f [] all = tt
  Entries-delete Good Good' k f ((j, w) ∷ rest) (good, all) = elim (Bool-cases (same j k)) [
    | inl e ↦ rw e (Entries-delete Good Good' k f rest all)
    | inr e ↦ rw e (f j w e good, Entries-delete Good Good' k f rest all)
  ]

  pub Entries-insert :
      (Good : Bytes → V → Type 0) (k : Bytes) (v : V)
      → Good k v
      → (m : List (Bytes × V)) → Entries Good m
      → Entries Good (insert k v m)
  unfolding Entries insert
  Entries-insert Good k v new [] all = (new, tt)
  Entries-insert Good k v new ((j, w) ∷ rest) (good, all) = elim (Bool-cases (same j k)) [
    | inl e ↦ rw e (new, all)
    | inr e ↦ rw e (good, Entries-insert Good k v new rest all)
  ]
