-- ===== src/Prelude/Keys.antt =====
-- Lists of keys in the order of their insertion, each at most once.
use Prim.Native.Nat.{ℕ, ◌+◌, ◌<◌}
use mathlib.Core.Path.{◌≡◌, refl}
use mathlib.Core.Bool.{Bool, true, false, ◌||◌}
use mathlib.Core.List.{List, [], ◌∷◌, ◌++◌}
use mathlib.Core.Option.{Option, none, some}
use native.Mathlib.Omega.{arith}
use megaco_sip_gateway.Prelude.Tests.{if◌then◌else◌}
use megaco_sip_gateway.Prelude.Lists.{length, length-append}
use megaco_sip_gateway.Prelude.Text.{Bytes, same, same_iff, same_refl, same_sym}
use megaco_sip_gateway.Prelude.Map

unfoldable pub contains : Bytes → List Bytes → Bool
contains k [] = false
contains k (j ∷ js) = same j k || contains k js

abbrev pub IsDistinct : List Bytes → Type 0
IsDistinct [] = Unit
IsDistinct (k ∷ ks) = (contains k ks ≡ false) × IsDistinct ks

-- How many keys were inserted after `k`.
unfoldable pub behind : Bytes → List Bytes → ℕ
behind k [] = 0
behind k (j ∷ js) = if same j k then length js else behind k js

abbrev pub is_some {ℓ} : {A : Type ℓ} → Option A → Bool
is_some none = false
is_some (some a) = true

pub contains-append :
    (k j : Bytes) (ks : List Bytes) → contains k (ks ++ j ∷ []) ≡ (contains k ks || same j k)
unfolding contains
contains-append k j [] = ground arith
contains-append k j (i ∷ ks) = ground (arith, contains-append k j ks)

pub IsDistinct-append :
    (k : Bytes) (ks : List Bytes)
    → contains k ks ≡ false
    → IsDistinct ks
    → IsDistinct (ks ++ k ∷ [])
unfolding contains
IsDistinct-append k [] h d = (refl, tt)
IsDistinct-append k (j ∷ ks) h d = (
  ground (arith, contains-append j k ks, same_sym j k),
  IsDistinct-append k ks (ground arith) d.1,
)

pub behind-append :
    (k j : Bytes) (ks : List Bytes)
    → contains k ks ≡ true
    → behind k (ks ++ j ∷ []) ≡ behind k ks + 1
unfolding contains behind
behind-append k j [] h = cc
behind-append k j (i ∷ ks) h = ground (arith, behind-append k j ks, length-append ks (j ∷ []))

pub behind-append_self :
    (k : Bytes) (ks : List Bytes) → contains k ks ≡ false → behind k (ks ++ k ∷ []) ≡ 0
unfolding contains behind
behind-append_self k [] h = ground (arith, same_refl k)
behind-append_self k (i ∷ ks) h = ground (arith, behind-append_self k ks)

-- The keys of a map are those of the list, each of them once.
module _ {ℓ} {V : Type ℓ} where
  pub record Agree (keys : List Bytes) (m : List (Bytes × V)) : Type ℓ where
    pub distinct : IsDistinct keys
    pub keys_are : (k : Bytes) → contains k keys ≡ is_some (Map.lookup k m)

  pub Agree-delete_first :
      (k : Bytes) (keys : List Bytes) (m : List (Bytes × V))
      → Agree (k ∷ keys) m
      → Agree keys (Map.delete k m)
  unfolding contains
  Agree-delete_first k keys m a = record {
    distinct = a.distinct.1;
    keys_are = λ j. rw Map.lookup-delete (ground (arith, a.keys_are j, a.distinct.0, same_iff k j));
  }

  pub Agree-insert_old :
      (k : Bytes) (v : V) (keys : List Bytes) (m : List (Bytes × V))
      → contains k keys ≡ true
      → Agree keys m
      → Agree keys (Map.insert k v m)
  Agree-insert_old k v keys m h a = record {
    distinct = a.distinct;
    keys_are = λ j. rw Map.lookup-insert (ground (arith, a.keys_are j, same_iff k j));
  }

  pub Agree-insert_new :
      (k : Bytes) (v : V) (keys : List Bytes) (m : List (Bytes × V))
      → contains k keys ≡ false
      → Agree keys m
      → Agree (keys ++ k ∷ []) (Map.insert k v m)
  Agree-insert_new k v keys m h a = record {
    distinct = IsDistinct-append k keys h a.distinct;
    keys_are =
        λ j. rw (Map.lookup-insert, contains-append) (ground (arith, a.keys_are j, same_iff k j));
  }

pub behind-lt-length :
    (k : Bytes) (ks : List Bytes) → contains k ks ≡ true → behind k ks < length ks
unfolding contains behind
behind-lt-length k [] h = cc
behind-lt-length k (i ∷ ks) h = ground (arith, behind-lt-length k ks)
