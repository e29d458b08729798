-- ===== src/Prelude/Text.antt =====
-- Go strings as lists of bytes, and the functions of package `strings` that the program calls
-- on ASCII text.
use Prim.Native.Char.{code}
use Prim.Native.Nat.{ℕ, ◌+◌, ◌-◌}
use Prim.Native.String.{String}
use mathlib.Core.Path.{◌≡◌, refl}
use mathlib.Core.Bool.{Bool, true, false, ◌&&◌, ◌||◌}
use mathlib.Core.Logic.{◌↔◌, ◌≢◌}
use mathlib.Core.List.{List, [], ◌∷◌, map}
use native.Mathlib.Omega.{arith}
use megaco_sip_gateway.Prelude.Tests.{◌==◌, leb, if◌then◌else◌}

abbrev pub Bytes : Type 0
Bytes = List ℕ

-- A literal; shut, so that goals show the text.
unfoldable pub lit : String → Bytes
lit String.[] = []
lit (String.◌∷◌ c s) = code c ∷ lit s

-- `a == b` on strings
unfoldable pub same : Bytes → Bytes → Bool
same [] [] = true
same (x ∷ xs) (y ∷ ys) = x == y && same xs ys
same _ _ = false

-- `s == ""`
abbrev pub is_empty : Bytes → Bool
is_empty [] = true
is_empty (x ∷ xs) = false

pub same_iff : (a b : Bytes) → (same a b ≡ true) ↔ (a ≡ b)
unfolding same
same_iff (x ∷ a) (y ∷ b) = ground (arith, same_iff a b)
same_iff _ _ = ground arith

pub same_refl : (a : Bytes) → same a a ≡ true
same_refl a = (same_iff a a).1 refl

pub same-eq : (a b : Bytes) → same a b ≡ true → a ≡ b
same-eq a b = (same_iff a b).0

pub lit-ne : (a b : Bytes) → same a b ≡ false → a ≢ b
lit-ne a b h e = cc ((same_iff a b).1 e)

pub same_sym : (a b : Bytes) → same a b ≡ same b a
unfolding same
same_sym (x ∷ a) (y ∷ b) = ground (arith, same_sym a b)
same_sym [] [] = refl
same_sym [] (y ∷ b) = refl
same_sym (x ∷ a) [] = refl

lower_byte : ℕ → ℕ
lower_byte c = if leb b'A' c && leb c b'Z' then c + 32 else c

upper_byte : ℕ → ℕ
upper_byte c = if leb b'a' c && leb c b'z' then c - 32 else c

unfoldable pub to_lower : Bytes → Bytes
unfolding lower_byte
to_lower = map lower_byte

unfoldable pub to_upper : Bytes → Bytes
unfolding upper_byte
to_upper = map upper_byte

unfoldable pub equal_fold : Bytes → Bytes → Bool
unfolding same to_lower
equal_fold a b = same (to_lower a) (to_lower b)

-- `strings.HasPrefix(s, prefix)`
unfoldable pub has_prefix : Bytes → Bytes → Bool
has_prefix s [] = true
has_prefix [] (y ∷ ys) = false
has_prefix (x ∷ xs) (y ∷ ys) = x == y && has_prefix xs ys

-- `strings.Contains(s, part)`
unfoldable pub contains_text : Bytes → Bytes → Bool
unfolding has_prefix
contains_text [] part = is_empty part
contains_text (x ∷ xs) part = has_prefix (x ∷ xs) part || contains_text xs part

pub contains-cons :
    (x : ℕ) (xs part : Bytes) → contains_text xs part ≡ true → contains_text (x ∷ xs) part ≡ true
unfolding contains_text
contains-cons x xs part h = ground arith
