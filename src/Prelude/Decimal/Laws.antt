-- ===== src/Prelude/Decimal/Laws.antt =====
-- `Itoa` and `Atoi` together.
use Prim.Native.Nat.{ℕ, zero, suc, ◌+◌, ◌/◌, ◌%◌, ◌^◌, ◌<◌}
use mathlib.Core.Path.{◌≡◌, refl}
use mathlib.Core.Bool.{Bool, true, false}
use mathlib.Core.List.{[], ◌∷◌}
use mathlib.Core.Option.{some}
use native.Mathlib.Omega.{arith}
use megaco_sip_gateway.Prelude.Tests.{ltb, ◌==◌, pos}
use megaco_sip_gateway.Prelude.Text.{Bytes, is_empty}
use megaco_sip_gateway.Prelude.Decimal.{
  is_digit, itoa, itoa_onto, parse_digits, parse_digits-itoa, atoi, unsigned, in_range,
}

starts_with_digit : Bytes → Bool
starts_with_digit [] = false
starts_with_digit (c ∷ cs) = is_digit c

itoa_onto-digit : (f n : ℕ) (rest : Bytes) → n < f → starts_with_digit (itoa_onto f n rest) ≡ true
unfolding itoa_onto starts_with_digit is_digit
itoa_onto-digit zero n rest lt = absurd (omega arith)
itoa_onto-digit (suc f) n rest lt =
    ground (arith, itoa_onto-digit f (n / 10) ((b'0' + n % 10) ∷ rest))

unsigned-atoi :
    (s : Bytes) (n : ℕ)
    → starts_with_digit s ≡ true
    → parse_digits 0 s ≡ some n
    → n < 2 ^ 63
    → atoi s ≡ some (pos n)
unfolding starts_with_digit is_digit atoi unsigned in_range
unsigned-atoi [] n d e lt = absurd (ground arith)
unsigned-atoi (c ∷ cs) n d e lt =
    let minus : (c == b'-') ≡ false = ground arith in
    let plus : (c == b'+') ≡ false = ground arith in
    let fits : ltb n (2 ^ 63) ≡ true = ground arith in rw (minus, plus, e, fits) refl

-- A number of 63 bits is read back from its digits.
pub atoi-itoa : (n : ℕ) → n < 2 ^ 63 → atoi (itoa n) ≡ some (pos n)
unfolding itoa
atoi-itoa n lt =
    unsigned-atoi (itoa n) n (itoa_onto-digit (suc n) n [] (omega arith)) (parse_digits-itoa n) lt

pub itoa_there : (n : ℕ) → is_empty (itoa n) ≡ false
unfolding itoa starts_with_digit
itoa_there n = not_empty (itoa n) (itoa_onto-digit (suc n) n [] (omega arith))
  where
    not_empty : (s : Bytes) → starts_with_digit s ≡ true → is_empty s ≡ false
    not_empty [] e = absurd (ground arith)
    not_empty (c ∷ cs) e = refl
