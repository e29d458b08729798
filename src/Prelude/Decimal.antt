-- ===== src/Prelude/Decimal.antt =====
-- `strconv.Itoa`, `strconv.FormatUint(n, 10)` and `strconv.Atoi`.
pub mod Laws
use Prim.Native.Nat.{ℕ, zero, suc, ◌+◌, ◌-◌, ◌*◌, ◌/◌, ◌%◌, ◌^◌, ◌<◌}
use mathlib.Core.Path.{◌≡◌, refl}
use mathlib.Core.Bool.{Bool, true, false, ◌&&◌}
use mathlib.Core.List.{[], ◌∷◌}
use mathlib.Core.Option.{Option, none, some}
use native.Mathlib.Omega.{arith}
use megaco_sip_gateway.Prelude.Tests.{ltb, leb, ◌==◌, if◌then◌else◌, ℤ, pos, negsuc}
use megaco_sip_gateway.Prelude.Text.{Bytes, lit}

unfoldable pub is_digit : ℕ → Bool
is_digit c = leb b'0' c && leb c b'9'

-- The digits of `n` before `rest`, the last digit first.
unfoldable pub itoa_onto : ℕ → ℕ → Bytes → Bytes
itoa_onto zero n rest = rest
itoa_onto (suc f) n rest =
    let out : Bytes = (b'0' + n % 10) ∷ rest in
    let more = itoa_onto f (n / 10) out in if ltb n 10 then out else more

unfoldable pub itoa : ℕ → Bytes
unfolding itoa_onto
itoa n = itoa_onto (suc n) n []

unfoldable pub parse_digits : ℕ → Bytes → Option ℕ
unfolding is_digit
parse_digits acc [] = some acc
parse_digits acc (c ∷ cs) =
    let rest = parse_digits (acc * 10 + (c - b'0')) cs in if is_digit c then rest else none

-- A number outside the 64-bit range is an error.
in_range : Bool → Option ℕ → Option ℤ
in_range minus none = none
in_range true (some zero) = some (pos 0)
in_range true (some (suc n)) = if ltb n (2 ^ 63) then some (negsuc n) else none
in_range false (some n) = if ltb n (2 ^ 63) then some (pos n) else none

unsigned : Bytes → Option ℕ
unsigned [] = none
unsigned (c ∷ cs) = parse_digits 0 (c ∷ cs)

unfoldable pub atoi : Bytes → Option ℤ
unfolding parse_digits in_range unsigned
atoi [] = none
atoi (c ∷ cs) =
    if c == b'-'
    then in_range true (unsigned cs)
    else if c == b'+'
    then in_range false (unsigned cs)
    else in_range false (unsigned (c ∷ cs))

parse_digits-itoa_onto :
    (f n : ℕ) (rest : Bytes) → n < f → parse_digits 0 (itoa_onto f n rest) ≡ parse_digits n rest
unfolding parse_digits itoa_onto
parse_digits-itoa_onto zero n rest h = elim h [ ]
parse_digits-itoa_onto (suc f) n rest h =
    ground (arith, parse_digits-itoa_onto f (n / 10) ((b'0' + n % 10) ∷ rest))

-- A number is read back from its digits.
pub parse_digits-itoa : (n : ℕ) → parse_digits 0 (itoa n) ≡ some n
unfolding itoa parse_digits
parse_digits-itoa n = parse_digits-itoa_onto (suc n) n [] (omega arith)

-- Different numbers have different digits.
pub itoa-injective : (m n : ℕ) → itoa m ≡ itoa n → m ≡ n
itoa-injective m n e = cc (parse_digits-itoa m, parse_digits-itoa n, e)

atoi_samples :
    (atoi (lit "29998") ≡ some (pos 29998))
    × (atoi (lit "-3") ≡ some (negsuc 2))
    × (atoi (lit "") ≡ none)
    × (atoi (lit "12x") ≡ none)
    × (atoi (lit "9223372036854775808") ≡ none)
    × (itoa 20480 ≡ lit "20480")
unfolding atoi itoa lit
atoi_samples = (refl, refl, refl, refl, refl, refl)
