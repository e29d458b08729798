-- ===== src/Prelude/Regex.antt =====
-- Package `regexp` for the patterns of the program: a matcher takes the text at a position, and
-- gives the captured text and the text behind the match, with Go's preference (leftmost match, a
-- repetition as long as possible, an alternative from the left). Text is ASCII.
use Prim.Native.Nat.{ℕ, zero, suc, ◌-◌}
use mathlib.Core.Bool.{Bool, true, not, ◌&&◌, ◌||◌}
use mathlib.Core.List.{List, [], ◌∷◌, ◌++◌}
use mathlib.Core.Option.{Option, none, some}
use megaco_sip_gateway.Prelude.Tests.{leb, ◌==◌, if◌then◌else◌}
use megaco_sip_gateway.Prelude.Lists.{length, get_elem?, take, drop}
use megaco_sip_gateway.Prelude.Text.{Bytes, to_lower, same, has_prefix}

-- `\s`
unfoldable pub is_re_space : ℕ → Bool
is_re_space c = c == b' ' || c == b'\t' || c == b'\n' || c == b'\r' || c == 12

-- `[0-9]`
unfoldable pub is_re_digit : ℕ → Bool
is_re_digit c = leb b'0' c && leb c b'9'

-- `\w`
unfoldable pub is_word : ℕ → Bool
unfolding is_re_digit
is_word c = is_re_digit c || (leb b'a' c && leb c b'z') || (leb b'A' c && leb c b'Z') || c == b'_'

module _ {ℓ} {A : Type ℓ} where
  -- The first of two matches that succeeds.
  abbrev pub or_else : Option A → Option A → Option A
  or_else none later = later
  or_else (some a) later = some a

  -- `p*`, then `next`
  unfoldable pub star : (ℕ → Bool) → (Bytes → Option A) → Bytes → Option A
  star p next [] = next []
  star p next (x ∷ xs) =
      let more = or_else (star p next xs) (next (x ∷ xs)) in if p x then more else next (x ∷ xs)

  -- `p+`, then `next`
  unfoldable pub plus : (ℕ → Bool) → (Bytes → Option A) → Bytes → Option A
  unfolding star
  plus p next [] = none
  plus p next (x ∷ xs) = if p x then star p next xs else none

  -- `(p*)` with `taken` before it, then `next`
  unfoldable pub capture_star : (ℕ → Bool) → (Bytes → Bytes → Option A) → Bytes → Bytes → Option A
  capture_star p next taken [] = next taken []
  capture_star p next taken (x ∷ xs) =
      let more = or_else (capture_star p next (taken ++ x ∷ []) xs) (next taken (x ∷ xs)) in
      if p x then more else next taken (x ∷ xs)

  -- `(p+)`, then `next`
  unfoldable pub capture_plus : (ℕ → Bool) → (Bytes → Bytes → Option A) → Bytes → Option A
  unfolding capture_star
  capture_plus p next [] = none
  capture_plus p next (x ∷ xs) = if p x then capture_star p next (x ∷ []) xs else none

  -- A literal without regard to case (given in lower case), then `next`.
  unfoldable pub word : Bytes → (Bytes → Option A) → Bytes → Option A
  word [] next s = next s
  word (c ∷ cs) next [] = none
  word (c ∷ cs) next (x ∷ xs) =
      let more = word cs next xs in if same (to_lower (x ∷ [])) (c ∷ []) then more else none

  -- A literal with its case, then `next`.
  unfoldable pub exactly : Bytes → (Bytes → Option A) → Bytes → Option A
  unfolding has_prefix
  exactly w next s = if has_prefix s w then next (drop (length w) s) else none

  -- `(a|b|…)` for literals that `literal` reads, then `next`, which gets the text as it is written.
  unfoldable pub one_of :
      (Bytes → (Bytes → Option A) → Bytes → Option A)
      → List Bytes
      → (Bytes → Bytes → Option A)
      → Bytes
      → Option A
  one_of literal [] next s = none
  one_of literal (w ∷ ws) next s =
      or_else (literal w (next (take (length w) s)) s) (one_of literal ws next s)

  -- `\s*=\s*`, then `next`
  unfoldable pub equals : (Bytes → Option A) → Bytes → Option A
  unfolding star word is_re_space
  equals next = star is_re_space (word (b'=' ∷ []) (star is_re_space next))

  -- The leftmost match; the matcher is given the byte before its position.
  unfoldable pub find_match : (Option ℕ → Bytes → Option A) → Option ℕ → Bytes → Option A
  find_match m before [] = m before []
  find_match m before (x ∷ xs) = or_else (m before (x ∷ xs)) (find_match m (some x) xs)

-- `\b` before a word character
abbrev pub at_word : Option ℕ → Bool
at_word none = true
at_word (some c) = not (is_word c)

-- `(?m)^`
abbrev pub at_line : Option ℕ → Bool
at_line none = true
at_line (some c) = c == b'\n'

-- The byte before `rest` in a text that ends in `rest`
byte_before : Bytes → Bytes → Option ℕ
byte_before s rest = get_elem? s (length s - length rest - 1)

-- All matches that do not overlap, from the left; `m` gives what it captured and the rest, and no
-- match is empty. Each round leaves a shorter text, so that one round for a byte is enough.
find_rounds {ℓ} :
    {A : Type ℓ} → ℕ → (Option ℕ → Bytes → Option (A × Bytes)) → Option ℕ → Bytes → List A
find_rounds zero m before s = []
find_rounds (suc n) m before s = elim (find_match m before s) [
  | none ↦ []
  | some (a, rest) ↦ a ∷ find_rounds n m (byte_before s rest) rest
]

unfoldable pub find_all {ℓ} :
    {A : Type ℓ} → (Option ℕ → Bytes → Option (A × Bytes)) → Bytes → List A
unfolding find_rounds find_match byte_before
find_all m s = find_rounds (suc (length s)) m none s
