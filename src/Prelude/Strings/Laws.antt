-- ===== src/Prelude/Strings/Laws.antt =====
-- Laws of trimming, splitting and joining.
use mathlib.Core.Bool.{Bool, false}
use mathlib.Core.List.{List, [], ◌∷◌, ◌++◌}
use mathlib.Core.Option.{some}
use mathlib.Core.Path.{◌≡◌, refl, ap, ◌∙◌}
use Prim.Native.Nat.{ℕ}
use native.Mathlib.Omega.{arith}
use megaco_sip_gateway.Prelude.Text.{Bytes}
use megaco_sip_gateway.Prelude.Strings.{is_in, trim_left, trim_right, cut_byte, split_byte, join}

-- All bytes of `s` fail `p`.
abbrev pub AllNot : (ℕ → Bool) → Bytes → Type 0
AllNot p [] = Unit
AllNot p (x ∷ xs) = (p x ≡ false) × AllNot p xs

pub trim_left-AllNot : (p : ℕ → Bool) (s : Bytes) → AllNot p s → trim_left p s ≡ s
unfolding trim_left
trim_left-AllNot p [] h = refl
trim_left-AllNot p (x ∷ xs) h = rw h.0

pub trim_right-AllNot : (p : ℕ → Bool) (s : Bytes) → AllNot p s → trim_right p s ≡ s
unfolding trim_right
trim_right-AllNot p [] h = refl
trim_right-AllNot p (x ∷ xs) h = rw (trim_right-AllNot p xs h.1) (ground (arith, h.0))

pub trim_right-last :
    (p : ℕ → Bool) (s : Bytes) (c : ℕ) → p c ≡ false → trim_right p (s ++ c ∷ []) ≡ s ++ c ∷ []
unfolding trim_right
trim_right-last p [] c h = rw h
trim_right-last p (x ∷ []) c h = ground (arith, trim_right-last p [] c h)
trim_right-last p (x ∷ y ∷ xs) c h = rw (trim_right-last p (y ∷ xs) c h) refl

-- A part without the separator is cut off whole.
pub cut_byte-append :
    (sep : ℕ) (a b : Bytes) → is_in a sep ≡ false → cut_byte sep (a ++ sep ∷ b) ≡ some (a, b)
unfolding cut_byte is_in
cut_byte-append sep [] b h = ground arith
cut_byte-append sep (x ∷ xs) b h = ground (arith, cut_byte-append sep xs b)

pub split_byte-one : (sep : ℕ) (a : Bytes) → is_in a sep ≡ false → split_byte sep a ≡ a ∷ []
unfolding split_byte is_in
split_byte-one sep [] h = refl
split_byte-one sep (x ∷ xs) h = ground (arith, split_byte-one sep xs)

pub split_byte-append :
    (sep : ℕ) (a b : Bytes)
    → is_in a sep ≡ false
    → split_byte sep (a ++ sep ∷ b) ≡ a ∷ split_byte sep b
unfolding split_byte is_in
split_byte-append sep [] b h = ground arith
split_byte-append sep (x ∷ xs) b h = ground (arith, split_byte-append sep xs b)

abbrev pub NoneIn : ℕ → List Bytes → Type 0
NoneIn sep [] = Unit
NoneIn sep (part ∷ parts) = (is_in part sep ≡ false) × NoneIn sep parts

-- Splitting undoes joining, for parts that do not hold the separator.
pub split_byte-join :
    (sep : ℕ) (part : Bytes) (parts : List Bytes)
    → NoneIn sep (part ∷ parts)
    → split_byte sep (join (sep ∷ []) (part ∷ parts)) ≡ part ∷ parts
unfolding join
split_byte-join sep part [] h = split_byte-one sep part h.0
split_byte-join sep part (next ∷ parts) h =
    split_byte-append sep part (join (sep ∷ []) (next ∷ parts)) h.0
    ∙ ap (◌∷◌ part) (split_byte-join sep next parts h.1)
