-- ===== src/Prelude/Strings/Lines.antt =====
-- Texts of lines that end in CR and LF, and their fields.
use mathlib.Core.Bool.{Bool, false, ◌||◌}
use mathlib.Core.List.{List, [], ◌∷◌, ◌++◌}
use mathlib.Core.Logic.{inl, inr}
use mathlib.Core.Path.{◌≡◌, refl, ap, ◌∙◌}
use Prim.Native.Nat.{ℕ, zero, suc, ◌+◌, ◌%◌, ◌/◌}
use native.Mathlib.Omega.{arith}
use megaco_sip_gateway.Prelude.Tests.{Bool-cases, ◌==◌, ltb}
use megaco_sip_gateway.Prelude.Text.{Bytes, is_empty, has_prefix}
use megaco_sip_gateway.Prelude.Decimal.{itoa, itoa_onto}
use megaco_sip_gateway.Prelude.Strings.{
  is_in, is_white, trim_left, trim_right, trim_space, drop_empty, blank_to_space, fields, join,
  cut_text, replace_all, replace_from,
}
use megaco_sip_gateway.Prelude.Strings.Laws.{
  AllNot, NoneIn, trim_left-AllNot, trim_right-AllNot, trim_right-last, split_byte-append,
  split_byte-one,
}

abbrev pub is_break : ℕ → Bool
is_break c = c == b'\r' || c == b'\n'

abbrev pub crlf : Bytes
crlf = b'\r' ∷ b'\n' ∷ []

-- Lines, an empty line and a body
unfoldable pub crlf_lines : List Bytes → Bytes → Bytes
crlf_lines [] body = b'\r' ∷ b'\n' ∷ body
crlf_lines (line ∷ rest) body = line ++ b'\r' ∷ b'\n' ∷ crlf_lines rest body

unfoldable pub lf_lines : List Bytes → Bytes → Bytes
lf_lines [] body = b'\n' ∷ body
lf_lines (line ∷ rest) body = line ++ b'\n' ∷ lf_lines rest body

abbrev pub AllUnbroken : List Bytes → Type 0
AllUnbroken [] = Unit
AllUnbroken (line ∷ rest) = (is_empty line ≡ false) × AllNot is_break line × AllUnbroken rest

replace_from-line :
    (line rest : Bytes)
    → AllNot is_break line
    → replace_from crlf (b'\n' ∷ []) 0 (line ++ b'\r' ∷ b'\n' ∷ rest)
      ≡ line ++ b'\n' ∷ replace_from crlf (b'\n' ∷ []) 0 rest
unfolding replace_from has_prefix
replace_from-line [] rest h = refl
replace_from-line (x ∷ xs) rest h = ground (arith, h.0, replace_from-line xs rest h.1)

pub replace_all-lines :
    (lines : List Bytes) (body : Bytes)
    → AllUnbroken lines
    → replace_all (crlf_lines lines body) crlf (b'\n' ∷ [])
      ≡ lf_lines lines (replace_all body crlf (b'\n' ∷ []))
unfolding replace_all crlf_lines lf_lines replace_from has_prefix
replace_all-lines [] body h = refl
replace_all-lines (line ∷ rest) body h =
    replace_from-line line _ h.1 ∙ ap (λ t. line ++ b'\n' ∷ t) (replace_all-lines rest body h.2)

abbrev two_lf : Bytes
two_lf = b'\n' ∷ b'\n' ∷ []

cut_text-last :
    (line body : Bytes)
    → AllNot is_break line
    → cut_text two_lf (line ++ b'\n' ∷ b'\n' ∷ body) ≡ (line, body)
unfolding cut_text has_prefix
cut_text-last [] body h = refl
cut_text-last (x ∷ xs) body h =
    let ih = cut_text-last xs body h.1 in
    let no : (x == b'\n') ≡ false = ground (arith, h.0) in rw (no, ih) refl

cut_text-more :
    (line : Bytes) (c : ℕ) (rest : Bytes)
    → AllNot is_break line
    → (c == b'\n') ≡ false
    → cut_text two_lf (line ++ b'\n' ∷ c ∷ rest)
      ≡ (line ++ b'\n' ∷ (cut_text two_lf (c ∷ rest)).0, (cut_text two_lf (c ∷ rest)).1)
unfolding cut_text has_prefix
cut_text-more [] c rest h other = rw other refl
cut_text-more (x ∷ xs) c rest h other =
    let ih = cut_text-more xs c rest h.1 other in
    let plain : (x == b'\n') ≡ false = ground (arith, h.0) in rw (plain, ih) refl

pub cut_text-lines :
    (line : Bytes) (rest : List Bytes) (body : Bytes)
    → AllUnbroken (line ∷ rest)
    → cut_text two_lf (lf_lines (line ∷ rest) body) ≡ (join (b'\n' ∷ []) (line ∷ rest), body)
unfolding lf_lines join
cut_text-lines line [] body h = cut_text-last line body h.1
cut_text-lines line ([] ∷ rest) body h = absurd (ground arith)
cut_text-lines line ((c ∷ cs) ∷ rest) body h =
    cut_text-more line c (cs ++ b'\n' ∷ lf_lines rest body) h.1 (ground arith)
    ∙ ap (λ p. (line ++ b'\n' ∷ p.0, p.1)) (cut_text-lines (c ∷ cs) rest body h.2)

AllNot-is_in : (line : Bytes) → AllNot is_break line → is_in line b'\n' ≡ false
unfolding is_in
AllNot-is_in [] h = refl
AllNot-is_in (x ∷ xs) h = ground (arith, h.0, AllNot-is_in xs h.1)

pub AllUnbroken-NoneIn : (lines : List Bytes) → AllUnbroken lines → NoneIn b'\n' lines
AllUnbroken-NoneIn [] h = tt
AllUnbroken-NoneIn (line ∷ rest) h = (AllNot-is_in line h.1, AllUnbroken-NoneIn rest h.2)

pub AllNot-append : (p : ℕ → Bool) (a b : Bytes) → AllNot p a → AllNot p b → AllNot p (a ++ b)
AllNot-append p [] b h h' = h'
AllNot-append p (x ∷ xs) b h h' = (h.0, AllNot-append p xs b h.1 h')

pub AllNot-weaken :
    (p q : ℕ → Bool) → ((c : ℕ) → p c ≡ false → q c ≡ false) → (s : Bytes) → AllNot p s → AllNot q s
AllNot-weaken p q f [] h = tt
AllNot-weaken p q f (x ∷ xs) h = (f x h.0, AllNot-weaken p q f xs h.1)

-- The digits of a number are neither white space nor breaks.
digit_plain : (n : ℕ) → is_white (b'0' + n % 10) ≡ false
unfolding is_white
digit_plain n = ground arith

itoa_onto-AllNot :
    (f n : ℕ) (rest : Bytes) → AllNot is_white rest → AllNot is_white (itoa_onto f n rest)
unfolding itoa_onto is_white
itoa_onto-AllNot zero n rest h = h
itoa_onto-AllNot (suc f) n rest h = elim (Bool-cases (ltb n 10)) [
  | inl e ↦ rw e (digit_plain n, h)
  | inr e ↦ rw e (itoa_onto-AllNot f (n / 10) _ (digit_plain n, h))
]

pub itoa-AllNot : (n : ℕ) → AllNot is_white (itoa n)
unfolding itoa
itoa-AllNot n = itoa_onto-AllNot (suc n) n [] tt

-- A text without white space is unbroken, and trimmed.
pub solid-AllNot : (s : Bytes) → AllNot is_white s → AllNot is_break s
unfolding is_white
solid-AllNot s h = AllNot-weaken is_white is_break (λ c e. ground arith) s h

pub trim_space-solid : (s : Bytes) → AllNot is_white s → trim_space s ≡ s
unfolding trim_space
trim_space-solid s h =
    ap (trim_right is_white) (trim_left-AllNot is_white s h) ∙ trim_right-AllNot is_white s h

-- A first and a last word are not trimmed.
pub trim_space-words :
    (x : ℕ) (xs : Bytes) (c : ℕ)
    → is_white x ≡ false
    → is_white c ≡ false
    → trim_space (x ∷ (xs ++ c ∷ [])) ≡ x ∷ (xs ++ c ∷ [])
unfolding trim_space trim_left
trim_space-words x xs c first last = rw first (trim_right-last is_white (x ∷ xs) c last)

pub trim_space-blank : (s : Bytes) → trim_space (b' ' ∷ s) ≡ trim_space s
unfolding trim_space trim_left is_white
trim_space-blank s = refl

blank_to_space-word :
    (a b : Bytes)
    → AllNot is_white a
    → blank_to_space (a ++ b' ' ∷ b) ≡ a ++ b' ' ∷ blank_to_space b
unfolding blank_to_space is_white
blank_to_space-word [] b h = refl
blank_to_space-word (x ∷ xs) b h =
    let plain : is_white x ≡ false = h.0 in rw (plain, blank_to_space-word xs b h.1) refl

blank_to_space-solid : (a : Bytes) → AllNot is_white a → blank_to_space a ≡ a
unfolding blank_to_space
blank_to_space-solid [] h = refl
blank_to_space-solid (x ∷ xs) h = rw (h.0, blank_to_space-solid xs h.1) refl

solid-is_in : (a : Bytes) → AllNot is_white a → is_in a b' ' ≡ false
unfolding is_in is_white
solid-is_in [] h = refl
solid-is_in (x ∷ xs) h = ground (arith, h.0, solid-is_in xs h.1)

pub fields-word :
    (a b : Bytes) → is_empty a ≡ false → AllNot is_white a → fields (a ++ b' ' ∷ b) ≡ a ∷ fields b
unfolding fields drop_empty
fields-word a b there h =
    rw (blank_to_space-word a b h)
      (rw (split_byte-append b' ' a (blank_to_space b) (solid-is_in a h)) (rw there refl))

pub fields-last : (a : Bytes) → is_empty a ≡ false → AllNot is_white a → fields a ≡ a ∷ []
unfolding fields drop_empty
fields-last a there h =
    rw (blank_to_space-solid a h) (rw (split_byte-one b' ' a (solid-is_in a h)) (rw there refl))
