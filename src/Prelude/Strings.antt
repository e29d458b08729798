-- ===== src/Prelude/Strings.antt =====
-- More of package `strings`, over bytes of ASCII text: trimming, splitting, joining, replacing.
pub mod Laws
pub mod Lines
use Prim.Native.Nat.{ℕ, zero, suc, ◌-◌}
use mathlib.Core.Bool.{Bool, true, false, not, ◌&&◌, ◌||◌}
use mathlib.Core.List.{List, [], ◌∷◌, ◌++◌}
use mathlib.Core.Option.{Option, none, some}
use megaco_sip_gateway.Prelude.Tests.{leb, ltb, ◌==◌, if◌then◌else◌}
use megaco_sip_gateway.Prelude.Lists.{length, drop}
use megaco_sip_gateway.Prelude.Text.{Bytes, lit, has_prefix, is_empty}

-- `unicode.IsSpace` on ASCII
unfoldable pub is_white : ℕ → Bool
is_white c = c == b' ' || (leb 9 c && leb c 13)

-- `strings.ContainsRune(cutset, c)`
unfoldable pub is_in : Bytes → ℕ → Bool
is_in [] c = false
is_in (x ∷ xs) c = c == x || is_in xs c

unfoldable pub trim_left : (ℕ → Bool) → Bytes → Bytes
trim_left p [] = []
trim_left p (x ∷ xs) = let rest = trim_left p xs in if p x then rest else x ∷ xs

unfoldable pub trim_right : (ℕ → Bool) → Bytes → Bytes
trim_right p [] = []
trim_right p (x ∷ xs) = let rest = trim_right p xs in if is_empty rest && p x then [] else x ∷ rest

-- `strings.TrimSpace`
unfoldable pub trim_space : Bytes → Bytes
unfolding is_white trim_left trim_right
trim_space s = trim_right is_white (trim_left is_white s)

-- `strings.Trim(s, cutset)`
unfoldable pub trim : Bytes → Bytes → Bytes
unfolding is_in trim_left trim_right
trim s cutset = trim_right (is_in cutset) (trim_left (is_in cutset) s)

-- `strings.Cut(s, sep)` with a separator of one byte
unfoldable pub cut_byte : ℕ → Bytes → Option (Bytes × Bytes)
cut_byte sep [] = none
cut_byte sep (x ∷ xs) =
    let rest : Option (Bytes × Bytes) = elim (cut_byte sep xs) [
      | none ↦ none
      | some (a, b) ↦ some (x ∷ a, b)
    ] in
    if x == sep then some ([], xs) else rest

-- `strings.Cut(s, sep)` for any separator; the text is left whole where it is missing.
unfoldable pub cut_text : Bytes → Bytes → Bytes × Bytes
unfolding has_prefix
cut_text sep [] = ([], [])
cut_text sep (x ∷ xs) =
    let rest = cut_text sep xs in
    let hit : Bytes × Bytes = ([], drop (length sep) (x ∷ xs)) in
    let miss : Bytes × Bytes = (x ∷ rest.0, rest.1) in if has_prefix (x ∷ xs) sep then hit else miss

onto_first : ℕ → List Bytes → List Bytes
onto_first x [] = (x ∷ []) ∷ []
onto_first x (part ∷ parts) = (x ∷ part) ∷ parts

-- `strings.Split(s, sep)` with a separator of one byte
unfoldable pub split_byte : ℕ → Bytes → List Bytes
unfolding onto_first
split_byte sep [] = [] ∷ []
split_byte sep (x ∷ xs) =
    let parts = split_byte sep xs in if x == sep then [] ∷ parts else onto_first x parts

drop_empty : List Bytes → List Bytes
drop_empty [] = []
drop_empty (part ∷ parts) = if is_empty part then drop_empty parts else part ∷ drop_empty parts

blank_to_space : Bytes → Bytes
blank_to_space [] = []
blank_to_space (x ∷ xs) = (if is_white x then b' ' else x) ∷ blank_to_space xs

-- `strings.Fields`
unfoldable pub fields : Bytes → List Bytes
unfolding split_byte drop_empty blank_to_space is_white
fields s = drop_empty (split_byte b' ' (blank_to_space s))

-- `strings.Join(parts, sep)`
unfoldable pub join : Bytes → List Bytes → Bytes
join sep [] = []
join sep (part ∷ []) = part
join sep (part ∷ next ∷ parts) = part ++ (sep ++ join sep (next ∷ parts))

-- `skip` bytes of a match are still to be dropped.
replace_from : Bytes → Bytes → ℕ → Bytes → Bytes
replace_from old new skip [] = []
replace_from old new (suc skip) (x ∷ xs) = replace_from old new skip xs
replace_from old new zero (x ∷ xs) =
    let hit = new ++ replace_from old new (length old - 1) xs in
    let miss = x ∷ replace_from old new zero xs in if has_prefix (x ∷ xs) old then hit else miss

-- `strings.ReplaceAll(s, old, new)`, for `old` not empty
unfoldable pub replace_all : Bytes → Bytes → Bytes → Bytes
unfolding replace_from has_prefix
replace_all s old new = replace_from old new 0 s

-- `s[strings.LastIndex(s, sep)+1:]`, the whole text where there is no `sep`
unfoldable pub after_last : ℕ → Bytes → Bytes
unfolding is_in
after_last sep [] = []
after_last sep (x ∷ xs) =
    let later = after_last sep xs in if is_in xs sep then later else if x == sep then xs else x ∷ xs

-- `s[:strings.IndexAny(s, stops)]`, the whole text where there is none
unfoldable pub before_any : Bytes → Bytes → Bytes
unfolding is_in
before_any stops [] = []
before_any stops (x ∷ xs) = let rest = x ∷ before_any stops xs in if is_in stops x then [] else rest

-- `strings.TrimSuffix(s, c)` where `s` ends in the byte `c`
unfoldable pub cut_suffix : ℕ → Bytes → Option Bytes
cut_suffix c [] = none
cut_suffix c (x ∷ xs) =
    let rest : Option Bytes = elim (cut_suffix c xs) [ none ↦ none | some a ↦ some (x ∷ a) ] in
    if is_empty xs then (if x == c then some [] else none) else rest

trimmed_parts : List Bytes → List Bytes
trimmed_parts [] = []
trimmed_parts (part ∷ parts) =
    let p = trim (trim_space part) (b'"' ∷ []) in
    if is_empty p then trimmed_parts parts else p ∷ trimmed_parts parts

-- `splitList` of internal/config/config.go
unfoldable pub split_list : Bytes → List Bytes
unfolding trim trim_space split_byte trimmed_parts
split_list value =
    let v = trim value (b'[' ∷ b']' ∷ []) in
    if is_empty v then [] else trimmed_parts (split_byte b',' v)
