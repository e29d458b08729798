-- ===== src/Sip/Digest/Quoting.antt =====
-- Quoted values of internal/sip/digest.go, taken apart again.
use megaco_sip_gateway.Prelude.{
  leb, Bool-cases, inl, inr, ℕ, zero, suc, ◌≤◌, ◌<◌, ◌≢◌, Bytes, Bool, true, false, ◌||◌, List, [],
  ◌∷◌, ◌++◌, some, ◌==◌, if◌then◌else◌, length, length-append, ◌≡◌, ◌∙◌, refl, sym, ap, arith,
}
use megaco_sip_gateway.Prelude.Strings.{replace_all, trim_space, trim_left, is_white}
use megaco_sip_gateway.Prelude.Strings.Laws.{AllNot, trim_right-last}
use megaco_sip_gateway.Sip.Digest.Unquote.{
  unquote, unquote_char, unquote_text, onto_text, is_two, is_three, is_four,
}
use megaco_sip_gateway.Sip.Digest.Unquote.Runes.{
  is_two-high, is_three-high, is_four-high, two-copied, three-copied, four-copied,
}
use megaco_sip_gateway.Sip.Digest.Challenge.{pieces, onto_part, unquoted, unquote_digest_value}
use megaco_sip_gateway.Sip.Digest.Authorization.{escape_digest_value}

-- What `escapeDigestValue` makes of a byte
hide : ℕ → Bytes → Bytes
hide c rest =
    if c == b'\\' then b'\\' ∷ b'\\' ∷ rest else if c == b'"' then b'\\' ∷ b'"' ∷ rest else c ∷ rest

pub hide_all : Bytes → Bytes
hide_all [] = []
hide_all (c ∷ cs) = hide c (hide_all cs)

pub escape-hide_all : (s : Bytes) → escape_digest_value s ≡ hide_all s
unfolding escape_digest_value replace_all hide_all hide
escape-hide_all [] = refl
escape-hide_all (c ∷ cs) = ground (arith, escape-hide_all cs)

length-hide_all : (s : Bytes) → length s ≤ length (hide_all s)
unfolding hide_all hide
length-hide_all [] = omega arith
length-hide_all (c ∷ cs) = ground (arith, length-hide_all cs)

-- Text in UTF-8 without a line feed
pub data IsText : Bytes → Type 0 where
  end : IsText []
  ascii : (c : ℕ) (s : Bytes) → c < 128 → c ≢ b'\n' → IsText s → IsText (c ∷ s)
  two_bytes : (c d : ℕ) (s : Bytes) → is_two c d ≡ true → IsText s → IsText (c ∷ d ∷ s)
  three_bytes : (c d e : ℕ) (s : Bytes) → is_three c d e ≡ true → IsText s → IsText (c ∷ d ∷ e ∷ s)
  four_bytes :
      (c d e f : ℕ) (s : Bytes) → is_four c d e f ≡ true → IsText s → IsText (c ∷ d ∷ e ∷ f ∷ s)

-- A byte of a longer character is not escaped.
hide-high : (c : ℕ) (rest : Bytes) → 128 ≤ c → hide c rest ≡ c ∷ rest
unfolding hide
hide-high c rest h = ground (arith, h)

hide-high2 : (c d : ℕ) (rest : Bytes) → 128 ≤ c → 128 ≤ d → hide c (hide d rest) ≡ c ∷ d ∷ rest
hide-high2 c d rest h h' = hide-high c (hide d rest) h ∙ ap (λ t. c ∷ t) (hide-high d rest h')

closed-read : (fuel : ℕ) → unquote_text (suc fuel) (b'"' ∷ []) ≡ some []
unfolding unquote_text
closed-read fuel = refl

-- A byte of ASCII is read back in one round.
ascii-read :
    (fuel c : ℕ) (rest : Bytes)
    → c < 128
    → c ≢ b'\n'
    → unquote_text (suc fuel) (hide c rest ++ b'"' ∷ [])
      ≡ onto_text (c ∷ []) (unquote_text fuel (rest ++ b'"' ∷ []))
unfolding unquote_text hide unquote_char
ascii-read fuel c rest small line =
    let feed : (c == b'\n') ≡ false = ground (arith, line) in
    let low : leb 128 c ≡ false = ground (arith, small) in
    elim (Bool-cases (c == b'\\')) [
      | inl e ↦ let is : c ≡ b'\\' = ground (arith, e) in rw is refl
      | inr e ↦ elim (Bool-cases (c == b'"')) [
        | inl q ↦ let is : c ≡ b'"' = ground (arith, q) in rw is refl
        | inr q ↦ rw e (rw q (rw q (rw feed (rw e (rw low refl)))))
      ]
    ]

-- The escaped text is read back.
unquote_text-hide_all :
    (fuel : ℕ) (s : Bytes)
    → length s < fuel
    → IsText s
    → unquote_text fuel (hide_all s ++ b'"' ∷ []) ≡ some s
unfolding hide_all onto_text
unquote_text-hide_all zero s lt h = elim lt [ ]
unquote_text-hide_all (suc fuel) _ lt end = closed-read fuel
unquote_text-hide_all (suc fuel) _ lt (ascii c cs small line h) =
    ascii-read fuel c (hide_all cs) small line
    ∙ ap (onto_text (c ∷ [])) (unquote_text-hide_all fuel cs (omega arith) h)
unquote_text-hide_all (suc fuel) _ lt (two_bytes c d cs is h) =
    let (high_c, high_d) = is_two-high c d is in
    ap (λ t. unquote_text (suc fuel) (t ++ b'"' ∷ [])) (hide-high2 c d (hide_all cs) high_c high_d)
    ∙ (two-copied fuel c d (hide_all cs ++ b'"' ∷ []) is
        ∙ ap (onto_text (c ∷ d ∷ [])) (unquote_text-hide_all fuel cs (omega arith) h))
unquote_text-hide_all (suc fuel) _ lt (three_bytes c d e cs is h) =
    let (high_c, high_d, high_e) = is_three-high c d e is in
    ap (λ t. unquote_text (suc fuel) (t ++ b'"' ∷ []))
      (hide-high c (hide d (hide e (hide_all cs))) (omega arith)
        ∙ ap (λ t. c ∷ t) (hide-high2 d e (hide_all cs) high_d high_e))
    ∙ (three-copied fuel c d e (hide_all cs ++ b'"' ∷ []) is
        ∙ ap (onto_text (c ∷ d ∷ e ∷ [])) (unquote_text-hide_all fuel cs (omega arith) h))
unquote_text-hide_all (suc fuel) _ lt (four_bytes c d e f cs is h) =
    let (high_c, high_d, high_e, high_f) = is_four-high c d e f is in
    ap (λ t. unquote_text (suc fuel) (t ++ b'"' ∷ []))
      (hide-high2 c d (hide e (hide f (hide_all cs))) (omega arith) high_d
        ∙ ap (λ t. c ∷ d ∷ t) (hide-high2 e f (hide_all cs) high_e high_f))
    ∙ (four-copied fuel c d e f (hide_all cs ++ b'"' ∷ []) is
        ∙ ap (onto_text (c ∷ d ∷ e ∷ f ∷ [])) (unquote_text-hide_all fuel cs (omega arith) h))

-- Text between two bytes that are no white space is not trimmed.
pub trim_space-ends :
    (a c : ℕ) (s : Bytes)
    → is_white a ≡ false
    → is_white c ≡ false
    → trim_space (a ∷ (s ++ c ∷ [])) ≡ a ∷ (s ++ c ∷ [])
unfolding trim_space trim_left
trim_space-ends a c s p q = rw p (trim_right-last is_white (a ∷ s) c q)

unquoted-hide_all : (s : Bytes) → IsText s → unquoted (b'"' ∷ (hide_all s ++ b'"' ∷ [])) ≡ s
unfolding unquoted unquote
unquoted-hide_all s h =
    let text : Bytes = hide_all s ++ b'"' ∷ [] in
    let enough : length s < suc (length text) =
      omega (arith, length-hide_all s, length-append (hide_all s) (b'"' ∷ [])) in
    rw (unquote_text-hide_all (suc (length text)) s enough h) refl

-- A value that is UTF-8 text without a line feed and has been escaped and put in quotation marks
-- is read back as it was.
pub unquote-escape :
    (s : Bytes) → IsText s → unquote_digest_value (b'"' ∷ (escape_digest_value s ++ b'"' ∷ [])) ≡ s
unfolding unquote_digest_value
unquote-escape s h = rw (escape-hide_all s) (
    ap unquoted
      (trim_space-ends b'"' b'"' (hide_all s) (unfold is_white in refl) (unfold is_white in refl))
    ∙ unquoted-hide_all s h)

-- Text in front of the first piece
unfoldable pub onto_pieces : Bytes → List Bytes → List Bytes
onto_pieces [] ps = ps
onto_pieces (c ∷ cs) ps = onto_part c (onto_pieces cs ps)

pub onto_pieces-cons : (s p : Bytes) (ps : List Bytes) → onto_pieces s (p ∷ ps) ≡ (s ++ p) ∷ ps
unfolding onto_pieces onto_part
onto_pieces-cons [] p ps = refl
onto_pieces-cons (c ∷ cs) p ps = rw (onto_pieces-cons cs p ps) refl

pub onto_pieces-append :
    (a b : Bytes) (ps : List Bytes) → onto_pieces (a ++ b) ps ≡ onto_pieces a (onto_pieces b ps)
unfolding onto_pieces
onto_pieces-append [] b ps = refl
onto_pieces-append (c ∷ cs) b ps = ap (onto_part c) (onto_pieces-append cs b ps)

-- What stays outside quotations and is not cut
abbrev pub is_special : ℕ → Bool
is_special c = c == b'"' || c == b',' || is_white c

pub pieces-plain :
    (s t : Bytes)
    → AllNot is_special s
    → pieces false false (s ++ t) ≡ onto_pieces s (pieces false false t)
unfolding pieces onto_pieces
pieces-plain [] t h = refl
pieces-plain (c ∷ cs) t h = rw (sym (pieces-plain cs t h.1)) (ground (arith, h.0))

pub pieces-quoted :
    (s t : Bytes)
    → pieces true false (hide_all s ++ b'"' ∷ t)
      ≡ onto_pieces (hide_all s ++ b'"' ∷ []) (pieces false false t)
unfolding pieces onto_pieces hide_all hide
pieces-quoted [] t = refl
pieces-quoted (c ∷ cs) t = ground (arith, pieces-quoted cs t)

-- A parameter that is one piece, whatever stands behind it, and that is not trimmed
pub record IsWhole (p : Bytes) : Type 0 where
  pub one : (t : Bytes) → pieces false false (p ++ t) ≡ onto_pieces p (pieces false false t)
  pub trimmed : trim_space p ≡ p
  pub indented : trim_space (b' ' ∷ p) ≡ p
