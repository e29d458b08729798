-- ===== src/Sip/Digest/Splitting.antt =====
-- The parameters that internal/sip/digest.go joins, split again.
use mathlib.Core.List.{append-nil, append_assoc}
use megaco_sip_gateway.Prelude.{
  ℕ, Bytes, false, List, [], ◌∷◌, ◌++◌, ◌≡◌, ◌∙◌, refl, sym, ap, arith,
}
use megaco_sip_gateway.Prelude.Strings.{trim_space, trim_left, is_white, join}
use megaco_sip_gateway.Prelude.Strings.Laws.{AllNot, trim_left-AllNot, trim_right-AllNot}
use megaco_sip_gateway.Sip.Digest.Challenge.{pieces, onto_part, trim_all, split_digest_parameters}
use megaco_sip_gateway.Sip.Digest.Authorization.{escape_digest_value}
use megaco_sip_gateway.Sip.Digest.Quoting.{
  onto_pieces, onto_pieces-cons, onto_pieces-append, is_special, pieces-plain, pieces-quoted,
  IsWhole, hide_all, escape-hide_all, trim_space-ends,
}

separator : Bytes
separator = b',' ∷ b' ' ∷ []

abbrev pub AllWhole : List Bytes → Type 0
AllWhole [] = Unit
AllWhole (p ∷ ps) = IsWhole p × AllWhole ps

whole_last : (p : Bytes) → IsWhole p → pieces false false p ≡ p ∷ []
unfolding pieces
whole_last p h =
    ap (pieces false false) (sym (append-nil p))
    ∙ h.one []
    ∙ onto_pieces-cons p [] []
    ∙ rw append-nil refl

whole_then :
    (p t : Bytes) → IsWhole p → pieces false false (p ++ b',' ∷ t) ≡ p ∷ pieces false false t
unfolding pieces
whole_then p t h =
    h.one (b',' ∷ t) ∙ onto_pieces-cons p [] (pieces false false t) ∙ rw append-nil refl

-- Behind a comma stands the space of the separator.
split-join_behind :
    (p : Bytes) (ps : List Bytes)
    → AllWhole (p ∷ ps)
    → trim_all (onto_part b' ' (pieces false false (join separator (p ∷ ps)))) ≡ p ∷ ps
unfolding join pieces trim_all separator onto_part
split-join_behind p [] h = rw (whole_last p h.0) (ap (λ q. q ∷ []) h.0.indented)
split-join_behind p (q ∷ ps) h =
    rw (whole_then p (b' ' ∷ join separator (q ∷ ps)) h.0)
      (rw h.0.indented (ap (◌∷◌ p) (split-join_behind q ps h.1)))

-- Parameters that are whole are split as they were joined.
pub split-join :
    (p : Bytes) (ps : List Bytes)
    → AllWhole (p ∷ ps)
    → split_digest_parameters (join (b',' ∷ b' ' ∷ []) (p ∷ ps)) ≡ p ∷ ps
unfolding join split_digest_parameters trim_all separator pieces onto_part
split-join p [] h = rw (whole_last p h.0) (ap (λ q. q ∷ []) h.0.trimmed)
split-join p (q ∷ ps) h =
    rw (whole_then p (b' ' ∷ join separator (q ∷ ps)) h.0)
      (rw h.0.trimmed (ap (◌∷◌ p) (split-join_behind q ps h.1)))

white-special : (s : Bytes) → AllNot is_special s → AllNot is_white s
unfolding is_white
white-special [] h = tt
white-special (c ∷ cs) h = (ground (arith, h.0), white-special cs h.1)

trim_space-AllNot : (s : Bytes) → AllNot is_white s → trim_space s ≡ s
unfolding trim_space
trim_space-AllNot s h = rw (trim_left-AllNot is_white s h) (trim_right-AllNot is_white s h)

trim_space-indented : (s : Bytes) → trim_space (b' ' ∷ s) ≡ trim_space s
unfolding trim_space trim_left is_white
trim_space-indented s = refl

pub plain-IsWhole : (s : Bytes) → AllNot is_special s → IsWhole s
plain-IsWhole s h =
    let trimmed = trim_space-AllNot s (white-special s h) in
    record {
      one = λ t. pieces-plain s t h;
      trimmed = trimmed;
      indented = trim_space-indented s ∙ trimmed;
    }

quoted_one :
    (name value t : Bytes)
    → AllNot is_special name
    → pieces false false ((name ++ b'"' ∷ (hide_all value ++ b'"' ∷ [])) ++ t)
      ≡ onto_pieces (name ++ b'"' ∷ (hide_all value ++ b'"' ∷ [])) (pieces false false t)
unfolding pieces onto_pieces
quoted_one name value t h =
    let text : Bytes = b'"' ∷ (hide_all value ++ b'"' ∷ []) in
    let behind : text ++ t ≡ b'"' ∷ (hide_all value ++ b'"' ∷ t) =
      ap (◌∷◌ b'"') (append_assoc (hide_all value) (b'"' ∷ []) t) in
    ap (pieces false false) (append_assoc name text t ∙ ap (λ r. name ++ r) behind)
    ∙ pieces-plain name (b'"' ∷ (hide_all value ++ b'"' ∷ t)) h
    ∙ ap (λ r. onto_pieces name (onto_part b'"' r)) (pieces-quoted value t)
    ∙ sym (onto_pieces-append name text (pieces false false t))

quoted_trimmed :
    (a : ℕ) (name value : Bytes)
    → is_special a ≡ false
    → trim_space (a ∷ (name ++ b'"' ∷ (value ++ b'"' ∷ [])))
      ≡ a ∷ (name ++ b'"' ∷ (value ++ b'"' ∷ []))
unfolding is_white
quoted_trimmed a name value h =
    let whole = sym (append_assoc name (b'"' ∷ value) (b'"' ∷ [])) in
    rw whole (trim_space-ends a b'"' (name ++ b'"' ∷ value) (ground (arith, h)) refl)

-- A name, `=` and a quoted value of any text
pub quoted-IsWhole :
    (a : ℕ) (name value : Bytes)
    → AllNot is_special (a ∷ name)
    → IsWhole (a ∷ (name ++ b'"' ∷ (escape_digest_value value ++ b'"' ∷ [])))
quoted-IsWhole a name value h =
    let trimmed = quoted_trimmed a name (hide_all value) h.0 in
    rw (escape-hide_all value) (record {
      one = λ t. quoted_one (a ∷ name) value t h;
      trimmed = trimmed;
      indented = trim_space-indented _ ∙ trimmed;
    })
