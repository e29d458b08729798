-- ===== src/Sip/Digest/Unquote/Runes.antt =====
-- About the characters of more than one byte that `strconv.Unquote` copies.
use megaco_sip_gateway.Prelude.{
  ℕ, suc, ◌≤◌, Bytes, true, false, [], ◌∷◌, ◌==◌, leb, ◌≡◌, refl, arith,
}
use megaco_sip_gateway.Sip.Digest.Unquote.{
  is_between, is_continuation, second_of_three, second_of_four, is_two, is_three, is_four,
  decode_rune, plain_char, unquote_char, unquote_text, onto_text,
}

pub is_two-high : (c d : ℕ) → is_two c d ≡ true → (128 ≤ c) × (128 ≤ d)
unfolding is_two is_between is_continuation
is_two-high c d h = (ground (arith, h), ground (arith, h))

pub is_three-high : (c d e : ℕ) → is_three c d e ≡ true → (224 ≤ c) × (128 ≤ d) × (128 ≤ e)
unfolding is_three second_of_three is_between is_continuation
is_three-high c d e h = (ground (arith, h), ground (arith, h), ground (arith, h))

pub is_four-high :
    (c d e f : ℕ) → is_four c d e f ≡ true → (240 ≤ c) × (128 ≤ d) × (128 ≤ e) × (128 ≤ f)
unfolding is_four second_of_four is_between is_continuation
is_four-high c d e f h =
    (ground (arith, h), ground (arith, h), ground (arith, h), ground (arith, h))

not_two : (c d : ℕ) → 224 ≤ c → is_two c d ≡ false
unfolding is_two is_between is_continuation
not_two c d h = ground (arith, h)

not_three : (c d e : ℕ) → 240 ≤ c → is_three c d e ≡ false
unfolding is_three second_of_three is_between is_continuation
not_three c d e h = ground (arith, h)

decode_two : (c d : ℕ) (s : Bytes) → is_two c d ≡ true → decode_rune c (d ∷ s) ≡ (c ∷ d ∷ [], s)
unfolding decode_rune
decode_two c d [] h = rw h refl
decode_two c d (e ∷ []) h = rw h refl
decode_two c d (e ∷ f ∷ s) h = rw h refl

decode_three :
    (c d e : ℕ) (s : Bytes)
    → is_three c d e ≡ true
    → decode_rune c (d ∷ e ∷ s) ≡ (c ∷ d ∷ e ∷ [], s)
unfolding decode_rune
decode_three c d e [] h = rw (not_two c d (is_three-high c d e h).0) (rw h refl)
decode_three c d e (f ∷ s) h = rw (not_two c d (is_three-high c d e h).0) (rw h refl)

decode_four :
    (c d e f : ℕ) (s : Bytes)
    → is_four c d e f ≡ true
    → decode_rune c (d ∷ e ∷ f ∷ s) ≡ (c ∷ d ∷ e ∷ f ∷ [], s)
unfolding decode_rune
decode_four c d e f s h =
    let high = (is_four-high c d e f h).0 in
    rw (not_two c d (omega arith)) (rw (not_three c d e high) (rw h refl))

-- A character of more than one byte is copied in one round.
copied :
    (fuel c d : ℕ) (s text rest : Bytes)
    → 128 ≤ c
    → decode_rune c (d ∷ s) ≡ (text, rest)
    → unquote_text (suc fuel) (c ∷ d ∷ s) ≡ onto_text text (unquote_text fuel rest)
unfolding unquote_text unquote_char plain_char
copied fuel c d s text rest high h =
    let mark : (c == b'"') ≡ false = ground (arith, high) in
    let feed : (c == b'\n') ≡ false = ground (arith, high) in
    let slash : (c == b'\\') ≡ false = ground (arith, high) in
    let large : leb 128 c ≡ true = ground (arith, high) in
    rw mark (rw feed (rw slash (rw large (rw h refl))))

pub two-copied :
    (fuel c d : ℕ) (s : Bytes)
    → is_two c d ≡ true
    → unquote_text (suc fuel) (c ∷ d ∷ s) ≡ onto_text (c ∷ d ∷ []) (unquote_text fuel s)
two-copied fuel c d s h = copied fuel c d s _ _ (is_two-high c d h).0 (decode_two c d s h)

pub three-copied :
    (fuel c d e : ℕ) (s : Bytes)
    → is_three c d e ≡ true
    → unquote_text (suc fuel) (c ∷ d ∷ e ∷ s) ≡ onto_text (c ∷ d ∷ e ∷ []) (unquote_text fuel s)
three-copied fuel c d e s h =
    let high = (is_three-high c d e h).0 in
    copied fuel c d (e ∷ s) _ _ (omega arith) (decode_three c d e s h)

pub four-copied :
    (fuel c d e f : ℕ) (s : Bytes)
    → is_four c d e f ≡ true
    → unquote_text (suc fuel) (c ∷ d ∷ e ∷ f ∷ s)
      ≡ onto_text (c ∷ d ∷ e ∷ f ∷ []) (unquote_text fuel s)
four-copied fuel c d e f s h =
    let high = (is_four-high c d e f h).0 in
    copied fuel c d (e ∷ f ∷ s) _ _ (omega arith) (decode_four c d e f s h)
