-- ===== src/H248/Interop/CallerId.antt =====
-- `DecodeAndispCallerID`, `allDigits`, `validCallerIDTimestamp` of internal/h248/interop.go.
use megaco_sip_gateway.Prelude.{
  ℕ, zero, suc, ◌+◌, ◌-◌, ◌*◌, ◌%◌, ◌≤◌, Bytes, lit, is_empty, Bool, true, false, not, ◌&&◌, ◌||◌,
  [], ◌∷◌, Option, none, some, ◌==◌, leb, ltb, if◌then◌else◌, length, take, drop, ◌≡◌, refl, arith,
  inl, inr, Bool-cases,
}
use megaco_sip_gateway.Prelude.Decimal.{is_digit, parse_digits}
use megaco_sip_gateway.Prelude.Strings.{trim}
use megaco_sip_gateway.Prelude.Regex.{
  is_re_space, star, capture_plus, word, find_match, at_word, or_else,
}

-- `[0-9a-f]`, without regard to case
is_hex : ℕ → Bool
is_hex c = (leb b'0' c && leb c b'9') || (leb b'a' c && leb c b'f') || (leb b'A' c && leb c b'F')

-- `ddb\s*=\s*"?([0-9a-f]+)`
ddb : Bytes → Option Bytes
ddb = word (lit "ddb") (
    star is_re_space (
      word (b'=' ∷ []) (
        star is_re_space λ s.
          or_else (word (b'"' ∷ []) (capture_plus is_hex λ digits _. some digits) s)
            (capture_plus is_hex (λ digits _. some digits) s))))

-- `[^}]*\b` and then `ddb`, as far to the right as it matches.
last_ddb : Option ℕ → Bytes → Option Bytes
last_ddb before [] = none
last_ddb before (x ∷ xs) =
    let here = if at_word before then ddb (x ∷ xs) else none in
    let later = or_else (last_ddb (some x) xs) here in if x == b'}' then none else later

-- `(?is)\bandisp/dwa\s*\{[^}]*\bddb\s*=\s*"?([0-9a-f]+)`
andisp : Option ℕ → Bytes → Option Bytes
andisp before s =
    if at_word before
    then word (lit "andisp/dwa") (star is_re_space (word (b'{' ∷ []) (last_ddb (some b'{')))) s
    else none

hex_value : ℕ → ℕ
hex_value c = if leb c b'9' then c - b'0' else if leb c b'F' then c - b'A' + 10 else c - b'a' + 10

-- `hex.DecodeString`, for an even number of digits
hex_decode : Bytes → Bytes
hex_decode [] = []
hex_decode (x ∷ []) = []
hex_decode (x ∷ y ∷ rest) = (hex_value x * 16 + hex_value y) ∷ hex_decode rest

printable : Bytes → Bytes
printable [] = []
printable (x ∷ xs) = if leb 0x20 x && leb x 0x7e then x ∷ printable xs else printable xs

each_digit : Bytes → Bool
each_digit [] = true
each_digit (x ∷ xs) = is_digit x && each_digit xs

-- `allDigits`
unfoldable pub all_digits : Bytes → Bool
unfolding each_digit is_digit
all_digits s = each_digit s && not (is_empty s)

abbrev number_of : Bytes → ℕ
number_of s = elim (parse_digits 0 s) [ none ↦ 0 | some n ↦ n ]

-- `validCallerIDTimestamp`
unfoldable pub valid_caller_id_timestamp : Bytes → Bool
unfolding all_digits
valid_caller_id_timestamp value =
    let month = number_of (take 2 value) in
    let day = number_of (take 2 (drop 2 value)) in
    let hour = number_of (take 2 (drop 4 value)) in
    let minute = number_of (take 2 (drop 6 value)) in
    length value == 8
    && all_digits value
    && leb 1 month
    && leb month 12
    && leb 1 day
    && leb day 31
    && leb hour 23
    && leb minute 59

candidate_of : Bytes → Bytes
candidate_of text =
    let candidate = drop 8 text in
    if ltb 8 (length text)
      && all_digits text
      && valid_caller_id_timestamp (take 8 text)
      && leb 3 (length candidate)
      && leb (length candidate) 20
    then candidate
    else []

caller_of : Option Bytes → Bytes
caller_of none = []
caller_of (some digits) =
    if length digits % 2 == 0
    then candidate_of (trim (printable (hex_decode digits)) (b' ' ∷ b'$' ∷ 0 ∷ []))
    else []

-- `DecodeAndispCallerID`; `""` for a payload that it does not know
unfoldable pub decode_andisp_caller_id : Bytes → Bytes
unfolding caller_of candidate_of printable hex_decode andisp last_ddb ddb is_hex hex_value
decode_andisp_caller_id raw = caller_of (find_match andisp none raw)

candidate_lem :
    (text : Bytes)
    → is_empty (candidate_of text) ≡ false
    → (all_digits text ≡ true)
      × (3 ≤ length (candidate_of text))
      × (length (candidate_of text) ≤ 20)
      × (candidate_of text ≡ drop 8 text)
unfolding candidate_of
candidate_lem text h =
    elim (Bool-cases (
      ltb 8 (length text)
      && all_digits text
      && valid_caller_id_timestamp (take 8 text)
      && leb 3 (length (drop 8 text))
      && leb (length (drop 8 text)) 20)) [
        | inl e ↦ rw e (ground (arith, e), ground (arith, e), ground (arith, e), refl)
        | inr e ↦ absurd (ground (arith, h, e))
      ]

each_digit-drop : (n : ℕ) (s : Bytes) → each_digit s ≡ true → each_digit (drop n s) ≡ true
unfolding each_digit
each_digit-drop zero s h = h
each_digit-drop (suc n) [] h = refl
each_digit-drop (suc n) (x ∷ xs) h = each_digit-drop n xs (ground arith)

-- A caller number that is decoded and not empty has from 3 to 20 characters, all of them digits.
pub decoded_caller_lem :
    (raw : Bytes)
    → is_empty (decode_andisp_caller_id raw) ≡ false
    → (all_digits (decode_andisp_caller_id raw) ≡ true)
      × (3 ≤ length (decode_andisp_caller_id raw))
      × (length (decode_andisp_caller_id raw) ≤ 20)
unfolding decode_andisp_caller_id all_digits
decoded_caller_lem raw h = go (find_match andisp none raw) h
  where
    go :
        (o : Option Bytes)
        → is_empty (caller_of o) ≡ false
        → (all_digits (caller_of o) ≡ true)
          × (3 ≤ length (caller_of o))
          × (length (caller_of o) ≤ 20)
    go none h = cc
    go (some digits) h = elim (Bool-cases (length digits % 2 == 0)) [
      | inl e ↦
          let text = trim (printable (hex_decode digits)) (b' ' ∷ b'$' ∷ 0 ∷ []) in
          let (d, low, high, is) = candidate_lem text (ground (arith, h, e)) in
          rw e (ground (arith, is, d, each_digit-drop 8 text, h), low, high)
      | inr e ↦ absurd (ground (arith, h, e))
    ]
