-- ===== src/Sip/Digest/Unquote.antt =====
-- `strconv.Unquote`: text in double quotation marks, one character in single ones, or raw text in
-- back quotes. A byte that belongs to no UTF-8 character becomes the character U+FFFD.
pub mod Runes
use megaco_sip_gateway.Prelude.{
  Bool, ℕ, zero, suc, ◌+◌, ◌-◌, ◌*◌, ◌/◌, ◌%◌, Bytes, ◌&&◌, ◌||◌, [], ◌∷◌, ◌++◌, Option, none, some,
  ◌==◌, ltb, leb, length, if◌then◌else◌,
}

hex_value : ℕ → Option ℕ
hex_value c =
    if leb b'0' c && leb c b'9'
    then some (c - b'0')
    else if leb b'a' c && leb c b'f'
    then some (c - b'a' + 10)
    else if leb b'A' c && leb c b'F'
    then some (c - b'A' + 10)
    else none

octal_value : ℕ → Option ℕ
octal_value c = if leb b'0' c && leb c b'7' then some (c - b'0') else none

-- A number of `n` digits, and the rest
number : (ℕ → Option ℕ) → ℕ → ℕ → ℕ → Bytes → Option (ℕ × Bytes)
number digit base zero acc s = some (acc, s)
number digit base (suc n) acc [] = none
number digit base (suc n) acc (c ∷ cs) = elim (digit c) [
  | none ↦ none
  | some d ↦ number digit base n (acc * base + d) cs
]

-- `utf8.AppendRune`, for what `utf8.ValidRune` accepts
utf8 : ℕ → Option Bytes
utf8 r =
    if ltb r 128
    then some (r ∷ [])
    else if ltb r 2048
    then some ((192 + r / 64) ∷ (128 + r % 64) ∷ [])
    else if (leb 55296 r && leb r 57343) || ltb 1114111 r
    then none
    else if ltb r 65536
    then some ((224 + r / 4096) ∷ (128 + r / 64 % 64) ∷ (128 + r % 64) ∷ [])
    else some
        ((240 + r / 262144) ∷ (128 + r / 4096 % 64) ∷ (128 + r / 64 % 64) ∷ (128 + r % 64) ∷ [])

as_byte : Option (ℕ × Bytes) → Option (Bytes × Bytes)
as_byte none = none
as_byte (some (value, rest)) = if ltb value 256 then some (value ∷ [], rest) else none

as_rune : Option (ℕ × Bytes) → Option (Bytes × Bytes)
as_rune none = none
as_rune (some (value, rest)) = elim (utf8 value) [ none ↦ none | some text ↦ some (text, rest) ]

unfoldable pub simple : ℕ → Option ℕ
simple c =
    if c == b'a'
    then some 7
    else if c == b'b'
    then some 8
    else if c == b'f'
    then some 12
    else if c == b'n'
    then some 10
    else if c == b'r'
    then some 13
    else if c == b't'
    then some 9
    else if c == b'v'
    then some 11
    else if c == b'\\'
    then some b'\\'
    else none

-- What stands behind a backslash
unfoldable pub escaped : ℕ → ℕ → Bytes → Option (Bytes × Bytes)
unfolding simple as_byte as_rune utf8 number hex_value octal_value
escaped quote c cs =
    if c == b'x'
    then as_byte (number hex_value 16 2 0 cs)
    else if c == b'u'
    then as_rune (number hex_value 16 4 0 cs)
    else if c == b'U'
    then as_rune (number hex_value 16 8 0 cs)
    else if leb b'0' c && leb c b'7'
    then as_byte (number octal_value 8 3 0 (c ∷ cs))
    else if c == b'"' || c == b'\''
    then (if c == quote then some (c ∷ [], cs) else none)
    else elim (simple c) [ none ↦ none | some d ↦ some (d ∷ [], cs) ]

is_between : ℕ → ℕ → ℕ → Bool
is_between low high c = leb low c && leb c high

is_continuation : ℕ → Bool
is_continuation c = is_between 128 191 c

-- The second byte of a character of three or four bytes, behind its first
second_of_three : ℕ → ℕ → Bool
second_of_three c d =
    if c == 224
    then is_between 160 191 d
    else if c == 237
    then is_between 128 159 d
    else is_between 225 239 c && is_continuation d

second_of_four : ℕ → ℕ → Bool
second_of_four c d =
    if c == 240
    then is_between 144 191 d
    else if c == 244
    then is_between 128 143 d
    else is_between 241 243 c && is_continuation d

unfoldable pub is_two : ℕ → ℕ → Bool
unfolding is_between is_continuation
is_two c d = is_between 194 223 c && is_continuation d

unfoldable pub is_three : ℕ → ℕ → ℕ → Bool
unfolding second_of_three is_between is_continuation
is_three c d e = second_of_three c d && is_continuation e

unfoldable pub is_four : ℕ → ℕ → ℕ → ℕ → Bool
unfolding second_of_four is_between is_continuation
is_four c d e f = second_of_four c d && is_continuation e && is_continuation f

-- `string(utf8.RuneError)`
abbrev pub rune_error : Bytes
rune_error = 239 ∷ 191 ∷ 189 ∷ []

-- `utf8.DecodeRuneInString` for a first byte from 128 on: the bytes of the character that it
-- yields, and the rest
unfoldable pub decode_rune : ℕ → Bytes → Bytes × Bytes
unfolding is_two is_three is_four
decode_rune c [] = (rune_error, [])
decode_rune c (d ∷ []) = if is_two c d then (c ∷ d ∷ [], []) else (rune_error, d ∷ [])
decode_rune c (d ∷ e ∷ []) =
    if is_two c d
    then (c ∷ d ∷ [], e ∷ [])
    else if is_three c d e
    then (c ∷ d ∷ e ∷ [], [])
    else (rune_error, d ∷ e ∷ [])
decode_rune c (d ∷ e ∷ f ∷ s) =
    if is_two c d
    then (c ∷ d ∷ [], e ∷ f ∷ s)
    else if is_three c d e
    then (c ∷ d ∷ e ∷ [], f ∷ s)
    else if is_four c d e f
    then (c ∷ d ∷ e ∷ f ∷ [], s)
    else (rune_error, d ∷ e ∷ f ∷ s)

plain_char : ℕ → Bytes → Bytes × Bytes
plain_char c cs = if leb 128 c then decode_rune c cs else (c ∷ [], cs)

behind_backslash : ℕ → Bytes → Option (Bytes × Bytes)
behind_backslash quote [] = none
behind_backslash quote (d ∷ ds) = escaped quote d ds

-- `UnquoteChar`, for a first byte that is not the quotation mark; a line feed is an error.
unfoldable pub unquote_char : ℕ → ℕ → Bytes → Option (Bytes × Bytes)
unfolding behind_backslash escaped plain_char decode_rune
unquote_char quote c cs =
    if c == b'\n'
    then none
    else if c == b'\\'
    then behind_backslash quote cs
    else some (plain_char c cs)

unfoldable pub onto_text : Bytes → Option Bytes → Option Bytes
onto_text text none = none
onto_text text (some rest) = some (text ++ rest)

-- The text up to the closing mark, which is the last byte; a round leaves a shorter text.
unfoldable pub unquote_text : ℕ → Bytes → Option Bytes
unfolding unquote_char onto_text
unquote_text zero s = none
unquote_text (suc fuel) [] = none
unquote_text (suc fuel) (c ∷ cs) =
    let closing : Option Bytes = elim cs [ [] ↦ some [] | d ∷ ds ↦ none ] in
    let more : Option Bytes = elim (unquote_char b'"' c cs) [
      | none ↦ none
      | some (text, rest) ↦ onto_text text (unquote_text fuel rest)
    ] in
    if c == b'"' then closing else more

closed : Option (Bytes × Bytes) → Option Bytes
closed (some (text, c ∷ [])) = if c == b'\'' then some text else none
closed _ = none

-- One character, or none
unquote_one : Bytes → Option Bytes
unquote_one [] = none
unquote_one (c ∷ cs) =
    let empty : Option Bytes = elim cs [ [] ↦ some [] | d ∷ ds ↦ none ] in
    if c == b'\'' then empty else closed (unquote_char b'\'' c cs)

-- Raw text without its carriage returns
raw_text : Bytes → Option Bytes
raw_text [] = none
raw_text (c ∷ cs) =
    let closing : Option Bytes = elim cs [ [] ↦ some [] | d ∷ ds ↦ none ] in
    let more = raw_text cs in
    if c == b'`' then closing else if c == b'\r' then more else onto_text (c ∷ []) more

unfoldable pub unquote : Bytes → Option Bytes
unfolding unquote_text unquote_one raw_text unquote_char escaped simple as_byte as_rune utf8 number
    hex_value octal_value closed onto_text
unquote [] = none
unquote (q ∷ s) =
    if q == b'"'
    then unquote_text (suc (length s)) s
    else if q == b'\''
    then unquote_one s
    else if q == b'`'
    then raw_text s
    else none
