-- ===== src/H248/Syntax.antt =====
-- The structural parser of internal/h248/message.go: braces, assignments, names. A position in
-- the text is the text from there on.
pub mod Rounds
use megaco_sip_gateway.Prelude.{
  ℕ, zero, suc, ◌-◌, Bytes, lit, to_upper, has_prefix, Bool, false, not, ◌&&◌, ◌||◌, List, [], ◌∷◌,
  Option, none, some, ◌==◌, leb, if◌then◌else◌, length, take, drop,
}
use megaco_sip_gateway.Prelude.Strings.{trim, trim_space}

-- `isSpace`
unfoldable pub is_space : ℕ → Bool
is_space c = c == b' ' || c == b'\t' || c == b'\r' || c == b'\n'

-- `isNameChar`
unfoldable pub is_name_char : ℕ → Bool
is_name_char c =
    (leb b'a' c && leb c b'z')
    || (leb b'A' c && leb c b'Z')
    || (leb b'0' c && leb c b'9')
    || c == b'_'

abbrev pub one_more : Option ℕ → Option ℕ
one_more none = none
one_more (some i) = some (suc i)

-- The loop of `balancedEnd`: the byte before, the depth, whether a quotation is open.
unfoldable pub balance : ℕ → ℕ → Bool → Bytes → Option ℕ
balance before depth quoted [] = none
balance before depth quoted (x ∷ xs) =
    let toggles = x == b'"' && not (before == b'\\') in
    let depth' =
      if quoted
      then depth
      else if x == b'{'
      then suc depth
      else if x == b'}'
      then depth - 1
      else depth in
    let rest = balance x depth' (if toggles then not quoted else quoted) xs in
    if not quoted && x == b'}' && depth == 1 then some 0 else one_more rest

-- `balancedEnd(text, start)` where `text[start]` is `{`, counted from `start`; `none` for -1.
unfoldable pub balanced_end : Bytes → Option ℕ
unfolding balance
balanced_end s = balance 0 0 false s

pub record Assignment : Type 0 where
  pub name : Bytes
  pub value : Bytes
  pub body : Bytes
  pub optional : Bool

unfoldable pub skip_while : (ℕ → Bool) → Bytes → Bytes
skip_while p [] = []
skip_while p (x ∷ xs) = let rest = skip_while p xs in if p x then rest else x ∷ xs

unfoldable pub take_while : (ℕ → Bool) → Bytes → Bytes
take_while p [] = []
take_while p (x ∷ xs) = let rest = take_while p xs in if p x then x ∷ rest else []

after_braces : Bytes → Option ℕ → Bytes
after_braces s none = []
after_braces s (some end) = drop (suc end) s

-- `skipUnknownItem`
unfoldable pub skip_unknown_item : Bytes → Bytes
unfolding after_braces
skip_unknown_item [] = []
skip_unknown_item (x ∷ xs) =
    let rest = skip_unknown_item xs in
    if x == b',' || x == b'}'
    then x ∷ xs
    else if x == b'{'
    then after_braces (x ∷ xs) (balanced_end (x ∷ xs))
    else rest

-- `isSpace(text[i]) || text[i] == ','`
abbrev is_gap : ℕ → Bool
is_gap c = is_space c || c == b','

-- `isNameChar(text[i]) || text[i] == '-'`
abbrev is_item_char : ℕ → Bool
is_item_char c = is_name_char c || c == b'-'

is_value_char : ℕ → Bool
is_value_char c = not (is_space c || c == b'{' || c == b'}' || c == b',')

-- The text of a quotation up to its end, quotation mark included, and the rest.
quotation : ℕ → Bytes → Bytes × Bytes
quotation before [] = ([], [])
quotation before (x ∷ xs) =
    let more = quotation x xs in
    let whole : Bytes × Bytes = (x ∷ [], xs) in
    let longer : Bytes × Bytes = (x ∷ more.0, more.1) in
    if x == b'"' && not (before == b'\\') then whole else longer

-- The value behind `=`, and the rest.
item_value : Bytes → Bytes × Bytes
item_value [] = ([], [])
item_value (x ∷ xs) =
    let quoted = quotation x xs in
    if x == b'"'
    then (trim (trim_space (x ∷ quoted.0)) (b'"' ∷ []), quoted.1)
    else (trim_space (take_while is_value_char (x ∷ xs)), skip_while is_value_char (x ∷ xs))

braces_of : Bytes → Option ℕ → Bytes
braces_of s none = s
braces_of s (some end) = take (suc end) s

-- The body in braces, if there is one, and the rest.
item_body : Bytes → Bytes × Bytes
item_body [] = ([], [])
item_body (x ∷ xs) =
    if x == b'{'
    then (braces_of (x ∷ xs) (balanced_end (x ∷ xs)), after_braces (x ∷ xs) (balanced_end (x ∷ xs)))
    else ([], x ∷ xs)

with_option : Bytes → Bytes → Bytes → Assignment
with_option name value body =
    let optional = has_prefix (to_upper name) (lit "O-") in
    record {
      name = if optional then drop 2 name else name;
      value = value;
      body = body;
      optional = optional;
    }

pub data Round : Type 0 where
  stop : Round
  skip : Bytes → Round
  item : Assignment → Bytes → Round

-- Behind the name: an assignment, or an item that is skipped.
after_name : Bytes → Bytes → Round
after_name name [] = skip (skip_unknown_item [])
after_name name (x ∷ xs) =
    let value = item_value (skip_while is_space xs) in
    let body = item_body (skip_while is_space value.1) in
    if x == b'='
    then item (with_option (trim_space name) value.0 body.0) body.1
    else skip (skip_unknown_item (x ∷ xs))

at_item : Bytes → Round
at_item [] = stop
at_item (x ∷ xs) =
    if x == b'}'
    then stop
    else if is_item_char x
    then after_name (take_while is_item_char (x ∷ xs))
        (skip_while is_space (skip_while is_item_char (x ∷ xs)))
    else skip xs

-- One round of the loop of `parseAssignments`.
unfoldable pub round : Bytes → Round
unfolding at_item after_name with_option item_body braces_of after_braces item_value quotation
    is_value_char skip_while take_while
round s = at_item (skip_while is_gap s)

pub rounds : ℕ → Bytes → List Assignment
rounds zero s = []
rounds (suc fuel) s = elim (round s) [
  | stop ↦ []
  | skip rest ↦ rounds fuel rest
  | item a rest ↦ a ∷ rounds fuel rest
]

-- `parseAssignments`: the fuel is a round for each byte, since every round shortens the text.
unfoldable pub parse_assignments : Bytes → List Assignment
unfolding rounds
parse_assignments s = rounds (suc (length s)) s

between_braces : Bytes → Option ℕ → Option Bytes
between_braces xs none = none
between_braces xs (some end) = some (take (end - 1) xs)

braced_body : Bytes → Option Bytes
braced_body [] = none
braced_body (x ∷ xs) = if x == b'{' then between_braces xs (balanced_end (x ∷ xs)) else none

-- `assignmentBody(text, after)`, for the text behind `after`
unfoldable pub assignment_body : Bytes → Option Bytes
unfolding braced_body between_braces skip_while
assignment_body text = braced_body (skip_while is_space text)

ends_in : ℕ → Bytes → Bool
ends_in c [] = false
ends_in c (x ∷ []) = x == c
ends_in c (x ∷ y ∷ ys) = ends_in c (y ∷ ys)

without_last : Bytes → Bytes
without_last [] = []
without_last (x ∷ []) = []
without_last (x ∷ y ∷ ys) = x ∷ without_last (y ∷ ys)

inside_braces : Bytes → Bytes
inside_braces [] = []
inside_braces (x ∷ xs) = if x == b'{' && ends_in b'}' xs then without_last xs else x ∷ xs

-- `trimOuterBraces`
unfoldable pub trim_outer_braces : Bytes → Bytes
unfolding inside_braces ends_in without_last trim_space
trim_outer_braces text = inside_braces (trim_space text)
