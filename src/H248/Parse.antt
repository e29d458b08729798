-- ===== src/H248/Parse.antt =====
-- `Parse` of internal/h248/message.go with its regular expressions, on ASCII text.
use megaco_sip_gateway.Prelude.{
  ℕ, ◌-◌, ◌^◌, Bytes, lit, is_empty, same, to_lower, to_upper, Bool, true, false, not, ◌&&◌, List,
  [], ◌∷◌, ◌++◌, Option, none, some, ◌==◌, if◌then◌else◌, pos, negsuc,
}
use megaco_sip_gateway.Prelude.Result.{Result, ok, err}
use megaco_sip_gateway.Prelude.Decimal.{atoi}
use megaco_sip_gateway.Prelude.Strings.{trim, trim_space}
use megaco_sip_gateway.Prelude.Regex.{
  is_re_space, is_re_digit, star, plus, capture_plus, word, exactly, one_of, equals, or_else,
  find_match, find_all, at_word, is_word,
}
use megaco_sip_gateway.H248.Syntax.{
  assignment_body, parse_assignments, round, trim_outer_braces, is_space, is_name_char,
  balanced_end,
}
use megaco_sip_gateway.H248.Message.{
  Message, Command, canonical_command, canonical_transaction_type, parse_actions, is_command,
}

abbrev is_dark : ℕ → Bool
is_dark c = not (is_re_space c)

header_tail : Bytes → Option (Bytes × Bytes)
header_tail = star is_re_space (
    word (lit "/") (
      star is_re_space (
        capture_plus is_re_digit
          λ version. plus is_re_space (capture_plus is_dark λ mid _. some (version, mid)))))

-- `headerRe`, at the start of the text: the version and the MID
unfoldable pub header_of : Bytes → Option (Bytes × Bytes)
unfolding header_tail one_of
header_of = one_of word (lit "megaco" ∷ lit "!" ∷ []) λ _. header_tail

-- `transactionRe`: the type as it is written, the ID, and the text behind the match
transaction_at : Option ℕ → Bytes → Option (Bytes × Bytes × Bytes)
transaction_at before s =
    if at_word before
    then one_of word
        (lit "transaction" ∷ lit "reply" ∷ lit "pending" ∷ lit "t" ∷ lit "p" ∷ lit "pn" ∷ [])
        (λ name. equals (capture_plus is_re_digit λ id rest. some (name, id, rest))) s
    else none

unfoldable pub transaction_of : Bytes → Option (Bytes × Bytes × Bytes)
unfolding transaction_at one_of equals find_match
transaction_of = find_match transaction_at none

is_context : ℕ → Bool
is_context c = not (c == b'{') && is_dark c

-- `contextRe`
context_at : Option ℕ → Bytes → Option Bytes
context_at before s =
    if at_word before
    then word (lit "c") (equals (capture_plus is_context λ id _. some id)) s
    else none

-- `errorRe`
error_at : Option ℕ → Bytes → Option Bytes
error_at before s =
    if at_word before
    then one_of word (lit "error" ∷ lit "er" ∷ [])
        (λ _. equals (capture_plus is_re_digit λ code _. some code)) s
    else none

is_profile : ℕ → Bool
is_profile c = not (c == b',') && not (c == b'}') && is_dark c && not (c == b'"')

profile_text : Bytes → Option Bytes
profile_text = capture_plus is_profile λ profile _. some profile

-- `profileRe`; a quotation mark before the text is passed over.
profile_at : Option ℕ → Bytes → Option Bytes
profile_at before s =
    if at_word before
    then one_of word (lit "profile" ∷ lit "pf" ∷ [])
        (λ _. equals λ rest. or_else (word (b'"' ∷ []) profile_text rest) (profile_text rest)) s
    else none

onto : ℕ → Option (Bytes × Bytes) → Option (Bytes × Bytes)
onto x none = none
onto x (some (text, rest)) = some (x ∷ text, rest)

-- Behind `\{`: `[^{}]*(?:\{[^{}]*\}[^{}]*)*\}`, and whether an inner brace is open. No two ways to
-- match the pattern end in different places.
braced : Bool → Bytes → Option (Bytes × Bytes)
braced inner [] = none
braced inner (x ∷ xs) =
    let rest =
      onto x (braced (if x == b'{' then true else if x == b'}' then false else inner) xs) in
    if x == b'{' && inner then none else if x == b'}' && not inner then some (x ∷ [], xs) else rest

-- `(\{…\})?`
optional_body : Bytes → Bytes × Bytes
optional_body [] = ([], [])
optional_body (x ∷ xs) =
    if x == b'{'
    then elim (onto x (braced false xs)) [ none ↦ ([], x ∷ xs) | some found ↦ found ]
    else ([], x ∷ xs)

is_termination : ℕ → Bool
is_termination c = not (c == b'{') && not (c == b'}') && is_dark c && not (c == b',')

pub record Found : Type 0 where
  pub name : Bytes
  pub termination : Bytes
  pub body : Bytes

found_at : Bytes → Bytes → Bytes → Option (Found × Bytes)
found_at name termination s =
    let body = optional_body s in
    some (record { name = name; termination = termination; body = body.0 }, body.1)

-- What both patterns of commands have behind the name
command_tail : Bytes → Bytes → Option (Found × Bytes)
command_tail name = equals λ s.
    or_else (capture_plus is_termination (λ value. star is_re_space (found_at name value)) s)
      (star is_re_space (found_at name []) s)

-- `longCommandRe`
long_command_at : Option ℕ → Bytes → Option (Found × Bytes)
long_command_at before s =
    if at_word before
    then one_of word
        (lit "servicechange"
          ∷ lit "auditcapabilities"
          ∷ lit "auditvalue"
          ∷ lit "subtract"
          ∷ lit "modify"
          ∷ lit "notify"
          ∷ lit "move"
          ∷ lit "add"
          ∷ [])
        command_tail s
    else none

-- `compactCommandRe`
compact_command_at : Option ℕ → Bytes → Option (Found × Bytes)
compact_command_at before s =
    if at_word before
    then one_of exactly
        (lit "SC" ∷ lit "AC" ∷ lit "AV" ∷ lit "MF" ∷ lit "MV" ∷ lit "A" ∷ lit "S" ∷ lit "N" ∷ [])
        command_tail s
    else none

commands_from : Bytes → List Found → List Command
commands_from context_id [] = []
commands_from context_id (f ∷ rest) =
    record {
      name = canonical_command f.name;
      termination_id = trim (trim_space f.termination) (b'"' ∷ []);
      body = trim_space f.body;
      context_id = context_id;
      optional = false;
    }
    ∷ commands_from context_id rest

or_empty : Option Bytes → Bytes
or_empty none = []
or_empty (some s) = s

context_or : Bytes → Option Bytes → Bytes
context_or id none = id
context_or id (some found) = trim found (b'"' ∷ [])

-- The fallback for a message whose transaction holds no command
unfoldable pub scan_commands : Message → Message
unfolding commands_from context_or long_command_at compact_command_at command_tail found_at
    optional_body braced onto context_at is_context is_termination find_match find_all one_of
    exactly equals
scan_commands m =
    let context_id = context_or m.context_id (find_match context_at none m.raw) in
    record m {
      context_id = context_id;
      commands =
          m.commands
          ++ commands_from context_id
              (find_all long_command_at m.raw ++ find_all compact_command_at m.raw);
    }

-- `strconv.Atoi` gives the largest number where the text is beyond it.
version_of : Bytes → ℕ
version_of digits = elim (atoi digits) [
  | none ↦ 2 ^ 63 - 1
  | some (pos n) ↦ n
  | some (negsuc n) ↦ 0
]

with_header : Option (Bytes × Bytes) → Message → Message
with_header none m = m
with_header (some (version, mid)) m = record m { version = version_of version; mid = mid }

actions_in : Option Bytes → Message → Message
actions_in none m = m
actions_in (some body) m = parse_actions m body

with_transaction : Option (Bytes × Bytes × Bytes) → Message → Message
with_transaction none m = m
with_transaction (some (name, id, rest)) m =
    actions_in (assignment_body rest)
      (record m { transaction_type = canonical_transaction_type name; transaction_id = id })

no_commands : Message → Bool
no_commands m = elim m.commands [ [] ↦ true | c ∷ cs ↦ false ]

with_codes : Message → Message
with_codes m = record m {
  error_code = or_empty (find_match error_at none m.raw);
  service_change_profile = or_empty (find_match profile_at none m.raw);
}

abbrev blank : Bytes → Message
blank raw = record {
  raw = raw;
  version = 0;
  mid = [];
  transaction_type = [];
  transaction_id = [];
  context_id = [];
  error_code = [];
  service_change_profile = [];
  commands = [];
}

-- The transaction's structure first, the fallback where it has no command
unfoldable pub structured : Bytes → Message
unfolding with_header version_of with_transaction actions_in no_commands scan_commands
structured raw =
    let m = with_transaction (transaction_of raw) (with_header (header_of raw) (blank raw)) in
    if no_commands m then scan_commands m else m

pub data ParseError : Type 0 where
  empty_message unsupported : ParseError

accepted : Message → Result ParseError Message
accepted m = if no_commands m && is_empty m.transaction_id then err unsupported else ok m

-- `Parse`
unfoldable pub parse : Bytes → Result ParseError Message
unfolding with_codes or_empty error_at profile_at is_profile profile_text accepted no_commands
    structured trim_space trim transaction_of header_of atoi canonical_command parse_actions
    canonical_transaction_type assignment_body capture_plus plus is_word same to_lower is_command
    parse_assignments round trim_outer_braces is_space is_name_char balanced_end to_upper
parse text =
    let raw = trim_space text in
    if is_empty raw then err empty_message else accepted (with_codes (structured raw))
