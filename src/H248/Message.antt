-- ===== src/H248/Message.antt =====
-- internal/h248/message.go: the message, the names of its commands and the printers.
pub mod Names
use megaco_sip_gateway.Prelude.{
  ℕ, Bytes, String, lit, same, is_empty, to_lower, has_prefix, Bool, true, false, not, ◌&&◌, ◌||◌,
  List, [], ◌∷◌, ◌++◌, ◌==◌, if◌then◌else◌,
}
use megaco_sip_gateway.Prelude.Decimal.{itoa}
use megaco_sip_gateway.Prelude.Strings.{join, trim_space, trim, replace_all}
use megaco_sip_gateway.Net.{Resolver}
use megaco_sip_gateway.H248.Syntax.{Assignment, parse_assignments, trim_outer_braces}

pub record Command : Type 0 where
  pub name : Bytes
  pub termination_id : Bytes
  pub body : Bytes
  pub context_id : Bytes
  pub optional : Bool

pub record Message : Type 0 where
  pub raw : Bytes
  pub version : ℕ
  pub mid : Bytes
  pub transaction_type : Bytes
  pub transaction_id : Bytes
  pub context_id : Bytes
  pub error_code : Bytes
  pub service_change_profile : Bytes
  pub commands : List Command

abbrev either : Bytes → String → String → Bool
either name long short = same name (lit long) || same name (lit short)

-- `isCommand`
unfoldable pub is_command : Bytes → Bool
is_command name =
    same name (lit "ServiceChange")
    || same name (lit "Add")
    || same name (lit "Modify")
    || same name (lit "Subtract")
    || same name (lit "Move")
    || same name (lit "Notify")
    || same name (lit "AuditValue")
    || same name (lit "AuditCapabilities")

type_of : Bytes → Bytes → Bytes
type_of name lower =
    if either lower "transaction" "t"
    then lit "Transaction"
    else if either lower "reply" "p"
    then lit "Reply"
    else if either lower "pending" "pn"
    then lit "Pending"
    else name

-- `canonicalTransactionType`
unfoldable pub canonical_transaction_type : Bytes → Bytes
unfolding type_of
canonical_transaction_type name = type_of name (to_lower name)

command_of : Bytes → Bytes → Bytes
command_of name lower =
    if either lower "servicechange" "sc"
    then lit "ServiceChange"
    else if either lower "add" "a"
    then lit "Add"
    else if either lower "modify" "mf"
    then lit "Modify"
    else if either lower "subtract" "s"
    then lit "Subtract"
    else if either lower "move" "mv"
    then lit "Move"
    else if either lower "notify" "n"
    then lit "Notify"
    else if either lower "auditvalue" "av"
    then lit "AuditValue"
    else if either lower "auditcapabilities" "ac"
    then lit "AuditCapabilities"
    else name

-- `canonicalCommand`
unfoldable pub canonical_command : Bytes → Bytes
unfolding command_of
canonical_command name = command_of name (to_lower name)

-- `CompactCommand`
unfoldable pub compact_command : Bytes → Bytes
compact_command name =
    if same name (lit "ServiceChange")
    then lit "SC"
    else if same name (lit "Add")
    then lit "A"
    else if same name (lit "Modify")
    then lit "MF"
    else if same name (lit "Subtract")
    then lit "S"
    else if same name (lit "Move")
    then lit "MV"
    else if same name (lit "Notify")
    then lit "N"
    else if same name (lit "AuditValue")
    then lit "AV"
    else if same name (lit "AuditCapabilities")
    then lit "AC"
    else []

-- `SimpleCommandReply`
unfoldable pub simple_command_reply : Command → Bytes
unfolding compact_command
simple_command_reply c =
    if is_empty c.termination_id
    then compact_command c.name
    else compact_command c.name ++ (b'=' ∷ c.termination_id)

commands_of : Bytes → List Assignment → List Command
commands_of context_id [] = []
commands_of context_id (a ∷ rest) =
    let name = canonical_command a.name in
    let more = commands_of context_id rest in
    if is_command name
    then record {
      name = name;
      termination_id = trim (trim_space a.value) (b'"' ∷ []);
      body = trim_space a.body;
      context_id = context_id;
      optional = a.optional;
    }
      ∷ more
    else more

-- One round of the loop of `parseActions`.
parse_action : Message → Assignment → Message
parse_action m action =
    let context_id = trim (trim_space action.value) (b'"' ∷ []) in
    if not (same (to_lower action.name) (lit "c")) || is_empty action.body then m else record m {
      context_id = if is_empty m.context_id then context_id else m.context_id;
      commands =
          m.commands ++ commands_of context_id (parse_assignments (trim_outer_braces action.body));
    }

parse_each : Message → List Assignment → Message
parse_each m [] = m
parse_each m (action ∷ rest) = parse_each (parse_action m action) rest

-- `parseActions`
unfoldable pub parse_actions : Message → Bytes → Message
unfolding parse_each parse_action commands_of canonical_command is_command
parse_actions m body = parse_each m (parse_assignments body)

-- `FormatMID`
unfoldable pub format_mid : Resolver → Bytes → Bytes
unfolding trim_space
format_mid net mid =
    let m = trim_space mid in
    if is_empty m
    then b'0' ∷ []
    else if has_prefix m (b'[' ∷ []) || not (net.is_ip m)
    then m
    else b'[' ∷ (m ++ b']' ∷ [])

-- `BuildReply`; a version of 0 stands for one that is not positive.
unfoldable pub build_reply : Resolver → Message → Bytes → List Bytes → Bytes
build_reply net req mg_id replies =
    b'!'
    ∷ b'/'
    ∷ (itoa (if req.version == 0 then 1 else req.version)
        ++ (b' '
            ∷ (format_mid net mg_id
                ++ (lit "\nP="
                    ++ ((if is_empty req.transaction_id then b'1' ∷ [] else req.transaction_id)
                        ++ (lit "{\n  "
                            ++ (join (lit "\n  ")
                                  (elim replies [ [] ↦ lit "Reply = 200" ∷ [] | r ∷ rs ↦ r ∷ rs ])
                                ++ lit "\n}\n")))))))

pub record ActionReply : Type 0 where
  pub context_id : Bytes
  pub commands : List Bytes

action_parts : List ActionReply → List Bytes
action_parts [] = []
action_parts (a ∷ rest) = elim a.commands [
  | [] ↦ action_parts rest
  | c ∷ cs ↦
      (lit "C="
        ++ ((if is_empty a.context_id then b'-' ∷ [] else a.context_id)
            ++ (b'{' ∷ (join (b',' ∷ []) (c ∷ cs) ++ b'}' ∷ []))))
      ∷ action_parts rest
]

-- `BuildActionReply`
unfoldable pub build_action_reply : Resolver → Message → Bytes → List ActionReply → Bytes
unfolding action_parts
build_action_reply net req mg_id actions = build_reply net req mg_id (action_parts actions)

-- `%q` of a description: the program's are printable ASCII, and hold no `"` after the replacement
quoted : Bytes → Bytes
quoted s = b'"' ∷ (replace_all s (b'\\' ∷ []) (b'\\' ∷ b'\\' ∷ []) ++ b'"' ∷ [])

-- `BuildErrorReply`
unfoldable pub build_error_reply : Resolver → Message → Bytes → Bytes → Bytes → Bytes
unfolding quoted
build_error_reply net req mg_id code description = build_reply net req mg_id (
    (if is_empty description
      then lit "ER=" ++ code
      else lit "ER="
        ++ (code
            ++ (b'{' ∷ (quoted (replace_all description (b'"' ∷ []) (b'\'' ∷ [])) ++ b'}' ∷ []))))
    ∷ [])

-- `CommandOK`
unfoldable pub command_ok : Command → Bytes → Bytes
command_ok c context_id =
    lit "C="
    ++ ((if is_empty context_id then b'-' ∷ [] else context_id)
        ++ (b'{'
            ∷ (c.name
                ++ (if is_empty c.termination_id
                    then lit "=200}"
                    else b'=' ∷ (c.termination_id ++ lit "{}}")))))
