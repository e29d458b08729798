-- ===== src/Bridge/FromMgc/Replies.antt =====
-- Replies to a transaction, and the tests on its commands: `isIncomingCallAdd`,
-- `simpleActionReplies`, `buildIncomingAddReply`, `isLineTermination`, `isCarrierClear`.
use megaco_sip_gateway.Prelude.{
  ℕ, Bytes, lit, same, is_empty, to_lower, to_upper, equal_fold, has_prefix, contains_text, Bool,
  false, not, ◌&&◌, ◌||◌, List, [], ◌∷◌, ◌++◌, if◌then◌else◌, ℤ, pos, is_nonpos, within,
}
use megaco_sip_gateway.Prelude.Result.{Result, ok, err}
use megaco_sip_gateway.Prelude.Decimal.{itoa}
use megaco_sip_gateway.H248.Message.{Command, Message, ActionReply, simple_command_reply}
use megaco_sip_gateway.Bridge.Uri.{itoa_int}

-- The variables of the loop of `isIncomingCallAdd`
pub record Found : Type 0 where
  pub physical : Bool
  pub ephemeral : Bool
  pub context_id : Bytes

found_in : Bytes → List Command → Found → Found
found_in termination [] found = found
found_in termination (command ∷ rest) found =
    let next : Found =
      if same command.name (lit "Add")
      then record {
        physical = found.physical || equal_fold command.termination_id termination;
        ephemeral = found.ephemeral || same command.termination_id (b'$' ∷ []);
        context_id = if is_empty found.context_id then command.context_id else found.context_id;
      }
      else found in
    found_in termination rest next

-- `isIncomingCallAdd`
unfoldable pub is_incoming_call_add : Message → Bytes → Bool
unfolding found_in
is_incoming_call_add msg termination =
    let found =
      found_in termination msg.commands
        (record { physical = false; ephemeral = false; context_id = [] }) in
    same found.context_id (b'$' ∷ []) && found.physical && found.ephemeral

-- A command's text is added to the action of its context, or to a new action.
unfoldable pub add_action : Bytes → Bytes → List ActionReply → List ActionReply
add_action context_id text [] = record { context_id = context_id; commands = text ∷ [] } ∷ []
add_action context_id text (action ∷ rest) =
    let more = add_action context_id text rest in
    if same action.context_id context_id
    then record action { commands = action.commands ++ (text ∷ []) } ∷ rest
    else action ∷ more

-- `command.ContextID`, or else the message's, or else `-`
unfoldable pub reply_context : Message → Command → Bytes
reply_context msg command =
    if not (is_empty command.context_id)
    then command.context_id
    else if is_empty msg.context_id
    then b'-' ∷ []
    else msg.context_id

unfoldable pub command_text : Command → ℤ → Bytes
command_text command version =
    if same command.name (lit "ServiceChange")
    then lit "SC=" ++ (command.termination_id ++ (lit "{SV{V=" ++ (itoa_int version ++ lit "}}")))
    else simple_command_reply command

replies_onto : Message → ℤ → List Command → List ActionReply → Result Bytes (List ActionReply)
replies_onto msg version [] [] = err (lit "transaction contains no supported commands")
replies_onto msg version [] (action ∷ rest) = ok (action ∷ rest)
replies_onto msg version (command ∷ rest) actions =
    let others =
      replies_onto msg version rest
        (add_action (reply_context msg command) (command_text command version) actions) in
    if is_empty command.termination_id
    then err (command.name ++ lit " command has no termination ID")
    else others

-- `simpleActionReplies`
unfoldable pub simple_action_replies : Message → ℤ → Result Bytes (List ActionReply)
unfolding replies_onto
simple_action_replies msg version = replies_onto msg version msg.commands []

-- The media descriptor of `buildIncomingAddReply`
unfoldable pub local_media : Bytes → Bytes → ℕ → ℤ → ℤ → Bytes
local_media termination ip port dtmf ptime =
    let time = itoa_int (if is_nonpos ptime then pos 20 else ptime) in
    let payload = itoa_int dtmf in
    let head =
      lit "A="
      ++ (termination
          ++ (lit "{M{L{v=0\r\nc=IN IP4 "
              ++ (ip ++ (lit "\r\nm=audio " ++ (itoa port ++ lit " RTP/AVP 8"))))) in
    if within 1 127 dtmf
    then head
      ++ (b' '
          ∷ (payload
              ++ (lit "\r\na=ptime:"
                  ++ (time
                      ++ (lit "\r\na=rtpmap:"
                          ++ (payload
                              ++ (lit " telephone-event/8000\r\na=fmtp:"
                                  ++ (payload ++ lit " 0-15\r\n}}}"))))))))
    else head ++ (lit "\r\na=ptime:" ++ (time ++ lit "\r\n}}}"))

-- The actions of `buildIncomingAddReply`
unfoldable pub add_reply : Bytes → Bytes → Bytes → Bytes → ℕ → ℤ → ℤ → List ActionReply
add_reply context_id physical ephemeral ip port dtmf ptime =
    record {
      context_id = context_id;
      commands = (lit "A=" ++ physical) ∷ local_media ephemeral ip port dtmf ptime ∷ [];
    }
    ∷ []

-- `isLineTermination`
unfoldable pub is_line_termination : Bytes → Bytes → Bool
is_line_termination value termination = same value (b'*' ∷ []) || equal_fold value termination

-- `isCarrierClear`
unfoldable pub is_carrier_clear : Command → Bool
is_carrier_clear command =
    let lower = to_lower command.body in
    contains_text lower (lit "cg/ct")
    || (contains_text lower (lit "mo=rc")
        && has_prefix (to_upper command.termination_id) (lit "RTP/"))
