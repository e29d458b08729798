-- ===== src/Bridge/Retained.antt =====
-- ACK and PRACK, and INVITE transactions that outlive their call: `sendInviteACKForTransaction`,
-- `sendPRACK`, `handleRetainedSIPInviteResponse`, `refreshRetainedSIPInvite`,
-- `scheduleRetainedSIPInviteExpiry` and `sendLateAnswerBYE` of internal/bridge/sip.go.
-- A retained INVITE is a pointer in the code. The entry of a key is replaced only after it has been
-- deleted, and the code deletes only an entry that has expired, so a timer or a handler that finds
-- an entry at its key has found its own.
use megaco_sip_gateway.Prelude.{
  ℕ, ◌+◌, Bytes, lit, same, is_empty, to_upper, Bool, true, false, not, ◌&&◌, [], ◌∷◌, ◌++◌, Option,
  none, some, ◌==◌, leb, if◌then◌else◌, ℤ, pos, negsuc, within,
}
use megaco_sip_gateway.Prelude.Map
use megaco_sip_gateway.Net.{UdpAddr}
use megaco_sip_gateway.Sip.Message.{Message, header, cseq_method, cseq_number}
use megaco_sip_gateway.Bridge.State.{
  Ref, Call, RetainedInvite, SipRequest, expire_retained, Bridge, Env, M, ◌>>=◌, ◌>>◌, gets, modify,
  done, when, for_some, read, send, schedule, sip_send,
}
use megaco_sip_gateway.Bridge.Uri.{
  first_uri, itoa_int, next_int, parse_cseq_number, random_token, trim_prefix,
}
use megaco_sip_gateway.Bridge.Teardown.{
  cookie, via_of, request_headers, dialog_headers, invite_transaction_ttl,
}

-- The fields of an INVITE that its ACK repeats.
pub record Transaction : Type 0 where
  pub call_id : Bytes
  pub request_uri : Bytes
  pub from : Bytes
  pub invite_via : Bytes
  pub invite_branch : Bytes
  pub invite_cseq : ℤ

abbrev pub transaction_of : Call → Transaction
transaction_of c = record {
  call_id = c.sip_call_id;
  request_uri = c.sip_request_uri;
  from = c.sip_from;
  invite_via = c.sip_invite_via;
  invite_branch = c.sip_invite_branch;
  invite_cseq = c.sip_invite_cseq;
}

abbrev pub transaction_retained : RetainedInvite → Transaction
transaction_retained retained = record {
  call_id = retained.call_id;
  request_uri = retained.request_uri;
  from = retained.from;
  invite_via = retained.invite_via;
  invite_branch = retained.invite_branch;
  invite_cseq = retained.invite_cseq;
}

-- `response.Status >= 200 && response.Status < 300`
abbrev pub is_success : ℤ → Bool
is_success status = within 200 299 status

abbrev pub contact_or : Message → Bytes → Bytes
contact_or response uri =
    let contact = first_uri (header response (lit "Contact")) in
    if is_empty contact then uri else contact

-- The request that `sendInviteACKForTransaction` builds.
unfoldable pub ack_request : Env → Transaction → Message → ℕ → SipRequest
ack_request env t response now =
    let via =
      if is_success response.status
      then via_of env (random_token (lit "ack") now)
      else if is_empty t.invite_via
      then via_of env (trim_prefix t.invite_branch cookie)
      else t.invite_via in
    record {
      method = lit "ACK";
      uri = if is_success response.status then contact_or response t.request_uri else t.request_uri;
      headers =
          request_headers env via t.from (header response (lit "To")) t.call_id
            (itoa_int t.invite_cseq ++ lit " ACK");
      body = [];
    }

abbrev pub or_else_peer : Option UdpAddr → Option UdpAddr → Option UdpAddr
or_else_peer none other = other
or_else_peer (some peer) other = some peer

-- `sendInviteACKForTransaction`, for a response and a responder that are there
unfoldable pub send_invite_ack : Env → Transaction → Message → Option UdpAddr → M (Unit {0})
send_invite_ack env t response peer = do
  now ← gets (λ b. b.clock)
  for_some (or_else_peer peer response.source)
      (λ to. send env (sip_send to (ack_request env t response now)) >> done)

-- The request that `sendPRACK` builds; the order of its headers is that of the loop over a map.
unfoldable pub prack_request : Env → Call → Message → Bytes → ℕ → SipRequest
prack_request env c response rseq now = record {
  method = lit "PRACK";
  uri = contact_or response c.sip_request_uri;
  headers =
      (lit "RAck", rseq ++ (b' ' ∷ (itoa_int c.sip_invite_cseq ++ lit " INVITE")))
      ∷ dialog_headers env c (header response (lit "To")) (pos 2) (lit "PRACK")
          (random_token (lit "prack") now);
  body = [];
}

-- `sendPRACK`
unfoldable pub send_prack : Env → Ref → Message → Bytes → M (Unit {0})
send_prack env r response rseq = do
  c ← read r (λ c. c)
  now ← gets (λ b. b.clock)
  for_some c.sip_peer
      (λ peer. send env (sip_send peer (prack_request env c response rseq now)) >> done)

abbrev update_retained : Bytes → (RetainedInvite → RetainedInvite) → Bridge → Bridge
update_retained key f b = elim (Map.lookup key b.retained_sip_invites) [
  | none ↦ b
  | some retained ↦ record b {
    retained_sip_invites = Map.insert key (f retained) b.retained_sip_invites;
  }
]

-- A write to an entry that is still in the map
unfoldable pub change_retained : Bytes → (RetainedInvite → RetainedInvite) → M (Unit {0})
change_retained key f = modify (update_retained key f)

-- `refreshRetainedSIPInvite` and `scheduleRetainedSIPInviteExpiry`, for an entry that is there
unfoldable pub refresh_retained : Bytes → M (Unit {0})
refresh_retained key = do
  now ← gets (λ b. b.clock)
  change_retained key (λ e. record e { expires_at = now + invite_transaction_ttl })
  schedule invite_transaction_ttl (expire_retained key)

-- The function that the timer of `scheduleRetainedSIPInviteExpiry` runs.
unfoldable pub expire : Bytes → Bridge → Bridge
expire key b = elim (Map.lookup key b.retained_sip_invites) [
  | none ↦ b
  | some retained ↦
      if leb retained.expires_at b.clock
      then record b { retained_sip_invites = Map.delete key b.retained_sip_invites }
      else b
]

-- The request of `sendLateAnswerBYE`
unfoldable pub late_bye_request : Env → RetainedInvite → Message → ℕ → SipRequest
late_bye_request env retained response now = record {
  method = lit "BYE";
  uri = contact_or response retained.request_uri;
  headers =
      request_headers env (via_of env (random_token (lit "late-bye") now)) retained.from
        (header response (lit "To")) retained.call_id
        (itoa_int (next_int retained.invite_cseq) ++ lit " BYE");
  body = [];
}

unfoldable pub late_bye_to : Env → Bytes → RetainedInvite → Message → UdpAddr → M (Unit {0})
late_bye_to env key retained response peer = do
  now ← gets (λ b. b.clock)
  ok ← send env (sip_send peer (late_bye_request env retained response now))
  when (not ok) (change_retained key (λ e. record e { late_2xx_bye_sent = false }))

-- `sendLateAnswerBYE`, for the entry that is at its key
unfoldable pub send_late_answer_bye : Env → Bytes → Message → M (Unit {0})
send_late_answer_bye env key response = do
  found ← gets (λ b. Map.lookup key b.retained_sip_invites)
  for_some found (λ retained. when (not retained.late_2xx_bye_sent) (do
    change_retained key (λ e. record e { late_2xx_bye_sent = true })
    when (not (is_empty (contact_or response retained.request_uri))) (
        for_some (or_else_peer retained.peer response.source)
          (late_bye_to env key retained response))))

abbrev pub set_peer : Message → RetainedInvite → RetainedInvite
set_peer msg retained = record retained { peer = or_else_peer msg.source retained.peer }

-- A response to an INVITE whose call is gone
unfoldable pub retained_invite_final : Env → Bytes → RetainedInvite → Message → M (Unit {0})
retained_invite_final env key retained msg = do
  send_invite_ack env (transaction_retained retained) msg retained.peer
  refresh_retained key
  when (is_success msg.status) (send_late_answer_bye env key msg)

-- `strings.ToUpper(msg.CSeqMethod()) == …`
abbrev pub answers : Message → Bytes → Bool
answers msg method = same (to_upper (cseq_method msg)) method

abbrev pub same_int : ℤ → ℤ → Bool
same_int (pos a) (pos b) = a == b
same_int (negsuc a) (negsuc b) = a == b
same_int _ _ = false

-- `status >= 200`
abbrev pub is_final : ℤ → Bool
is_final (pos n) = leb 200 n
is_final (negsuc n) = false

-- `handleRetainedSIPInviteResponse`, for the entry that is at its key
unfoldable pub handle_retained_response : Env → Bytes → RetainedInvite → Message → M (Unit {0})
handle_retained_response env key found msg = do
  change_retained key (set_peer msg)
  when
      (answers msg (lit "INVITE")
        && same_int (parse_cseq_number (cseq_number msg)) found.invite_cseq
        && is_final msg.status)
      (retained_invite_final env key (set_peer msg found) msg)
