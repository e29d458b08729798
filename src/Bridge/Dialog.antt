-- ===== src/Bridge/Dialog.antt =====
-- The requests of internal/bridge/sip.go that belong to an INVITE of the gateway, and the end of a
-- call by `releaseCall` and by the deadline of `retransmitInvite`.
use megaco_sip_gateway.Prelude.{
  eq_refl, ℕ, ◌≤◌, Bytes, lit, same, true, false, Option, some, ◌≡◌, refl, arith, Bool-cases, inl,
  inr, leb,
}
use megaco_sip_gateway.Prelude.Map
use megaco_sip_gateway.Prelude.Decimal.{itoa}
use megaco_sip_gateway.Net.{UdpAddr}
use megaco_sip_gateway.Sip.Message.{Message, header}
use megaco_sip_gateway.Bridge.State.{
  Ref, Call, SipRequest, Bridge, Env, ◌>>=◌, ◌>>◌, pure, gets, modify, when, for_some, change, read,
  update,
}
use megaco_sip_gateway.Bridge.Uri.{itoa_int}
use megaco_sip_gateway.Bridge.Line.{release_call, take_down}
use megaco_sip_gateway.Bridge.Teardown.{cancel_request, dialog_headers, request_headers}
use megaco_sip_gateway.Bridge.Retained.{ack_request, is_success, transaction_of}
use megaco_sip_gateway.Bridge.Invite.{
  invite_for, invited, retransmit_found, retransmit_turn, invite_timed_out,
}

-- The value of a header of a request
abbrev pub value : Bytes → SipRequest → Option Bytes
value name request = Map.lookup name request.headers

-- A request without a body of its own dialog that names the transaction of the INVITE: with its URI,
-- its Via, its From and its Call-ID, and the To and CSeq that are given
pub record BelongsTo (sent request : SipRequest) (to cseq : Bytes) : Type 0 where
  pub uri : request.uri ≡ sent.uri
  pub via : value (lit "Via") request ≡ value (lit "Via") sent
  pub from : value (lit "From") request ≡ value (lit "From") sent
  pub call_id : value (lit "Call-ID") request ≡ value (lit "Call-ID") sent
  pub to_is : value (lit "To") request ≡ some to
  pub cseq_is : value (lit "CSeq") request ≡ some cseq

-- The CANCEL of a call whose INVITE has been sent has the URI, Via, From, To and Call-ID of that
-- INVITE, and its CSeq number.
pub cancel_matches_invite :
    (env : Env) (c : Call) (now : ℕ) (peer : UdpAddr)
    → BelongsTo
        (invite_for env c now).request
        (cancel_request env (invited (invite_for env c now) peer c))
        (invite_for env c now).to
        (lit "1 CANCEL")
unfolding cancel_request invited invite_for dialog_headers request_headers lit Map.lookup same
    itoa_int itoa
cancel_matches_invite env c now peer = record {
  uri = refl;
  via = refl;
  from = refl;
  call_id = refl;
  to_is = refl;
  cseq_is = refl;
}

-- The ACK of a response that is no success has the URI, Via, From and Call-ID of the INVITE that
-- was sent, its CSeq number, and the To of the response.
pub ack_matches_invite :
    (env : Env) (c : Call) (now later : ℕ) (peer : UdpAddr) (response : Message)
    → is_success response.status ≡ false
    → BelongsTo
        (invite_for env c now).request
        (ack_request env (transaction_of (invited (invite_for env c now) peer c)) response later)
        (header response (lit "To"))
        (lit "1 ACK")
unfolding ack_request invited invite_for request_headers lit Map.lookup same itoa_int itoa
ack_matches_invite env c now later peer response failure = record {
  uri = rw failure refl;
  via = rw failure refl;
  from = refl;
  call_id = refl;
  to_is = refl;
  cseq_is = refl;
}

release_call-released : (r : Ref) (b : Bridge) → ((release_call r b).1.cell r).released ≡ true
unfolding release_call ◌>>=◌ ◌>>◌ read gets when modify change take_down update pure
release_call-released r b = elim (Bool-cases (b.cell r).released) [
  | inl e ↦ rw e e
  | inr e ↦ rw (e, eq_refl r) refl
]

-- At the deadline of the loop that repeats an INVITE, the call that its Call-ID leads to is
-- released, whatever its state: also one that has been answered.
pub timed_out_lem :
    (env : Env) (key : Bytes) (interval deadline : ℕ) (r : Ref) (b : Bridge)
    → Map.lookup key b.calls_by_sip ≡ some r
    → deadline ≤ b.clock
    → ((retransmit_found env key interval deadline b).1.cell r).released ≡ true
unfolding retransmit_found retransmit_turn invite_timed_out for_some ◌>>=◌ ◌>>◌ gets read
timed_out_lem env key interval deadline r b e due =
    let late : leb deadline b.clock ≡ true = ground arith in
    rw e (rw late (release_call-released r _))
