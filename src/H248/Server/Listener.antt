-- ===== src/H248/Server/Listener.antt =====
-- `UDPServer` of internal/h248/server.go: its state, `handle` and the responder. The handler is a
-- call that `handle` makes last: it is the outcome `deliver` or `answer`, and `respond` is what the
-- handler calls back.
use megaco_sip_gateway.Prelude.{
  ℕ, Bytes, lit, same, is_empty, Bool, true, false, not, ◌&&◌, ◌||◌, List, [], ◌∷◌, ◌++◌, Option,
  none, some, ltb, length, if◌then◌else◌, ℤ,
}
use megaco_sip_gateway.Prelude.Result.{Result, ok, err}
use megaco_sip_gateway.Prelude.Strings.{trim_space}
use megaco_sip_gateway.Net.{UdpAddr, addr_string}
use megaco_sip_gateway.H248.Message.{Message, Command}
use megaco_sip_gateway.H248.Parse.{ParseError, parse}
use megaco_sip_gateway.H248.ReplyCache.{ReplyCache, cached_reply, cache_reply}

-- `UDPServerConfig`; the device is for the socket only.
pub record UdpServerConfig : Type 0 where
  pub address : Bytes
  pub mgc : Bytes
  pub backup_mgc : Bytes
  pub mid : Bytes
  pub version : ℤ
  pub service_change_method : Bytes
  pub service_change_reason : Bytes
  pub service_change_profile : Bytes
  pub service_change_address : Bytes
  pub service_change_retry_seconds : ℤ
  pub service_change_max_attempts : ℤ
  pub mgc_failure_timeout_seconds : ℤ
  pub physical_termination : Bytes

pub record RegistrationResult : Type 0 where
  pub transaction_id : Bytes
  pub accepted : Bool

-- The fields that change. `service_change_reply` is a channel of 16 places; the activity is `none`
-- for the zero time.
pub record UdpServer : Type 0 where
  pub service_change_tid : Bytes
  pub service_change_remote : Bytes
  pub service_change_reply : List RegistrationResult
  pub active_mgc : Bytes
  pub last_mgc_activity : Option ℕ
  pub registered : Bool
  pub cache : ReplyCache

-- `NewUDPServer`
unfoldable pub new_udp_server : UdpServer
new_udp_server = record {
  service_change_tid = [];
  service_change_remote = [];
  service_change_reply = [];
  active_mgc = [];
  last_mgc_activity = none;
  registered = false;
  cache = record { reply_cache = []; cache_order = [] };
}

-- `setActiveMGC`
unfoldable pub set_active_mgc : UdpAddr → ℕ → UdpServer → UdpServer
set_active_mgc remote now s = record s {
  active_mgc = addr_string remote;
  last_mgc_activity = some now;
}

-- `clearActiveMGC`, for an address that is there
unfoldable pub clear_active_mgc : UdpAddr → UdpServer → UdpServer
clear_active_mgc remote s =
    if same s.active_mgc (addr_string remote)
    then record s { active_mgc = []; last_mgc_activity = none }
    else s

-- `expectedMGCAddress`
unfoldable pub expected_mgc_address : UdpServer → Bytes
expected_mgc_address s = if is_empty s.active_mgc then s.service_change_remote else s.active_mgc

-- `noteMGCActivity`
unfoldable pub note_mgc_activity : UdpAddr → ℕ → UdpServer → UdpServer
note_mgc_activity remote now s =
    if same s.active_mgc (addr_string remote) then record s { last_mgc_activity = some now } else s

-- `clearRegistrationTransaction`
unfoldable pub clear_registration_transaction : Bytes → UdpServer → UdpServer
clear_registration_transaction id s =
    if same s.service_change_tid id
    then record s { service_change_tid = []; service_change_remote = [] }
    else s

all_audits : List Command → Bool
all_audits [] = true
all_audits (c ∷ rest) =
    (same c.name (lit "AuditValue") || same c.name (lit "AuditCapabilities")) && all_audits rest

-- `auditOnly`
unfoldable pub audit_only : Message → Bool
unfolding all_audits
audit_only m = elim m.commands [ [] ↦ false | c ∷ cs ↦ all_audits (c ∷ cs) ]

unfoldable pub is_response : Message → Bool
is_response m = same m.transaction_type (lit "Reply") || same m.transaction_type (lit "Pending")

-- The first condition of the filter in `handle`
unfoldable pub is_outside : UdpServerConfig → UdpServer → UdpAddr → Bool
unfolding expected_mgc_address
is_outside cfg s remote =
    let expected = expected_mgc_address s in
    (not (is_empty expected) && not (same (addr_string remote) expected))
    || (not (is_empty (trim_space cfg.mgc)) && is_empty expected)

pub data Outcome : Type 0 where
  -- a parse error, or a message outside the active registration
  dropped : Outcome
  -- the answer to the ServiceChange under way
  registration : Outcome
  -- `lifecycle.HandleH248Response(ctx, msg, responder)`
  answer : Message → Outcome
  -- `s.conn.WriteToUDP([]byte(cached), remote)`
  replayed : Bytes → Outcome
  -- `s.handler.HandleH248(ctx, msg, &udpResponder{…, cacheKey})`
  deliver : Message → Bytes → Outcome

-- A send on the channel, with a `default` case that gives up where all places are taken
unfoldable pub post_result : Message → UdpServer → UdpServer
post_result m s =
    if same m.transaction_type (lit "Reply") && ltb (length s.service_change_reply) 16
    then record s {
      service_change_reply =
          s.service_change_reply
          ++ record { transaction_id = m.transaction_id; accepted = is_empty m.error_code } ∷ [];
    }
    else s

unfoldable pub on_response : UdpServer → Message → UdpAddr → Outcome × UdpServer
unfolding post_result
on_response s m remote =
    if same m.transaction_id s.service_change_tid
      && same (addr_string remote) s.service_change_remote
    then (registration, post_result m s)
    else (answer m, s)

-- `remote.String() + "/" + msg.TransactionID`, or no key
unfoldable pub cache_key : Message → UdpAddr → Bytes
cache_key m remote =
    if is_empty m.transaction_id then [] else addr_string remote ++ (b'/' ∷ m.transaction_id)

unfoldable pub on_transaction : UdpServer → Message → UdpAddr → Outcome × UdpServer
unfolding cache_key
on_transaction s m remote =
    let cached = cached_reply (cache_key m remote) s.cache in
    if is_empty cached then (deliver m (cache_key m remote), s) else (replayed cached, s)

unfoldable pub on_message :
    UdpServerConfig → UdpServer → Message → UdpAddr → ℕ → Outcome × UdpServer
unfolding is_outside is_response audit_only on_response on_transaction note_mgc_activity
on_message cfg s m remote now =
    let s' = note_mgc_activity remote now s in
    if is_outside cfg s remote && (is_response m || not (audit_only m))
    then (dropped, s)
    else if is_response m
    then on_response s' m remote
    else on_transaction s' m remote

unfoldable pub on_parsed :
    UdpServerConfig → UdpServer → Result ParseError Message → UdpAddr → ℕ → Outcome × UdpServer
on_parsed cfg s (err e) remote now = (dropped, s)
on_parsed cfg s (ok m) remote now = on_message cfg s m remote now

-- `(*UDPServer).handle`
unfoldable pub handle : UdpServerConfig → UdpServer → Bytes → UdpAddr → ℕ → Outcome × UdpServer
unfolding on_parsed
handle cfg s packet remote now = on_parsed cfg s (parse packet) remote now

-- `(*udpResponder).Respond`: the reply is cached before it is written.
unfoldable pub respond : Bytes → Bytes → UdpServer → UdpServer
respond key message s = record s { cache = cache_reply key message s.cache }
