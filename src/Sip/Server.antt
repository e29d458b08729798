-- ===== src/Sip/Server.antt =====
-- `handle`, the transaction key and the responder of internal/sip/server.go. The handler is a
-- call that `handle` makes last: it is the outcome `deliver`, and `respond` is what the handler
-- calls back.
pub mod Traffic
pub mod Once
use megaco_sip_gateway.Prelude.{
  ℕ, Bytes, lit, same, is_empty, equal_fold, to_upper, Bool, true, false, not, ◌&&◌, List, [], ◌∷◌,
  ◌++◌, Option, none, some, ◌==◌, if◌then◌else◌, ℤ, pos, negsuc,
}
use megaco_sip_gateway.Prelude.Result.{Result, ok, err}
use megaco_sip_gateway.Prelude.Strings.{trim, trim_space, cut_byte, split_byte, join}
use megaco_sip_gateway.Net.{UdpAddr, addr_string}
use megaco_sip_gateway.Sip.Message.{Message, ParseError, parse, header, call_id}
use megaco_sip_gateway.Sip.ResponseCache.{
  ResponseCache, begin_transaction, cached_response, cache_response,
}

named : Bytes → Option (Bytes × Bytes) → Option Bytes
named name none = none
named name (some (key, parameter)) =
    if equal_fold key name then some (trim parameter (b'"' ∷ [])) else none

first_named : Bytes → List Bytes → Bytes
first_named name [] = []
first_named name (part ∷ parts) = elim (named name (cut_byte b'=' (trim_space part))) [
  | none ↦ first_named name parts
  | some value ↦ value
]

-- `headerParameterValue`, and `headerParameter` of internal/bridge/sip.go
unfoldable pub header_parameter : Bytes → Bytes → Bytes
unfolding first_named named split_byte
header_parameter value name = first_named name (split_byte b';' value)

-- `sipTransactionKey`, for a message and an address that are there
unfoldable pub transaction_key : Message → UdpAddr → Bytes
transaction_key m remote =
    if is_empty m.method
    then []
    else join (b'|' ∷ []) (
        addr_string remote
        ∷ to_upper m.method
        ∷ call_id m
        ∷ header m (lit "CSeq")
        ∷ header_parameter (header m (lit "Via")) (lit "branch")
        ∷ [])

pub record UdpServer : Type 0 where
  pub listening : Bool
  pub cache : ResponseCache

pub data Outcome : Type 0 where
  -- a parse error, or no socket
  dropped : Outcome
  -- `conn.WriteToUDP([]byte(cached), remote)`
  replayed : Bytes → Outcome
  -- the transaction is in flight
  suppressed : Outcome
  -- `s.handler.HandleSIP(ctx, msg, &udpResponder{…, cacheKey})`
  deliver : Message → Bytes → Outcome

abbrev pub is_zero : ℤ → Bool
is_zero (pos n) = n == 0
is_zero (negsuc n) = false

start : Message → Bytes → Bool × ResponseCache → Outcome × ResponseCache
start m key (fresh, c) = if fresh then (deliver m key, c) else (suppressed, c)

look_up : Message → Bytes → ℕ → Bytes × ResponseCache → Outcome × ResponseCache
look_up m key now (cached, c) =
    if not (is_empty cached)
    then (replayed cached, c)
    else start m key (begin_transaction key now c)

-- `msg.Status == 0 && !strings.EqualFold(msg.Method, "ACK")`
unfoldable pub is_tracked : Message → Bool
is_tracked m = is_zero m.status && not (equal_fold m.method (lit "ACK"))

-- `looked_at` and `now` are the two readings of the clock.
unfoldable pub dispatch : Message → UdpAddr → ℕ → ℕ → ResponseCache → Outcome × ResponseCache
unfolding start look_up
dispatch m remote looked_at now c =
    if is_tracked m
    then look_up m (transaction_key m remote) now
        (cached_response (transaction_key m remote) looked_at c)
    else (deliver m [], c)

on_message : UdpServer → UdpAddr → ℕ → ℕ → Result ParseError Message → Outcome × UdpServer
on_message s remote looked_at now (err e) = (dropped, s)
on_message s remote looked_at now (ok m) =
    let (outcome, c) = dispatch (record m { source = some remote }) remote looked_at now s.cache in
    if s.listening then (outcome, record s { cache = c }) else (dropped, s)

-- `(*UDPServer).handle`
unfoldable pub handle : UdpServer → Bytes → UdpAddr → ℕ → ℕ → Outcome × UdpServer
unfolding on_message
handle s data_ remote looked_at now = on_message s remote looked_at now (parse data_)

-- `(*udpResponder).Respond`: the response is cached before it is written.
unfoldable pub respond : Bytes → Bytes → ℕ → UdpServer → UdpServer
respond cache_key message now s = record s { cache = cache_response cache_key message now s.cache }
