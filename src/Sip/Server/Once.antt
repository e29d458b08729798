-- ===== src/Sip/Server/Once.antt =====
-- About repeated requests at the server of internal/sip/server.go.
use megaco_sip_gateway.Prelude.{
  none, List, ◌∙◌, ℕ, Bytes, is_empty, true, false, some, ◌≡◌, ◌≤◌, ◌<◌, ◌+◌, refl, sym, arith, inl,
  inr, Bool-cases,
}
use megaco_sip_gateway.Prelude.Result.{Result, ok, err}
use megaco_sip_gateway.Net.{UdpAddr}
use megaco_sip_gateway.Sip.Message.{Message, ParseError, parse}
use megaco_sip_gateway.Sip.ResponseCache.{
  ResponseCache, response_cache_ttl, in_flight_ttl, begin_transaction, cached_response,
}
use megaco_sip_gateway.Sip.ResponseCache.Laws.{
  IsValid, begin_transaction-IsValid, cached_response-IsValid,
}
use megaco_sip_gateway.Sip.ResponseCache.Retransmission.{
  begin_transaction_twice, cached_response_stays_none,
}
use megaco_sip_gateway.Prelude.Map
use megaco_sip_gateway.Sip.ResponseCache.{CachedResponse, max_cached_transactions}
use megaco_sip_gateway.Sip.ResponseCache.Retention.{
  stored-cached_response, cache_response-Held_self,
}
use megaco_sip_gateway.Sip.Server.Traffic.{
  dispatch-kept, handle-kept, Event, run, responses, IsBetween, IsSilent, stored-run, run-listening,
  run-IsUnanswered,
}
use megaco_sip_gateway.Sip.Server.{
  UdpServer, replayed, suppressed, deliver, is_tracked, dispatch, on_message, handle, respond,
  transaction_key,
}

-- Whatever datagram comes, a well-formed transaction cache stays well formed.
pub handle-IsValid :
    (s : UdpServer) (packet : Bytes) (remote : UdpAddr) (looked_at now : ℕ)
    → IsValid s.cache
    → IsValid (handle s packet remote looked_at now).1.cache
handle-IsValid s packet remote looked_at now =
    handle-kept IsValid looked_at now (λ j c. cached_response-IsValid j looked_at c)
      (λ j c. begin_transaction-IsValid j now c) s packet remote

-- What a delivery with a transaction key tells of the message and the cache.
dispatch-deliver :
    (m msg : Message) (remote : UdpAddr) (looked_at now : ℕ) (c c' : ResponseCache) (key : Bytes)
    → dispatch m remote looked_at now c ≡ (deliver msg key, c')
    → is_empty key ≡ false
    → (is_tracked m ≡ true)
      × (key ≡ transaction_key m remote)
      × (is_empty (cached_response key looked_at c).0 ≡ true)
      × (begin_transaction key now (cached_response key looked_at c).1 ≡ (true, c'))
unfolding dispatch
dispatch-deliver m msg remote looked_at now c c' key h e = ground arith

abbrev pub received : Message → UdpAddr → Message
received m remote = record m { source = some remote }

handle-deliver :
    (s s' : UdpServer) (packet : Bytes) (remote : UdpAddr) (looked_at now : ℕ) (msg : Message)
    (key : Bytes) (r : Result ParseError Message)
    → on_message s remote looked_at now r ≡ (deliver msg key, s')
    → (m : Message) × (r ≡ ok m)
      × (s.listening ≡ true)
      × (s'.listening ≡ true)
      × (dispatch (received m remote) remote looked_at now s.cache ≡ (deliver msg key, s'.cache))
unfolding on_message
handle-deliver s s' packet remote looked_at now msg key (err e) h = cc
handle-deliver s s' packet remote looked_at now msg key (ok m) h = elim (Bool-cases s.listening) [
  | inl l ↦ (m, refl, l, ground (arith, h, l), ground (arith, h, l))
  | inr l ↦ ground (arith, h, l)
]

module _ (s s' : UdpServer) (packet : Bytes) (remote : UdpAddr) (looked_at now : ℕ) (msg : Message)
    (key : Bytes) (valid : IsValid s.cache) (tracked : is_empty key ≡ false)
    (delivered : handle s packet remote looked_at now ≡ (deliver msg key, s')) where
  replays :
      (m : Message) (c : ResponseCache) (message : Bytes) (later later' : ℕ)
      → is_tracked m ≡ true
      → is_empty message ≡ false
      → cached_response (transaction_key m remote) later c ≡ (message, c)
      → dispatch m remote later later' c ≡ (replayed message, c)
  unfolding dispatch
  replays m c message later later' t e h = rw t (rw h (ground arith))

  suppresses :
      (m : Message) (c : ResponseCache) (later later' : ℕ)
      → is_tracked m ≡ true
      → is_empty (cached_response (transaction_key m remote) later c).0 ≡ true
      → (begin_transaction
          (transaction_key m remote)
          later'
          (cached_response (transaction_key m remote) later c).1).0
        ≡ false
      → (dispatch m remote later later' c).0 ≡ suppressed
  unfolding dispatch
  suppresses m c later later' t e h = rw t (ground (arith, e, h))

  -- Of a datagram that a server with a well-formed cache has delivered with a transaction key
  -- for which no response is stored: whatever datagrams come and whatever responses for other
  -- keys before the handler's response, which is not empty, and whatever datagrams come within
  -- five minutes and fewer than 8192 responses for other keys after it, a retransmission within
  -- the five minutes is answered with that response, does not reach the handler, and leaves the
  -- server as it is.
  pub handle_replays :
      (message : Bytes) (responded later later' : ℕ) (before after : List Event)
      → is_empty message ≡ false
      → Map.lookup key s'.cache.response_cache ≡ none
      → IsSilent key before
      → IsBetween key (responded + response_cache_ttl) after
      → responses after < max_cached_transactions
      → later ≤ responded + response_cache_ttl
      → handle
          (run after (respond key message responded (run before s')))
          packet
          remote
          later
          later'
        ≡ (replayed message, run after (respond key message responded (run before s')))
  unfolding handle respond on_message
  handle_replays message responded later later' before after e none_yet silent between few l =
      let (m, p, _, listening, d) =
        handle-deliver s s' packet remote looked_at now msg key (parse packet) delivered in
      let (t, k, _, b) =
        dispatch-deliver (received m remote) msg remote looked_at now s.cache s'.cache key d
          tracked in
      let valid' : IsValid s'.cache = rw d at (
        dispatch-kept IsValid looked_at now (λ j c. cached_response-IsValid j looked_at c)
          (λ j c. begin_transaction-IsValid j now c) (received m remote) remote s.cache valid) in
      let unanswered =
        run-IsUnanswered key before s' silent (record { valid = valid'; absent = none_yet }) in
      let answered = respond key message responded (run before s') in
      let entry : CachedResponse = record {
        message = message;
        expires_at = responded + response_cache_ttl;
      } in
      let held =
        cache_response-Held_self key message responded (run before s').cache tracked
          unanswered.valid unanswered.absent in
      let found =
        stored-cached_response key entry later (run after answered).cache tracked l
          (stored-run key entry after 0 answered between (omega arith) held) in
      let open_ = run-listening after answered ∙ (run-listening before s' ∙ listening) in
      rw p (
        rw open_ (
          rw (
            replays (received m remote) (run after answered).cache message later later' t e
              (rw (sym k) found))))

  -- Of a datagram that a server with a well-formed cache has delivered with a transaction key:
  -- in the state that the delivery leaves, for less than 32 seconds, a retransmission is
  -- dropped.
  pub handle_suppresses :
      (later later' : ℕ)
      → later' < now + in_flight_ttl
      → (handle s' packet remote later later').0 ≡ suppressed
  unfolding handle on_message
  handle_suppresses later later' l =
      let (m, p, _, listening, d) =
        handle-deliver s s' packet remote looked_at now msg key (parse packet) delivered in
      let (t, k, e, b) =
        dispatch-deliver (received m remote) msg remote looked_at now s.cache s'.cache key d
          tracked in
      rw p (
        rw listening (
          suppresses (received m remote) s'.cache later later' t
            (rw (sym k) (cached_response_stays_none key looked_at later now s.cache s'.cache e b))
            (rw (sym k) (
              begin_transaction_twice key now later later' (cached_response key looked_at s.cache).1
                s'.cache tracked b l))))
