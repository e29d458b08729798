-- ===== src/Sip/Server/Traffic.antt =====
-- What comes between a response and a retransmission at the server of internal/sip/server.go.
use megaco_sip_gateway.Prelude.{
  ℕ, suc, ◌+◌, ◌≤◌, ◌<◌, Bytes, same, is_empty, false, List, [], ◌∷◌, some, ◌≡◌, refl, ◌∙◌, arith,
  inl, inr, Bool-cases,
}
use megaco_sip_gateway.Prelude.Map
use megaco_sip_gateway.Prelude.Result.{Result, ok, err}
use megaco_sip_gateway.Net.{UdpAddr}
use megaco_sip_gateway.Sip.Message.{Message, ParseError, parse}
use megaco_sip_gateway.Sip.ResponseCache.{
  CachedResponse, ResponseCache, max_cached_transactions, begin_transaction, cached_response,
}
use megaco_sip_gateway.Sip.ResponseCache.Retention.{
  Held, IsUnanswered, cached_response-IsUnanswered, begin_transaction-IsUnanswered,
  cache_response-IsUnanswered, cached_response-Held, begin_transaction-Held,
  cache_response-Held_other,
}
use megaco_sip_gateway.Sip.Server.{
  UdpServer, is_tracked, dispatch, on_message, handle, respond, transaction_key,
}

pub data Event : Type 0 where
  -- a datagram, its sender, and the two readings of the clock
  arrives : Bytes → UdpAddr → ℕ → ℕ → Event
  -- a response of the handler for a transaction key
  responds : Bytes → Bytes → ℕ → Event

unfoldable pub step : Event → UdpServer → UdpServer
step (arrives packet remote looked_at now) s = (handle s packet remote looked_at now).1
step (responds key message now) s = respond key message now s

unfoldable pub run : List Event → UdpServer → UdpServer
run [] s = s
run (event ∷ events) s = run events (step event s)

unfoldable pub responses : List Event → ℕ
responses [] = 0
responses (arrives packet remote looked_at now ∷ events) = responses events
responses (responds key message now ∷ events) = suc (responses events)

-- No response is for the key, and no datagram comes after the deadline.
unfoldable pub IsBetween : Bytes → ℕ → List Event → Type 0
IsBetween key deadline [] = Unit {0}
IsBetween key deadline (arrives packet remote looked_at now ∷ events) =
    (looked_at ≤ deadline) × IsBetween key deadline events
IsBetween key deadline (responds j message now ∷ events) =
    (same j key ≡ false) × IsBetween key deadline events

-- A property that is kept by the parts of `dispatch` is kept by `handle`.
module _ (P : ResponseCache → Type 0) (looked_at now : ℕ)
    (looks : (j : Bytes) (c : ResponseCache) → P c → P (cached_response j looked_at c).1)
    (begins : (j : Bytes) (c : ResponseCache) → P c → P (begin_transaction j now c).1) where
  pub dispatch-kept :
      (m : Message) (remote : UdpAddr) (c : ResponseCache)
      → P c
      → P (dispatch m remote looked_at now c).1
  unfolding dispatch
  dispatch-kept m remote c h =
      let key = transaction_key m remote in
      let looked = looks key c h in
      let begun = begins key (cached_response key looked_at c).1 looked in
      elim (Bool-cases (is_tracked m)) [
        | inl e ↦ rw e (elim (Bool-cases (is_empty (cached_response key looked_at c).0)) [
          | inl f ↦
              rw f
                (elim (Bool-cases
                  (begin_transaction key now (cached_response key looked_at c).1).0) [
                    | inl g ↦ rw g begun
                    | inr g ↦ rw g begun
                  ])
          | inr f ↦ rw f looked
        ])
        | inr e ↦ rw e h
      ]

  on_message-kept :
      (s : UdpServer) (remote : UdpAddr) (r : Result ParseError Message)
      → P s.cache
      → P (on_message s remote looked_at now r).1.cache
  unfolding on_message
  on_message-kept s remote (err e) h = h
  on_message-kept s remote (ok m) h = elim (Bool-cases s.listening) [
    | inl e ↦ rw e (dispatch-kept (record m { source = some remote }) remote s.cache h)
    | inr e ↦ rw e h
  ]

  pub handle-kept :
      (s : UdpServer) (packet : Bytes) (remote : UdpAddr)
      → P s.cache
      → P (handle s packet remote looked_at now).1.cache
  unfolding handle
  handle-kept s packet remote = on_message-kept s remote (parse packet)

on_message-listening :
    (s : UdpServer) (remote : UdpAddr) (looked_at now : ℕ) (r : Result ParseError Message)
    → (on_message s remote looked_at now r).1.listening ≡ s.listening
unfolding on_message
on_message-listening s remote looked_at now (err e) = refl
on_message-listening s remote looked_at now (ok m) = elim (Bool-cases s.listening) [
  | inl e ↦ rw e refl
  | inr e ↦ rw e refl
]

step-listening : (event : Event) (s : UdpServer) → (step event s).listening ≡ s.listening
unfolding step handle respond
step-listening (arrives packet remote looked_at now) s =
    on_message-listening s remote looked_at now (parse packet)
step-listening (responds key message now) s = refl

pub run-listening : (events : List Event) (s : UdpServer) → (run events s).listening ≡ s.listening
unfolding run
run-listening [] s = refl
run-listening (event ∷ events) s = run-listening events (step event s) ∙ step-listening event s

-- A response outlasts what comes before its deadline, with fewer than 8192 other responses.
pub stored-run :
    (key : Bytes) (entry : CachedResponse) (events : List Event) (n : ℕ) (s : UdpServer)
    → IsBetween key entry.expires_at events
    → n + responses events < max_cached_transactions
    → Held key entry n s.cache
    → Map.lookup key (run events s).cache.response_cache ≡ some entry
unfolding run step respond responses IsBetween
stored-run key entry [] n s between few h = h.stored
stored-run key entry (arrives packet remote looked_at now ∷ events) n s (early, between) few h =
    stored-run key entry events n _ between few (
      handle-kept (Held key entry n) looked_at now
        (λ j c. cached_response-Held key j entry n looked_at c early)
        (λ j c. begin_transaction-Held key j entry n now c) s packet remote h)
stored-run key entry (responds j message now ∷ events) n s (other, between) few h =
    stored-run key entry events (suc n) _ between (omega arith)
      (cache_response-Held_other key j message entry now n s.cache other (omega arith) h)

-- No response is for the key.
unfoldable pub IsSilent : Bytes → List Event → Type 0
IsSilent key [] = Unit {0}
IsSilent key (arrives packet remote looked_at now ∷ events) = IsSilent key events
IsSilent key (responds j message now ∷ events) = (same j key ≡ false) × IsSilent key events

pub run-IsUnanswered :
    (key : Bytes) (events : List Event) (s : UdpServer)
    → IsSilent key events
    → IsUnanswered key s.cache
    → IsUnanswered key (run events s).cache
unfolding run step respond IsSilent
run-IsUnanswered key [] s silent h = h
run-IsUnanswered key (arrives packet remote looked_at now ∷ events) s silent h =
    run-IsUnanswered key events _ silent (
      handle-kept (IsUnanswered key) looked_at now
        (λ j c. cached_response-IsUnanswered key j looked_at c)
        (λ j c. begin_transaction-IsUnanswered key j now c) s packet remote h)
run-IsUnanswered key (responds j message now ∷ events) s (other, silent) h =
    run-IsUnanswered key events _ silent
      (cache_response-IsUnanswered key j message now s.cache other h)
