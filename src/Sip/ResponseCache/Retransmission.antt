-- ===== src/Sip/ResponseCache/Retransmission.antt =====
-- What a retransmitted request meets: the running transaction, or its response.
use megaco_sip_gateway.Prelude.{
  ℕ, ◌+◌, ◌<◌, Bytes, same_refl, is_empty, true, false, [], ◌∷◌, ◌≡◌, arith, inl, inr, Bool-cases,
}
use megaco_sip_gateway.Prelude.Map
use megaco_sip_gateway.Sip.ResponseCache.{
  ResponseCache, in_flight_ttl, is_running, begin_transaction, cached_response,
}

in_flight-cached_response :
    (key : Bytes) (now : ℕ) (c : ResponseCache)
    → (cached_response key now c).1.in_flight ≡ c.in_flight
unfolding cached_response
in_flight-cached_response key now c = ground arith

-- In the state that the begin of a transaction and one lookup leave, its key does not begin again
-- before 32 seconds are over.
pub begin_transaction_twice :
    (key : Bytes) (now looked later : ℕ) (c c' : ResponseCache)
    → is_empty key ≡ false
    → begin_transaction key now c ≡ (true, c')
    → later < now + in_flight_ttl
    → (begin_transaction key later (cached_response key looked c').1).0 ≡ false
unfolding begin_transaction
begin_transaction_twice key now looked later c c' e b h =
    elim (Bool-cases (is_running (Map.lookup key c.in_flight) now)) [
      | inl r ↦ absurd (ground (arith, e, r, b))
      | inr r ↦ ground (
        arith,
        e,
        r,
        b,
        Map.lookup-insert key key (now + in_flight_ttl) c.in_flight,
        same_refl key,
        in_flight-cached_response key looked c',
      )
    ]

-- Where no response was found, none is found until one is stored.
pub cached_response_stays_none :
    (key : Bytes) (now looked later : ℕ) (c c' : ResponseCache)
    → is_empty (cached_response key now c).0 ≡ true
    → begin_transaction key later (cached_response key now c).1 ≡ (true, c')
    → is_empty (cached_response key looked c').0 ≡ true
unfolding cached_response begin_transaction
cached_response_stays_none [] now looked later c c' e b = ground arith
cached_response_stays_none (x ∷ key) now looked later c c' e b =
    ground (arith, Map.lookup-delete (x ∷ key) (x ∷ key) c.response_cache, same_refl (x ∷ key))
