-- ===== src/Sip/ResponseCache.antt =====
-- The transaction cache of internal/sip/server.go: `beginTransaction`, `cachedResponse`,
-- `cacheResponse`, `removeCachedKeyLocked`. Times are nanoseconds of one clock.
pub mod Laws
pub mod Retransmission
pub mod Retention
use megaco_sip_gateway.Prelude.{
  ℕ, ◌+◌, ◌*◌, Bytes, same, is_empty, Bool, true, false, List, [], ◌∷◌, ◌++◌, Option, none, some,
  ltb, length, if◌then◌else◌,
}
use megaco_sip_gateway.Prelude.Map
use megaco_sip_gateway.Prelude.Keys.{is_some}

pub record CachedResponse : Type 0 where
  pub message : Bytes
  pub expires_at : ℕ

-- The fields of `UDPServer` that its `cacheMu` guards.
pub record ResponseCache : Type 0 where
  pub response_cache : List (Bytes × CachedResponse)
  pub cache_order : List Bytes
  pub in_flight : List (Bytes × ℕ)

abbrev pub empty : ResponseCache
empty = record { response_cache = []; cache_order = []; in_flight = [] }

abbrev pub max_cached_transactions : ℕ
max_cached_transactions = 8192

abbrev pub response_cache_ttl : ℕ
response_cache_ttl = 300_000_000_000

abbrev pub in_flight_ttl : ℕ
in_flight_ttl = 32_000_000_000

-- `exists && now.Before(expiresAt)`
abbrev pub is_running : Option ℕ → ℕ → Bool
is_running none now = false
is_running (some expires_at) now = ltb now expires_at

unfoldable pub begin_transaction : Bytes → ℕ → ResponseCache → Bool × ResponseCache
begin_transaction key now c =
    if is_empty key
    then (true, c)
    else if is_running (Map.lookup key c.in_flight) now
    then (false, c)
    else (true, record c { in_flight = Map.insert key (now + in_flight_ttl) c.in_flight })

unfoldable pub remove_key : Bytes → List Bytes → List Bytes
remove_key key [] = []
remove_key key (k ∷ ks) = let rest = remove_key key ks in if same k key then rest else k ∷ rest

answer : Bytes → ℕ → ResponseCache → Option CachedResponse → Bytes × ResponseCache
answer key now c none = ([], c)
answer key now c (some entry) =
    if ltb entry.expires_at now
    then (
      [],
      record c {
        response_cache = Map.delete key c.response_cache;
        cache_order = remove_key key c.cache_order;
      },
    )
    else (entry.message, c)

-- `""` stands for a missing entry, as in Go.
unfoldable pub cached_response : Bytes → ℕ → ResponseCache → Bytes × ResponseCache
unfolding answer
cached_response key now c =
    if is_empty key then ([], c) else answer key now c (Map.lookup key c.response_cache)

-- `for len(s.cacheOrder) > maxCachedTransactions { … }`
pub drop_oldest :
    List Bytes → List (Bytes × CachedResponse) → List Bytes × List (Bytes × CachedResponse)
drop_oldest [] m = ([], m)
drop_oldest (oldest ∷ rest) m =
    let dropped = drop_oldest rest (Map.delete oldest m) in
    if ltb max_cached_transactions (length (oldest ∷ rest)) then dropped else (oldest ∷ rest, m)

unfoldable pub cache_response : Bytes → Bytes → ℕ → ResponseCache → ResponseCache
cache_response key message now c =
    if is_empty key
    then c
    else let order =
        if is_some (Map.lookup key c.response_cache)
        then c.cache_order
        else c.cache_order ++ key ∷ [] in
      let entry : CachedResponse = record {
        message = message;
        expires_at = now + response_cache_ttl;
      } in
      let kept = drop_oldest order (Map.insert key entry c.response_cache) in
      record {
        response_cache = kept.1;
        cache_order = kept.0;
        in_flight = Map.delete key c.in_flight;
      }
