-- ===== src/Sip/ResponseCache/Laws.antt =====
-- About the transaction cache of internal/sip/server.go.
use megaco_sip_gateway.Prelude.{
  ℕ, ◌+◌, ◌≤◌, Bytes, same, same_iff, false, List, [], ◌∷◌, ◌++◌, Option, none, some, ltb, length,
  ◌≡◌, ◌∙◌, arith, inl, inr, if◌then◌else◌, Bool-cases,
}
use megaco_sip_gateway.Prelude.Map
use megaco_sip_gateway.Prelude.Keys.{
  contains, is_some, IsDistinct, Agree, Agree-delete_first, Agree-insert_old, Agree-insert_new,
}
use megaco_sip_gateway.Sip.ResponseCache.{
  CachedResponse, ResponseCache, max_cached_transactions, response_cache_ttl, is_running,
  begin_transaction, remove_key, answer, cached_response, drop_oldest, cache_response,
}

pub record IsValid (c : ResponseCache) : Type 0 where
  pub agree : Agree c.cache_order c.response_cache
  pub bounded : length c.cache_order ≤ max_cached_transactions

pub contains-remove_key :
    (key j : Bytes) (ks : List Bytes)
    → contains j (remove_key key ks) ≡ (if same key j then false else contains j ks)
unfolding contains remove_key
contains-remove_key key j [] = ground arith
contains-remove_key key j (k ∷ ks) =
    ground (arith, contains-remove_key key j ks, same_iff k key, same_iff k j, same_iff key j)

pub length-remove_key : (key : Bytes) (ks : List Bytes) → length (remove_key key ks) ≤ length ks
unfolding remove_key
length-remove_key key [] = omega arith
length-remove_key key (k ∷ ks) = ground (arith, length-remove_key key ks)

IsDistinct-remove_key :
    (key : Bytes) (ks : List Bytes) → IsDistinct ks → IsDistinct (remove_key key ks)
unfolding remove_key
IsDistinct-remove_key key [] d = tt
IsDistinct-remove_key key (k ∷ ks) d = elim (Bool-cases (same k key)) [
  | inl e ↦ rw e (IsDistinct-remove_key key ks d.1)
  | inr e ↦
      rw e (ground (arith, contains-remove_key key k ks, d.0), IsDistinct-remove_key key ks d.1)
]

Agree-remove :
    (key : Bytes) (ks : List Bytes) (m : List (Bytes × CachedResponse))
    → Agree ks m
    → Agree (remove_key key ks) (Map.delete key m)
Agree-remove key ks m a = record {
  distinct = IsDistinct-remove_key key ks a.distinct;
  keys_are = λ j. rw (contains-remove_key, Map.lookup-delete) (ground (arith, a.keys_are j));
}

pub begin_transaction-IsValid :
    (key : Bytes) (now : ℕ) (c : ResponseCache)
    → IsValid c
    → IsValid (begin_transaction key now c).1
unfolding begin_transaction
begin_transaction-IsValid [] now c v = v
begin_transaction-IsValid (x ∷ key) now c v =
    elim (Bool-cases (is_running (Map.lookup (x ∷ key) c.in_flight) now)) [
      | inl e ↦ rw e v
      | inr e ↦ rw e (record { agree = v.agree; bounded = v.bounded })
    ]

-- A lookup keeps the cache well formed, also when it drops an entry that has expired.
pub cached_response-IsValid :
    (key : Bytes) (now : ℕ) (c : ResponseCache) → IsValid c → IsValid (cached_response key now c).1
unfolding cached_response
cached_response-IsValid [] now c v = v
cached_response-IsValid (x ∷ key) now c v = go (Map.lookup (x ∷ key) c.response_cache)
  where
    go : (o : Option CachedResponse) → IsValid (answer (x ∷ key) now c o).1
    go none = v
    go (some entry) = elim (Bool-cases (ltb entry.expires_at now)) [
      | inl e ↦ rw e (record {
        agree = Agree-remove (x ∷ key) c.cache_order c.response_cache v.agree;
        bounded = omega (arith, v.bounded, length-remove_key (x ∷ key) c.cache_order);
      })
      | inr e ↦ rw e v
    ]

-- The loop leaves at most 8192 keys, the newest, and the map agrees with them.
drop_oldest_lem :
    (order : List Bytes) (m : List (Bytes × CachedResponse))
    → Agree order m
    → Agree (drop_oldest order m).0 (drop_oldest order m).1
      × (length (drop_oldest order m).0 ≤ max_cached_transactions)
unfolding drop_oldest
drop_oldest_lem [] m a = (a, omega arith)
drop_oldest_lem (k ∷ ks) m a = elim (Bool-cases (ltb max_cached_transactions (length (k ∷ ks)))) [
  | inl over ↦ rw over (drop_oldest_lem ks (Map.delete k m) (Agree-delete_first k ks m a))
  | inr fits ↦ rw fits (a, ground arith)
]

-- Storing a response keeps the cache well formed: the keys in the order list are those of the
-- map, each once, and there are at most 8192 of them.
pub cache_response-IsValid :
    (key message : Bytes) (now : ℕ) (c : ResponseCache)
    → IsValid c
    → IsValid (cache_response key message now c)
unfolding cache_response
cache_response-IsValid [] message now c v = v
cache_response-IsValid (x ∷ key) message now c v =
    elim (Bool-cases (is_some (Map.lookup (x ∷ key) c.response_cache))) [
      | inl old ↦ rw old (
          valid (
            drop_oldest_lem c.cache_order (Map.insert (x ∷ key) entry c.response_cache) (
              Agree-insert_old (x ∷ key) entry c.cache_order c.response_cache
                (v.agree.keys_are (x ∷ key) ∙ old) v.agree)))
      | inr new ↦ rw new (
          valid (
            drop_oldest_lem (c.cache_order ++ (x ∷ key) ∷ [])
              (Map.insert (x ∷ key) entry c.response_cache)
              (Agree-insert_new (x ∷ key) entry c.cache_order c.response_cache
                (v.agree.keys_are (x ∷ key) ∙ new) v.agree)))
    ]
  where
    entry : CachedResponse
    entry = record { message = message; expires_at = now + response_cache_ttl }

    valid :
        {order : List Bytes} {m : List (Bytes × CachedResponse)} {flying : List (Bytes × ℕ)}
        → Agree order m × (length order ≤ max_cached_transactions)
        → IsValid (record { response_cache = m; cache_order = order; in_flight = flying })
    valid (a, b) = record { agree = a; bounded = b }
