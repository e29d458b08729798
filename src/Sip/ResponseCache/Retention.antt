-- ===== src/Sip/ResponseCache/Retention.antt =====
-- How long a response stays in the transaction cache of internal/sip/server.go.
use megaco_sip_gateway.Prelude.{
  ℕ, suc, ◌+◌, ◌≤◌, ◌<◌, Bytes, same, same_iff, same_refl, is_empty, true, false, List, [], ◌∷◌,
  ◌++◌, Option, none, some, ltb, length, ◌≡◌, refl, ◌∙◌, arith, inl, inr, Bool-cases,
}
use megaco_sip_gateway.Prelude.Map
use megaco_sip_gateway.Prelude.Keys.{
  contains, is_some, behind, contains-append, behind-append, behind-append_self,
}
use megaco_sip_gateway.Sip.ResponseCache.{
  CachedResponse, ResponseCache, max_cached_transactions, response_cache_ttl, is_running,
  begin_transaction, remove_key, answer, cached_response, drop_oldest, cache_response,
}
use megaco_sip_gateway.Sip.ResponseCache.Laws.{
  IsValid, cached_response-IsValid, begin_transaction-IsValid, cache_response-IsValid,
  contains-remove_key, length-remove_key,
}

-- `entry` is stored for `key`, and at most `n` keys were inserted after it.
pub record Held (key : Bytes) (entry : CachedResponse) (n : ℕ) (c : ResponseCache) : Type 0 where
  pub listed : contains key c.cache_order ≡ true
  pub recent : behind key c.cache_order ≤ n
  pub stored : Map.lookup key c.response_cache ≡ some entry

behind-remove_key :
    (key j : Bytes) (ks : List Bytes)
    → same j key ≡ false
    → behind key (remove_key j ks) ≤ behind key ks
unfolding behind remove_key
behind-remove_key key j [] h = omega arith
behind-remove_key key j (k ∷ ks) h = ground (
  arith,
  h,
  behind-remove_key key j ks h,
  length-remove_key j ks,
  same_iff k j,
  same_iff k key,
  same_iff j key,
)

drop_oldest-Held :
    (key : Bytes) (entry : CachedResponse) (n : ℕ) (order : List Bytes)
    (m : List (Bytes × CachedResponse)) (flying : List (Bytes × ℕ))
    → contains key order ≡ true
    → behind key order ≤ n
    → n < max_cached_transactions
    → Map.lookup key m ≡ some entry
    → Held key entry n (record {
      response_cache = (drop_oldest order m).1;
      cache_order = (drop_oldest order m).0;
      in_flight = flying;
    })
unfolding drop_oldest contains behind
drop_oldest-Held key entry n [] m flying l r b s = cc
drop_oldest-Held key entry n (k ∷ ks) m flying l r b s =
    elim (Bool-cases (ltb max_cached_transactions (length (k ∷ ks)))) [
      | inl over ↦ elim (Bool-cases (same k key)) [
        | inl e ↦ absurd (ground (arith, over, e))
        | inr e ↦ rw over (
            drop_oldest-Held key entry n ks (Map.delete k m) flying (ground arith) (ground arith) b
              (rw Map.lookup-delete (rw e s)))
      ]
      | inr fits ↦ rw fits (record { listed = l; recent = r; stored = s })
    ]

-- A key that was not there is the newest.
pub cache_response-Held_self :
    (key message : Bytes) (now : ℕ) (c : ResponseCache)
    → is_empty key ≡ false
    → IsValid c
    → Map.lookup key c.response_cache ≡ none
    → Held key
        (record { message = message; expires_at = now + response_cache_ttl })
        0
        (cache_response key message now c)
unfolding cache_response
cache_response-Held_self [] message now c e v new = cc
cache_response-Held_self (x ∷ key) message now c e v new =
    let listed = v.agree.keys_are (x ∷ key) in
    let absent : contains (x ∷ key) c.cache_order ≡ false = rw listed (rw new refl) in
    rw new (
      drop_oldest-Held (x ∷ key) _ 0 (c.cache_order ++ (x ∷ key) ∷ []) _ _
        (rw contains-append (ground (arith, same_refl (x ∷ key))))
        (omega (arith, behind-append_self (x ∷ key) c.cache_order absent)) (omega arith)
        (rw Map.lookup-insert (rw same_refl)))

-- A response for another key
pub cache_response-Held_other :
    (key j message : Bytes) (entry : CachedResponse) (now n : ℕ) (c : ResponseCache)
    → same j key ≡ false
    → suc n < max_cached_transactions
    → Held key entry n c
    → Held key entry (suc n) (cache_response j message now c)
unfolding cache_response
cache_response-Held_other key [] message entry now n c ne b h = record {
  listed = h.listed;
  recent = omega (arith, h.recent);
  stored = h.stored;
}
cache_response-Held_other key (x ∷ j) message entry now n c ne b h =
    let kept : (m : CachedResponse)
        → Map.lookup key (Map.insert (x ∷ j) m c.response_cache) ≡ some entry =
      λ m. rw Map.lookup-insert (rw ne h.stored) in
    elim (Bool-cases (is_some (Map.lookup (x ∷ j) c.response_cache))) [
      | inl old ↦ rw old (
          drop_oldest-Held key entry (suc n) c.cache_order _ _ h.listed (omega (arith, h.recent)) b
            (kept _))
      | inr new ↦ rw new (
          drop_oldest-Held key entry (suc n) (c.cache_order ++ (x ∷ j) ∷ []) _ _
            (rw contains-append (rw h.listed))
            (omega (arith, h.recent, behind-append key (x ∷ j) c.cache_order h.listed)) b (kept _))
    ]

-- The response is found until it expires.
pub stored-cached_response :
    (key : Bytes) (entry : CachedResponse) (now : ℕ) (c : ResponseCache)
    → is_empty key ≡ false
    → now ≤ entry.expires_at
    → Map.lookup key c.response_cache ≡ some entry
    → cached_response key now c ≡ (entry.message, c)
unfolding cached_response answer
stored-cached_response key entry now c e l h =
    let fresh : ltb entry.expires_at now ≡ false = ground (arith, l) in rw e (rw h (rw fresh refl))

answer-Held :
    (key j : Bytes) (entry : CachedResponse) (n now : ℕ) (c : ResponseCache)
    → same j key ≡ false
    → Held key entry n c
    → (o : Option CachedResponse) → Held key entry n (answer j now c o).1
unfolding answer
answer-Held key j entry n now c ne h none = h
answer-Held key j entry n now c ne h (some other) = elim (Bool-cases (ltb other.expires_at now)) [
  | inl e ↦ rw e (record {
    listed = rw contains-remove_key (rw ne h.listed);
    recent = omega (arith, h.recent, behind-remove_key key j c.cache_order ne);
    stored = rw Map.lookup-delete (rw ne h.stored);
  })
  | inr e ↦ rw e h
]

-- A lookup in time keeps the response, also one that drops another response.
pub cached_response-Held :
    (key j : Bytes) (entry : CachedResponse) (n now : ℕ) (c : ResponseCache)
    → now ≤ entry.expires_at
    → Held key entry n c
    → Held key entry n (cached_response j now c).1
unfolding cached_response
cached_response-Held key [] entry n now c l h = h
cached_response-Held key (x ∷ j) entry n now c l h = elim (Bool-cases (same (x ∷ j) key)) [
  | inl e ↦
      let is : x ∷ j ≡ key = (same_iff (x ∷ j) key).0 e in
      let fresh : ltb entry.expires_at now ≡ false = ground (arith, l) in
      rw (is ∙ refl) (rw h.stored (rw fresh h))
  | inr ne ↦ answer-Held key (x ∷ j) entry n now c ne h _
]

pub begin_transaction-Held :
    (key j : Bytes) (entry : CachedResponse) (n now : ℕ) (c : ResponseCache)
    → Held key entry n c
    → Held key entry n (begin_transaction j now c).1
unfolding begin_transaction
begin_transaction-Held key j entry n now c h = elim (Bool-cases (is_empty j)) [
  | inl e ↦ rw e h
  | inr e ↦ elim (Bool-cases (is_running (Map.lookup j c.in_flight) now)) [
    | inl r ↦ rw e (rw r h)
    | inr r ↦ rw e (rw r (record { listed = h.listed; recent = h.recent; stored = h.stored }))
  ]
]

-- No response is stored for `key`.
pub record IsUnanswered (key : Bytes) (c : ResponseCache) : Type 0 where
  pub valid : IsValid c
  pub absent : Map.lookup key c.response_cache ≡ none

answer-absent :
    (key j : Bytes) (now : ℕ) (c : ResponseCache)
    → Map.lookup key c.response_cache ≡ none
    → (o : Option CachedResponse) → Map.lookup key (answer j now c o).1.response_cache ≡ none
unfolding answer
answer-absent key j now c h none = h
answer-absent key j now c h (some other) = elim (Bool-cases (ltb other.expires_at now)) [
  | inl e ↦ rw e (rw Map.lookup-delete (rw h (ground arith)))
  | inr e ↦ rw e h
]

pub cached_response-IsUnanswered :
    (key j : Bytes) (now : ℕ) (c : ResponseCache)
    → IsUnanswered key c
    → IsUnanswered key (cached_response j now c).1
unfolding cached_response
cached_response-IsUnanswered key [] now c h = h
cached_response-IsUnanswered key (x ∷ j) now c h = record {
  valid = cached_response-IsValid (x ∷ j) now c h.valid;
  absent = answer-absent key (x ∷ j) now c h.absent _;
}

pub begin_transaction-IsUnanswered :
    (key j : Bytes) (now : ℕ) (c : ResponseCache)
    → IsUnanswered key c
    → IsUnanswered key (begin_transaction j now c).1
unfolding begin_transaction
begin_transaction-IsUnanswered key j now c h = record {
  valid = begin_transaction-IsValid j now c h.valid;
  absent = elim (Bool-cases (is_empty j)) [
    | inl e ↦ rw e h.absent
    | inr e ↦ elim (Bool-cases (is_running (Map.lookup j c.in_flight) now)) [
      | inl r ↦ rw e (rw r h.absent)
      | inr r ↦ rw e (rw r h.absent)
    ]
  ];
}

drop_oldest-absent :
    (key : Bytes) (order : List Bytes) (m : List (Bytes × CachedResponse))
    → Map.lookup key m ≡ none
    → Map.lookup key (drop_oldest order m).1 ≡ none
unfolding drop_oldest
drop_oldest-absent key [] m h = h
drop_oldest-absent key (k ∷ ks) m h =
    elim (Bool-cases (ltb max_cached_transactions (length (k ∷ ks)))) [
      | inl over ↦
          rw over (
            drop_oldest-absent key ks (Map.delete k m) (rw Map.lookup-delete (rw h (ground arith))))
      | inr fits ↦ rw fits h
    ]

pub cache_response-IsUnanswered :
    (key j message : Bytes) (now : ℕ) (c : ResponseCache)
    → same j key ≡ false
    → IsUnanswered key c
    → IsUnanswered key (cache_response j message now c)
unfolding cache_response
cache_response-IsUnanswered key [] message now c ne h = h
cache_response-IsUnanswered key (x ∷ j) message now c ne h = record {
  valid = cache_response-IsValid (x ∷ j) message now c h.valid;
  absent = drop_oldest-absent key _ _ (rw Map.lookup-insert (rw ne h.absent));
}
