-- ===== src/H248/ReplyCache/Retention.antt =====
-- How long a reply stays in the cache.
use megaco_sip_gateway.Prelude.{
  ℕ, suc, Bytes, same, same_refl, is_empty, true, false, List, [], ◌∷◌, ◌++◌, some, ltb, length,
  ◌≡◌, ◌≤◌, ◌<◌, ◌+◌, sym, arith, inl, inr, ◌∙◌, Bool-cases,
}
use megaco_sip_gateway.Prelude.Map
use megaco_sip_gateway.Prelude.Keys.{
  contains, is_some, behind, contains-append, behind-append, behind-append_self,
}
use megaco_sip_gateway.H248.ReplyCache.{
  ReplyCache, max_cached_transactions, cached_reply, drop_oldest, cache_reply,
}
use megaco_sip_gateway.H248.ReplyCache.Laws.{IsValid, cache_reply-IsValid}

-- `key` is stored with `message`, and at most `n` keys were inserted after it.
record Held (key message : Bytes) (n : ℕ) (c : ReplyCache) : Type 0 where
  listed : contains key c.cache_order ≡ true
  recent : behind key c.cache_order ≤ n
  stored : Map.lookup key c.reply_cache ≡ some message

drop_oldest-Held :
    (key message : Bytes) (n : ℕ) (order : List Bytes) (m : List (Bytes × Bytes))
    → contains key order ≡ true
    → behind key order ≤ n
    → n < max_cached_transactions
    → Map.lookup key m ≡ some message
    → Held key message n (drop_oldest order m)
unfolding drop_oldest contains behind
drop_oldest-Held key message n [] m l r b s = cc
drop_oldest-Held key message n (k ∷ ks) m l r b s =
    elim (Bool-cases (ltb max_cached_transactions (length (k ∷ ks)))) [
      | inl over ↦ elim (Bool-cases (same k key)) [
        | inl e ↦ absurd (ground (arith, over, e))
        | inr e ↦ rw over (record {
          listed = ground arith;
          recent = ground arith;
          stored = rw Map.lookup-delete (rw e s);
        })
      ]
      | inr fits ↦ rw fits (record { listed = l; recent = r; stored = s })
    ]

-- The key that is stored is the newest, unless it was there.
cache_reply-Held_self :
    (key message : Bytes) (c : ReplyCache)
    → is_empty key ≡ false
    → IsValid c
    → contains key c.cache_order ≡ false
    → Held key message 0 (cache_reply key message c)
unfolding cache_reply
cache_reply-Held_self [] message c e v new = cc
cache_reply-Held_self (x ∷ key) message c e v new = rw (sym (v.agree.keys_are (x ∷ key)) ∙ new) (
    drop_oldest-Held (x ∷ key) message 0 (c.cache_order ++ (x ∷ key) ∷ [])
      (Map.insert (x ∷ key) message c.reply_cache)
      (rw contains-append (ground (arith, same_refl (x ∷ key))))
      (omega (arith, behind-append_self (x ∷ key) c.cache_order new)) (omega arith)
      (rw Map.lookup-insert (rw same_refl)))

cache_reply-Held_other :
    (key message j other : Bytes) (n : ℕ) (c : ReplyCache)
    → same j key ≡ false
    → IsValid c
    → suc n < max_cached_transactions
    → Held key message n c
    → Held key message (suc n) (cache_reply j other c)
unfolding cache_reply
cache_reply-Held_other key message [] other n c ne v b h = record {
  listed = h.listed;
  recent = omega (arith, h.recent);
  stored = h.stored;
}
cache_reply-Held_other key message (x ∷ j) other n c ne v b h =
    let kept : Map.lookup key (Map.insert (x ∷ j) other c.reply_cache) ≡ some message =
      rw Map.lookup-insert (rw ne h.stored) in
    elim (Bool-cases (is_some (Map.lookup (x ∷ j) c.reply_cache))) [
      | inl old ↦ rw old (
          drop_oldest-Held key message (suc n) c.cache_order _ h.listed (omega (arith, h.recent)) b
            kept)
      | inr new ↦ rw new (
          drop_oldest-Held key message (suc n) (c.cache_order ++ (x ∷ j) ∷ []) _
            (rw contains-append (rw h.listed))
            (omega (arith, h.recent, behind-append key (x ∷ j) c.cache_order h.listed)) b kept)
    ]

-- The replies stored in turn.
abbrev pub store_all : List (Bytes × Bytes) → ReplyCache → ReplyCache
store_all [] c = c
store_all ((key, message) ∷ entries) c = store_all entries (cache_reply key message c)

abbrev pub NoneFor : Bytes → List (Bytes × Bytes) → Type 0
NoneFor key [] = Unit
NoneFor key ((j, message) ∷ entries) = (same j key ≡ false) × NoneFor key entries

store_all-Held :
    (key message : Bytes) (entries : List (Bytes × Bytes)) (n : ℕ) (c : ReplyCache)
    → NoneFor key entries
    → IsValid c
    → n + length entries < max_cached_transactions
    → Held key message n c
    → Map.lookup key (store_all entries c).reply_cache ≡ some message
store_all-Held key message [] n c o v b h = h.stored
store_all-Held key message ((j, other) ∷ entries) n c o v b h =
    store_all-Held key message entries (suc n) (cache_reply j other c) o.1
      (cache_reply-IsValid j other c v) (omega arith)
      (cache_reply-Held_other key message j other n c o.0 v (omega arith) h)

-- In a well-formed cache, a reply that is stored for a new transaction key, not empty and not
-- `/`, is the answer to a retransmission as long as fewer than 4096 replies have been stored
-- after it, all for other keys.
pub cached_reply-store_all :
    (key message : Bytes) (later : List (Bytes × Bytes)) (c : ReplyCache)
    → is_empty key ≡ false
    → same key (b'/' ∷ []) ≡ false
    → IsValid c
    → contains key c.cache_order ≡ false
    → NoneFor key later
    → length later < max_cached_transactions
    → cached_reply key (store_all later (cache_reply key message c)) ≡ message
unfolding cached_reply
cached_reply-store_all key message later c e s v new o b = rw s (
    rw (
      store_all-Held key message later 0 (cache_reply key message c) o
        (cache_reply-IsValid key message c v) (omega arith)
        (cache_reply-Held_self key message c e v new)))
