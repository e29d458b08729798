-- ===== src/H248/ReplyCache/Laws.antt =====
-- About the reply cache of internal/h248/server.go.
use megaco_sip_gateway.Prelude.{
  suc, Bytes, List, [], ◌∷◌, ◌++◌, ltb, length, length-append, ◌≤◌, refl, arith, inl, inr, ◌∙◌,
  Bool-cases,
}
use megaco_sip_gateway.Prelude.Map
use megaco_sip_gateway.Prelude.Keys.{
  contains, is_some, Agree, Agree-delete_first, Agree-insert_old, Agree-insert_new,
}
use megaco_sip_gateway.H248.ReplyCache.{
  ReplyCache, empty, max_cached_transactions, drop_oldest, cache_reply,
}

pub record IsValid (c : ReplyCache) : Type 0 where
  pub agree : Agree c.cache_order c.reply_cache
  pub bounded : length c.cache_order ≤ max_cached_transactions

pub empty-IsValid : IsValid empty
unfolding contains Map.lookup
empty-IsValid = record {
  agree = record { distinct = tt; keys_are = λ k. refl };
  bounded = omega arith;
}

drop_oldest-IsValid :
    (order : List Bytes) (m : List (Bytes × Bytes))
    → Agree order m
    → length order ≤ suc max_cached_transactions
    → IsValid (drop_oldest order m)
unfolding drop_oldest
drop_oldest-IsValid [] m a h = record { agree = a; bounded = omega arith }
drop_oldest-IsValid (k ∷ ks) m a h =
    elim (Bool-cases (ltb max_cached_transactions (length (k ∷ ks)))) [
      | inl over ↦ rw over (record { agree = Agree-delete_first k ks m a; bounded = omega arith })
      | inr fits ↦ rw fits (record { agree = a; bounded = ground arith })
    ]

-- Storing a reply keeps the cache well formed: the keys in the order list are those of the map,
-- each once, and there are at most 4096 of them.
pub cache_reply-IsValid :
    (key message : Bytes) (c : ReplyCache) → IsValid c → IsValid (cache_reply key message c)
unfolding cache_reply
cache_reply-IsValid [] message c v = v
cache_reply-IsValid (x ∷ key) message c v =
    elim (Bool-cases (is_some (Map.lookup (x ∷ key) c.reply_cache))) [
      | inl old ↦ rw old (
          drop_oldest-IsValid c.cache_order (Map.insert (x ∷ key) message c.reply_cache)
            (Agree-insert_old (x ∷ key) message c.cache_order c.reply_cache
              (v.agree.keys_are (x ∷ key) ∙ old) v.agree)
            (omega (arith, v.bounded)))
      | inr new ↦ rw new (
          drop_oldest-IsValid (c.cache_order ++ (x ∷ key) ∷ [])
            (Map.insert (x ∷ key) message c.reply_cache)
            (Agree-insert_new (x ∷ key) message c.cache_order c.reply_cache
              (v.agree.keys_are (x ∷ key) ∙ new) v.agree)
            (omega (arith, v.bounded, length-append {0} c.cache_order ((x ∷ key) ∷ []))))
    ]
