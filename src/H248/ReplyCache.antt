-- ===== src/H248/ReplyCache.antt =====
-- The reply cache of internal/h248/server.go: `cachedReply`, `cacheReply`.
pub mod Laws
pub mod Retention
use megaco_sip_gateway.Prelude.{
  ℕ, Bytes, String, lit, same, is_empty, List, [], ◌∷◌, ◌++◌, Option, none, some, ltb, length,
  if◌then◌else◌,
}
use megaco_sip_gateway.Prelude.Map
use megaco_sip_gateway.Prelude.Keys.{contains, is_some}

-- The fields of `UDPServer` that its `cacheMu` guards.
pub record ReplyCache : Type 0 where
  pub reply_cache : List (Bytes × Bytes)
  pub cache_order : List Bytes

abbrev pub empty : ReplyCache
empty = record { reply_cache = []; cache_order = [] }

abbrev pub max_cached_transactions : ℕ
max_cached_transactions = 4096

-- `""` stands for a missing entry, as in Go.
unfoldable pub cached_reply : Bytes → ReplyCache → Bytes
cached_reply key c =
    if same key (b'/' ∷ []) then [] else Map.text_or_empty (Map.lookup key c.reply_cache)

-- `if len(s.cacheOrder) > maxCachedTransactions { … }`
drop_oldest : List Bytes → List (Bytes × Bytes) → ReplyCache
drop_oldest [] m = record { reply_cache = m; cache_order = [] }
drop_oldest (oldest ∷ rest) m =
    if ltb max_cached_transactions (length (oldest ∷ rest))
    then record { reply_cache = Map.delete oldest m; cache_order = rest }
    else record { reply_cache = m; cache_order = oldest ∷ rest }

unfoldable pub cache_reply : Bytes → Bytes → ReplyCache → ReplyCache
unfolding drop_oldest
cache_reply key message c =
    if is_empty key
    then c
    else drop_oldest
        (if is_some (Map.lookup key c.reply_cache)
          then c.cache_order
          else c.cache_order ++ key ∷ [])
        (Map.insert key message c.reply_cache)
