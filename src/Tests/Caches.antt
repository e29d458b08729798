-- ===== src/Tests/Caches.antt =====
-- The caches of both servers.
use megaco_sip_gateway.Sip.Server.Traffic.{
  Event, arrives, responds, run, responses, IsBetween, IsSilent,
}
use megaco_sip_gateway.Sip.ResponseCache.{response_cache_ttl}
use megaco_sip_gateway.Prelude.{
  List, ◌+◌, equal_fold, pos, Bytes, lit, same, true, [], ◌∷◌, ◌≡◌, refl, arith, some,
}
use megaco_sip_gateway.Prelude.Map
use megaco_sip_gateway.Prelude.Keys.{contains}
use megaco_sip_gateway.Net.{addr_string}
use megaco_sip_gateway.Prelude.Strings.{join, is_in}
use megaco_sip_gateway.H248
use megaco_sip_gateway.H248.ReplyCache.Laws.{empty-IsValid}
use megaco_sip_gateway.H248.ReplyCache.Retention.{store_all}
use megaco_sip_gateway.H248.ReplyCache.{cached_reply, cache_reply}
use megaco_sip_gateway.Sip.ResponseCache.{
  ResponseCache, empty, begin_transaction, cached_response, cache_response, response_cache_ttl,
}
use megaco_sip_gateway.Sip
use megaco_sip_gateway.Sip.Server.{
  dispatch, is_tracked, header_parameter, UdpServer, deliver, replayed, suppressed, handle, respond,
  transaction_key,
}
use megaco_sip_gateway.Sip.Message.{Message, parse, call_id, header}
use megaco_sip_gateway.Prelude.Decimal.{itoa}
use megaco_sip_gateway.Sip.Server.Once
use megaco_sip_gateway.Tests.Data.{home}

cache_reply-IsValid_example :
    H248.ReplyCache.Laws.IsValid (cache_reply (lit "a/1") (lit "r") H248.ReplyCache.empty)
cache_reply-IsValid_example =
    H248.ReplyCache.Laws.cache_reply-IsValid (lit "a/1") (lit "r") H248.ReplyCache.empty
      empty-IsValid

cached_reply-store_all_example :
    cached_reply (lit "a/1") (
      store_all
        ((lit "a/2", lit "x") ∷ [])
        (cache_reply (lit "a/1") (lit "r") H248.ReplyCache.empty))
    ≡ lit "r"
unfolding lit same contains
cached_reply-store_all_example =
    H248.ReplyCache.Retention.cached_reply-store_all (lit "a/1") (lit "r")
      ((lit "a/2", lit "x") ∷ []) H248.ReplyCache.empty refl refl empty-IsValid refl (refl, tt)
      (omega arith)

empty_cache-IsValid : Sip.ResponseCache.Laws.IsValid empty
unfolding contains Map.lookup
empty_cache-IsValid = record {
  agree = record { distinct = tt; keys_are = λ k. refl };
  bounded = omega arith;
}

cache_response-IsValid_example :
    Sip.ResponseCache.Laws.IsValid (cache_response (lit "k") (lit "r") 5 empty)
cache_response-IsValid_example =
    Sip.ResponseCache.Laws.cache_response-IsValid (lit "k") (lit "r") 5 empty empty_cache-IsValid

abbrev server : UdpServer
server = record { listening = true; cache = empty }

abbrev datagram : Bytes
datagram = lit "OPTIONS sip:a SIP/2.0\r\nCall-ID: 1\r\nCSeq: 1 OPTIONS\r\n\r\n"

handle-IsValid_example : Sip.ResponseCache.Laws.IsValid (handle server datagram home 5 5).1.cache
handle-IsValid_example = Once.handle-IsValid server datagram home 5 5 empty_cache-IsValid

-- The request of the datagram, as the handler gets it
abbrev request : Message
request = record {
  start_line = lit "OPTIONS sip:a SIP/2.0";
  method = lit "OPTIONS";
  uri = lit "sip:a";
  status = pos 0;
  reason = [];
  headers = (lit "Call-Id", lit "1" ∷ []) ∷ (lit "Cseq", lit "1 OPTIONS" ∷ []) ∷ [];
  body = [];
  source = some home;
}

delivered :
    handle server datagram home 5 5
    ≡ (deliver request (transaction_key request home), (handle server datagram home 5 5).1)
unfolding handle dispatch parse is_tracked equal_fold cached_response transaction_key addr_string
    is_in begin_transaction call_id header header_parameter itoa lit same
delivered = refl

-- The datagram again before its response, and the response for another key after it
abbrev before : List Event
before = arrives datagram home 5 5 ∷ []

abbrev after : List Event
after = arrives datagram home 6 6 ∷ responds (lit "other") (lit "r2") 6 ∷ []

after-IsBetween : IsBetween (transaction_key request home) (6 + response_cache_ttl) after
unfolding IsBetween transaction_key lit join addr_string is_in same
after-IsBetween = (omega arith, (refl, tt))

before-IsSilent : IsSilent (transaction_key request home) before
unfolding IsSilent
before-IsSilent = tt

handle_replays_example :
    handle
      (run after (
        respond
          (transaction_key request home)
          (lit "r")
          6
          (run before (handle server datagram home 5 5).1)))
      datagram
      home
      7
      7
    ≡ (
      replayed (lit "r"),
      run after (
          respond
            (transaction_key request home)
            (lit "r")
            6
            (run before (handle server datagram home 5 5).1)),
    )
unfolding lit transaction_key join addr_string is_in responses handle dispatch parse is_tracked
    equal_fold cached_response begin_transaction Map.lookup
handle_replays_example =
    Once.handle_replays server (handle server datagram home 5 5).1 datagram home 5 5 request
      (transaction_key request home) empty_cache-IsValid refl delivered (lit "r") 6 7 7 before after
      refl refl before-IsSilent after-IsBetween (omega arith) (omega arith)

handle_suppresses_example :
    (handle (handle server datagram home 5 5).1 datagram home 7 7).0 ≡ suppressed
unfolding lit transaction_key join addr_string is_in
handle_suppresses_example =
    Once.handle_suppresses server (handle server datagram home 5 5).1 datagram home 5 5 request
      (transaction_key request home) empty_cache-IsValid refl delivered 7 7 (omega arith)
