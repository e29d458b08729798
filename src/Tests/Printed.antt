-- ===== src/Tests/Printed.antt =====
-- SIP messages that are printed and read back.
use megaco_sip_gateway.Prelude.{Bytes, lit, same, List, [], ◌∷◌, refl, ◌≡◌, false}
use megaco_sip_gateway.Prelude.Map
use megaco_sip_gateway.Prelude.{pos, none, arith, contains_text, to_lower}
use megaco_sip_gateway.Sip.Message.StatusLine.{AllWords}
use megaco_sip_gateway.Sip.Message.Answers.{response_headers, IsAnswer, parse-build_response}
use megaco_sip_gateway.Prelude.Strings.{join, is_white, is_in, trim_space}
use megaco_sip_gateway.Sip.Message.{
  Message, header, header_values, call_id, response_to, canonical_header, build_response, parse,
  build_request,
}
use megaco_sip_gateway.Sip.Message.Text.{IsHeader, AllHeaders, IsWord}
use megaco_sip_gateway.Sip.Message.RoundTrip.{IsRead, parse-build_request}

abbrev some_headers : List (Bytes × Bytes)
some_headers = (lit "From", lit "<sip:a@192.0.2.1>;tag=1") ∷ (lit "CSeq", lit "1 INFO") ∷ []

-- A header of a literal name and value
text-IsHeader : IsHeader (lit "From", lit "<sip:a@192.0.2.1>;tag=1")
unfolding lit is_white is_in trim_space
text-IsHeader = record {
  name = record { there = refl; solid = search };
  no_colon = refl;
  one_line = search;
  trimmed = refl;
}

cseq-IsHeader : IsHeader (lit "CSeq", lit "1 INFO")
unfolding lit is_white is_in trim_space
cseq-IsHeader = record {
  name = record { there = refl; solid = search };
  no_colon = refl;
  one_line = search;
  trimmed = refl;
}

some_headers-AllHeaders : AllHeaders some_headers
unfolding AllHeaders
some_headers-AllHeaders = (text-IsHeader, (cseq-IsHeader, tt))

info-IsWord : IsWord (lit "INFO")
unfolding lit is_white
info-IsWord = record { there = refl; solid = search }

uri-IsWord : IsWord (lit "sip:b@192.0.2.9")
unfolding lit is_white
uri-IsWord = record { there = refl; solid = search }

not_version : same (lit "INFO") (lit "SIP/2.0") ≡ false
unfolding lit same
not_version = refl

parse-build_request_example :
    IsRead
      (lit "INFO")
      (lit "sip:b@192.0.2.9")
      some_headers
      (lit "Signal=5\r\n")
      (parse (build_request (lit "INFO") (lit "sip:b@192.0.2.9") some_headers (lit "Signal=5\r\n")))
parse-build_request_example =
    parse-build_request (lit "INFO") (lit "sip:b@192.0.2.9") some_headers (lit "Signal=5\r\n")
      info-IsWord uri-IsWord not_version some_headers-AllHeaders

-- An INFO as it is parsed, and the reason of its response
abbrev info : Message
info = record {
  start_line = lit "INFO sip:b@192.0.2.9 SIP/2.0";
  method = lit "INFO";
  uri = lit "sip:b@192.0.2.9";
  status = pos 0;
  reason = [];
  headers =
      (lit "Via", lit "SIP/2.0/UDP 192.0.2.1;branch=z9hG4bK-1" ∷ [])
      ∷ (lit "From", lit "<sip:a@192.0.2.1>;tag=1" ∷ [])
      ∷ (lit "To", lit "<sip:b@192.0.2.9>" ∷ [])
      ∷ (lit "Call-Id", lit "a1" ∷ [])
      ∷ (lit "Cseq", lit "1 INFO" ∷ [])
      ∷ [];
  body = [];
  source = none;
}

info_headers-AllHeaders : AllHeaders (response_headers info 200 [] [])
unfolding AllHeaders response_headers header header_values call_id canonical_header response_to lit
    is_white is_in trim_space Map.lookup contains_text to_lower
info_headers-AllHeaders = (
  record {
    name = record { there = refl; solid = search };
    no_colon = refl;
    one_line = search;
    trimmed = refl;
  },
  (
    text-IsHeader,
    (
      record {
        name = record { there = refl; solid = search };
        no_colon = refl;
        one_line = search;
        trimmed = refl;
      },
      (
        record {
          name = record { there = refl; solid = search };
          no_colon = refl;
          one_line = search;
          trimmed = refl;
        },
        (cseq-IsHeader, tt),
      ),
    ),
  ),
)

ok-IsWord : IsWord (lit "OK")
unfolding lit is_white
ok-IsWord = record { there = refl; solid = search }

no_words : AllWords []
unfolding AllWords
no_words = tt

parse-build_response_example :
    IsAnswer 200
      (join (b' ' ∷ []) (lit "OK" ∷ []))
      (response_headers info 200 [] [])
      []
      (parse (build_response info 200 (join (b' ' ∷ []) (lit "OK" ∷ [])) [] [] []))
parse-build_response_example =
    parse-build_response info 200 (lit "OK") [] [] [] [] (omega arith) ok-IsWord no_words
      info_headers-AllHeaders
