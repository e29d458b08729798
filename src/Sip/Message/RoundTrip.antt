-- ===== src/Sip/Message/RoundTrip.antt =====
-- `BuildRequest` and `Parse` of internal/sip/message.go.
use mathlib.Core.List.{append_assoc}
use megaco_sip_gateway.Prelude.{
  ◌∙◌, Bytes, lit, same, same_refl, is_empty, false, List, [], ◌∷◌, ◌++◌, none, ◌≡◌, refl, ap, sym,
  arith, pos,
}
use megaco_sip_gateway.Prelude.Map
use megaco_sip_gateway.Prelude.Map.{lookup-insert}
use megaco_sip_gateway.Prelude.Result.{Result, ok}
use megaco_sip_gateway.Prelude.Strings.{trim_space, is_white, replace_all}
use megaco_sip_gateway.Prelude.Strings.Laws.{AllNot}
use megaco_sip_gateway.Prelude.Strings.Lines.{
  is_break, crlf_lines, AllNot-append, solid-AllNot, trim_space-words, fields-word, fields-last,
}
use megaco_sip_gateway.Sip.Message.{
  Message, ParseError, canonical_header, header_values, parse_start, request_line, parse_lines,
  parse, crlf, headers_text, body_text, build_request,
}
use megaco_sip_gateway.Sip.Message.Text.{
  has_prefix-word, printed_text, prefix_text, IsWord, AllHeaders, printed, named, lines_of,
  lines_of-unbroken, printed-AllHeaders, version-IsWord,
}
use megaco_sip_gateway.Sip.Message.Reading.{
  gather, header_lines-lines_of, values_of-gather, parse-lines,
}

-- A request is read: its method and URI, the values of every header that is printed, and its body
-- with LF for CR LF.
pub record IsRead (method uri : Bytes) (headers : List (Bytes × Bytes)) (body : Bytes)
    (result : Result ParseError Message) : Type 0 where
  pub message : Message
  pub is_ok : result ≡ ok message
  pub method_is : message.method ≡ method
  pub uri_is : message.uri ≡ uri
  pub no_status : message.status ≡ pos 0
  pub values :
      (name : Bytes)
      → header_values message name ≡ named (canonical_header name) (printed headers body)
  pub body_is : message.body ≡ replace_all body crlf (b'\n' ∷ [])

start_of : Bytes → Bytes → Bytes
start_of method uri = method ++ b' ' ∷ (uri ++ b' ' ∷ lit "SIP/2.0")

start_text :
    (method uri rest : Bytes)
    → method ++ b' ' ∷ (uri ++ (lit " SIP/2.0\r\n" ++ rest))
      ≡ start_of method uri ++ b'\r' ∷ b'\n' ∷ rest
unfolding start_of lit
start_text method uri rest = sym (
    append_assoc method (b' ' ∷ (uri ++ b' ' ∷ lit "SIP/2.0")) (b'\r' ∷ b'\n' ∷ rest)
    ∙ ap (λ t. method ++ b' ' ∷ t) (append_assoc uri (b' ' ∷ lit "SIP/2.0") (b'\r' ∷ b'\n' ∷ rest)))

request_text :
    (method uri : Bytes) (headers : List (Bytes × Bytes)) (body : Bytes)
    → build_request method uri headers body
      ≡ crlf_lines (start_of method uri ∷ lines_of (printed headers body)) body
unfolding build_request crlf_lines
request_text method uri headers body =
    start_text method uri (headers_text headers ++ body_text body)
    ∙ ap (λ t. start_of method uri ++ b'\r' ∷ b'\n' ∷ t) (printed_text headers body)

start_of-unbroken :
    (method uri : Bytes)
    → IsWord method
    → IsWord uri
    → (is_empty (start_of method uri) ≡ false) × AllNot is_break (start_of method uri)
unfolding start_of lit
start_of-unbroken [] uri m u = absurd (let there = m.there in ground arith)
start_of-unbroken (c ∷ method) uri m u = (
  refl,
  AllNot-append is_break (c ∷ method) _ (solid-AllNot (c ∷ method) m.solid)
      (refl, AllNot-append is_break uri _ (solid-AllNot uri u.solid) search),
)

-- The message before its headers are read
start_message : Bytes → Bytes → Message
start_message method uri = record {
  start_line = start_of method uri;
  method = method;
  uri = uri;
  status = pos 0;
  reason = [];
  headers = [];
  body = [];
  source = none;
}

parse_start-start_of :
    (method uri : Bytes)
    → IsWord method
    → IsWord uri
    → same method (lit "SIP/2.0") ≡ false
    → parse_start (start_of method uri) ≡ ok (start_message method uri)
unfolding parse_start request_line start_of start_message
parse_start-start_of method uri m u other =
    let version : IsWord (lit "SIP/2.0") = version-IsWord in
    let prefix =
      has_prefix-word method (lit "SIP/2.0") (uri ++ b' ' ∷ lit "SIP/2.0") m.solid version.solid in
    let words =
      fields-word method (uri ++ b' ' ∷ lit "SIP/2.0") m.there m.solid
      ∙ ap (λ l. method ∷ l)
          (fields-word uri (lit "SIP/2.0") u.there u.solid
            ∙ ap (λ l. uri ∷ l) (fields-last (lit "SIP/2.0") version.there version.solid)) in
    rw (prefix_text, prefix, other, words, same_refl (lit "SIP/2.0")) refl

start_of-trimmed :
    (method uri : Bytes) → IsWord method → trim_space (start_of method uri) ≡ start_of method uri
unfolding start_of lit is_white
start_of-trimmed [] uri m = absurd (let there = m.there in ground arith)
start_of-trimmed (c ∷ method) uri m =
    let ends : (method ++ b' ' ∷ (uri ++ b' ' ∷ lit "SIP/2.")) ++ b'0' ∷ []
        ≡ method ++ b' ' ∷ (uri ++ b' ' ∷ lit "SIP/2.0") =
      append_assoc method (b' ' ∷ (uri ++ b' ' ∷ lit "SIP/2.")) (b'0' ∷ [])
      ∙ ap (λ t. method ++ b' ' ∷ t) (append_assoc uri (b' ' ∷ lit "SIP/2.") (b'0' ∷ [])) in
    ap (λ t. trim_space (c ∷ t)) (sym ends)
    ∙ (trim_space-words c _ b'0' m.solid.0 refl ∙ ap (λ t. c ∷ t) ends)

-- The message that is read from a request
read_message : Bytes → Bytes → List (Bytes × Bytes) → Bytes → Message
read_message method uri headers body = record (start_message method uri) {
  headers = gather [] (printed headers body);
  body = replace_all body crlf (b'\n' ∷ []);
}

parse_lines-lines_of :
    (method uri : Bytes) (l : List (Bytes × Bytes)) (body : Bytes)
    → IsWord method
    → IsWord uri
    → same method (lit "SIP/2.0") ≡ false
    → AllHeaders l
    → parse_lines body (start_of method uri ∷ lines_of l)
      ≡ ok (record (start_message method uri) { headers = gather [] l; body = body })
unfolding parse_lines
parse_lines-lines_of method uri l body m u other all =
    let there = (start_of-unbroken method uri m u).0 in
    let start = parse_start-start_of method uri m u other in
    rw (start_of-trimmed method uri m, there, start, header_lines-lines_of l all [] []) refl

-- A request that is printed is parsed to its method, its URI, the values of each printed header
-- by its canonical name in their order, Content-Length included, and its body with LF for CR LF,
-- for a method and a URI without white space, a method other than SIP/2.0, and headers of one
-- line whose names hold no white space or colon and whose values are trimmed.
pub parse-build_request :
    (method uri : Bytes) (headers : List (Bytes × Bytes)) (body : Bytes)
    → IsWord method
    → IsWord uri
    → same method (lit "SIP/2.0") ≡ false
    → AllHeaders headers
    → IsRead method uri headers body (parse (build_request method uri headers body))
unfolding read_message start_message header_values Map.lookup
parse-build_request method uri headers body m u other all =
    let all' = printed-AllHeaders headers body all in
    let start = start_of-unbroken method uri m u in
    record {
      message = read_message method uri headers body;
      is_ok =
          ap parse (request_text method uri headers body)
          ∙ (parse-lines (start_of method uri) (lines_of (printed headers body)) body
                (start.0, start.1, lines_of-unbroken (printed headers body) all')
              ∙ parse_lines-lines_of method uri (printed headers body) _ m u other all');
      method_is = refl;
      uri_is = refl;
      no_status = refl;
      values = λ name. values_of-gather (canonical_header name) (printed headers body) [];
      body_is = refl;
    }
