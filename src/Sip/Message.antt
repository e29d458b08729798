-- ===== src/Sip/Message.antt =====
-- internal/sip/message.go: SIP messages, their parser and their printers.
pub mod Text
pub mod Reading
pub mod RoundTrip
pub mod StatusLine
pub mod Answers
use megaco_sip_gateway.Prelude.{
  ℕ, Bytes, lit, same, is_empty, to_lower, to_upper, has_prefix, contains_text, Bool, false, not,
  ◌&&◌, ◌||◌, List, [], ◌∷◌, ◌++◌, Option, none, some, ◌==◌, if◌then◌else◌, ℤ, pos, length, map,
}
use megaco_sip_gateway.Prelude.Map
use megaco_sip_gateway.Prelude.Result.{Result, ok, err, ◌>>=◌}
use megaco_sip_gateway.Prelude.Decimal.{itoa, atoi}
use megaco_sip_gateway.Prelude.Strings.{
  trim_space, cut_byte, cut_text, split_byte, fields, join, replace_all,
}
use megaco_sip_gateway.Net.{UdpAddr}

abbrev pub Headers : Type 0
Headers = List (Bytes × List Bytes)

pub record Message : Type 0 where
  pub start_line : Bytes
  pub method : Bytes
  pub uri : Bytes
  pub status : ℤ
  pub reason : Bytes
  pub headers : Headers
  pub body : Bytes
  pub source : Option UdpAddr

pub data ParseError : Type 0 where
  empty_message invalid_response_line bad_status invalid_request_line : ParseError
  folded_without_header invalid_header : ParseError

capitalize : Bytes → Bytes
capitalize [] = []
capitalize (x ∷ xs) = to_upper (x ∷ []) ++ xs

long_form : Bytes → Bytes
long_form name =
    if same name (lit "v")
    then lit "Via"
    else if same name (lit "f")
    then lit "From"
    else if same name (lit "t")
    then lit "To"
    else if same name (lit "i")
    then lit "Call-ID"
    else if same name (lit "m")
    then lit "Contact"
    else if same name (lit "l")
    then lit "Content-Length"
    else if same name (lit "c")
    then lit "Content-Type"
    else join (b'-' ∷ []) (map capitalize (split_byte b'-' name))

-- `canonicalHeader`
unfoldable pub canonical_header : Bytes → Bytes
unfolding long_form capitalize to_lower to_upper same lit trim_space split_byte join
canonical_header name = long_form (to_lower (trim_space name))

abbrev pub values_of : Option (List Bytes) → List Bytes
values_of none = []
values_of (some vs) = vs

abbrev pub first_of_values : List Bytes → Bytes
first_of_values [] = []
first_of_values (v ∷ vs) = v

-- `m.HeaderValues(name)`
unfoldable pub header_values : Message → Bytes → List Bytes
header_values m name = values_of (Map.lookup (canonical_header name) m.headers)

-- `m.Header(name)`
unfoldable pub header : Message → Bytes → Bytes
unfolding header_values
header m name = first_of_values (header_values m name)

-- `m.CallID()`
unfoldable pub call_id : Message → Bytes
call_id m = let v = header m (lit "Call-ID") in if is_empty v then header m (lit "i") else v

second_of_two : List Bytes → Bytes
second_of_two (a ∷ b ∷ []) = b
second_of_two _ = []

first_or_one : List Bytes → Bytes
first_or_one [] = b'1' ∷ []
first_or_one (a ∷ rest) = a

-- `m.CSeqMethod()`
unfoldable pub cseq_method : Message → Bytes
unfolding second_of_two fields
cseq_method m = second_of_two (fields (header m (lit "CSeq")))

-- `m.CSeqNumber()`
unfoldable pub cseq_number : Message → Bytes
unfolding first_or_one fields
cseq_number m = first_or_one (fields (header m (lit "CSeq")))

-- The start line as `Parse` reads it.
with_status : Bytes → List Bytes → Option ℤ → Result ParseError Message
with_status line rest none = err bad_status
with_status line rest (some status) = ok (record {
  start_line = line;
  method = [];
  uri = [];
  status = status;
  reason = join (b' ' ∷ []) rest;
  headers = [];
  body = [];
  source = none;
})

response_line : Bytes → List Bytes → Result ParseError Message
response_line line (version ∷ status ∷ rest) = with_status line rest (atoi status)
response_line line _ = err invalid_response_line

request_line : Bytes → List Bytes → Result ParseError Message
request_line line (method ∷ uri ∷ version ∷ []) =
    if same version (lit "SIP/2.0")
    then ok (record {
      start_line = line;
      method = method;
      uri = uri;
      status = pos 0;
      reason = [];
      headers = [];
      body = [];
      source = none;
    })
    else err invalid_request_line
request_line line _ = err invalid_request_line

pub parse_start : Bytes → Result ParseError Message
parse_start line =
    if has_prefix line (lit "SIP/2.0 ")
    then response_line line (fields line)
    else request_line line (fields line)

append_to_last : List Bytes → Bytes → List Bytes
append_to_last [] more = []
append_to_last (v ∷ []) more = (v ++ more) ∷ []
append_to_last (v ∷ w ∷ vs) more = v ∷ append_to_last (w ∷ vs) more

-- What the header loop keeps: `current` and `msg.Headers`.
abbrev HeaderState : Type 0
HeaderState = Bytes × Headers

add_header : HeaderState → Option (Bytes × Bytes) → Result ParseError HeaderState
add_header (current, hs) none = err invalid_header
add_header (current, hs) (some (name, value)) =
    let key = canonical_header name in
    ok (key, Map.insert key (values_of (Map.lookup key hs) ++ trim_space value ∷ []) hs)

fold_header : HeaderState → Bytes → Result ParseError HeaderState
fold_header (current, hs) raw =
    if is_empty current
    then err folded_without_header
    else ok (
      current,
      Map.insert current
          (append_to_last (values_of (Map.lookup current hs)) (b' ' ∷ trim_space raw)) hs,
    )

is_folded : Bytes → Bool
is_folded [] = false
is_folded (c ∷ cs) = c == b' ' || c == b'\t'

-- One round of the loop over `lines[1:]`.
pub header_line : HeaderState → Bytes → Result ParseError HeaderState
unfolding fold_header add_header is_folded append_to_last
header_line s raw =
    if is_empty raw
    then ok s
    else if is_folded raw
    then fold_header s raw
    else add_header s (cut_byte b':' raw)

pub header_lines : HeaderState → List Bytes → Result ParseError HeaderState
header_lines s [] = ok s
header_lines s (raw ∷ rest) = header_line s raw >>= λ s'. header_lines s' rest

pub parse_lines : Bytes → List Bytes → Result ParseError Message
parse_lines body [] = err empty_message
parse_lines body (first ∷ rest) =
    if is_empty (trim_space first)
    then err empty_message
    else parse_start (trim_space first) >>= λ m.
        header_lines ([], []) rest >>= λ s. ok (record m { headers = s.1; body = body })

-- `Parse`
unfoldable pub parse : Bytes → Result ParseError Message
unfolding parse_lines header_lines header_line parse_start request_line response_line with_status
    canonical_header replace_all cut_text split_byte cut_byte trim_space fields join same has_prefix
    atoi lit Map.lookup Map.insert
parse text =
    let unix = replace_all text (b'\r' ∷ b'\n' ∷ []) (b'\n' ∷ []) in
    let (head, body) = cut_text (b'\n' ∷ b'\n' ∷ []) unix in
    parse_lines body (split_byte b'\n' head)

abbrev pub crlf : Bytes
crlf = b'\r' ∷ b'\n' ∷ []

-- `fmt.Fprintf(&b, "%s: %s\r\n", name, value)`
abbrev pub header_text : Bytes → Bytes → Bytes
header_text name value = name ++ (b':' ∷ b' ' ∷ (value ++ crlf))

abbrev pub vias_text : List Bytes → Bytes
vias_text [] = []
vias_text (via ∷ vias) = header_text (lit "Via") via ++ vias_text vias

-- A map of headers, in the order in which the loop visits it.
abbrev pub headers_text : List (Bytes × Bytes) → Bytes
headers_text [] = []
headers_text ((name, value) ∷ rest) = header_text name value ++ headers_text rest

abbrev pub body_text : Bytes → Bytes
body_text body =
    (if is_empty body then [] else header_text (lit "Content-Type") (lit "application/sdp"))
    ++ (header_text (lit "Content-Length") (itoa (length body)) ++ (crlf ++ body))

-- The To header of a response: every status but 100 gets the gateway's tag.
unfoldable pub response_to : ℕ → Bytes → Bytes
response_to status to =
    if not (status == 100) && not (contains_text (to_lower to) (lit "tag="))
    then to ++ lit ";tag=gw"
    else to

-- `BuildResponse`
unfoldable pub build_response : Message → ℕ → Bytes → Bytes → Bytes → List (Bytes × Bytes) → Bytes
build_response req status reason body local_contact extra =
    lit "SIP/2.0 "
    ++ (itoa status
        ++ (b' '
            ∷ (reason
                ++ (crlf
                    ++ (vias_text (header_values req (lit "Via"))
                        ++ (header_text (lit "From") (header req (lit "From"))
                            ++ (header_text (lit "To") (response_to status (header req (lit "To")))
                                ++ (header_text (lit "Call-ID") (call_id req)
                                    ++ (header_text (lit "CSeq") (header req (lit "CSeq"))
                                        ++ ((if is_empty local_contact
                                              then []
                                              else header_text (lit "Contact")
                                                  (b'<' ∷ (local_contact ++ b'>' ∷ [])))
                                            ++ (headers_text extra ++ body_text body)))))))))))

-- `BuildRequest`
unfoldable pub build_request : Bytes → Bytes → List (Bytes × Bytes) → Bytes → Bytes
build_request method uri headers body =
    method ++ (b' ' ∷ (uri ++ (lit " SIP/2.0\r\n" ++ (headers_text headers ++ body_text body))))
