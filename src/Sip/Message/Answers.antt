-- ===== src/Sip/Message/Answers.antt =====
-- `BuildResponse` and `Parse` of internal/sip/message.go.
use mathlib.Core.List.{append_assoc, append-nil}
use megaco_sip_gateway.Prelude.{
  ℕ, ◌<◌, ◌^◌, ◌∙◌, Bytes, lit, is_empty, Bool-cases, inl, inr, List, [], ◌∷◌, ◌++◌, if◌then◌else◌,
  ◌≡◌, refl, ap, sym, pos,
}
use megaco_sip_gateway.Prelude.Map
use megaco_sip_gateway.Prelude.Result.{Result, ok}
use megaco_sip_gateway.Prelude.Decimal.{itoa}
use megaco_sip_gateway.Prelude.Strings.{replace_all, join}
use megaco_sip_gateway.Prelude.Strings.Lines.{crlf_lines}
use megaco_sip_gateway.Sip.Message.{
  Message, ParseError, canonical_header, header, header_values, call_id, response_to, parse_lines,
  parse, crlf, header_text, headers_text, vias_text, body_text, build_response,
}
use megaco_sip_gateway.Sip.Message.Text.{
  IsWord, AllHeaders, printed, named, lines_of, headers_text-append, printed_text,
  lines_of-unbroken, printed-AllHeaders,
}
use megaco_sip_gateway.Sip.Message.Reading.{
  gather, header_lines-lines_of, values_of-gather, parse-lines,
}
use megaco_sip_gateway.Sip.Message.StatusLine.{
  AllWords, status_line, join_words, status_message, status_line_there, status_line-unbroken,
  status_line-trimmed, parse_start-status_line,
}

-- The headers of a response: those of the request, the contact and the others
abbrev pub via_headers : List Bytes → List (Bytes × Bytes)
via_headers [] = []
via_headers (v ∷ vs) = (lit "Via", v) ∷ via_headers vs

abbrev pub contact_headers : Bytes → List (Bytes × Bytes)
contact_headers contact =
    if is_empty contact then [] else (lit "Contact", b'<' ∷ (contact ++ b'>' ∷ [])) ∷ []

unfoldable pub response_headers : Message → ℕ → Bytes → List (Bytes × Bytes) → List (Bytes × Bytes)
response_headers req status contact extra =
    via_headers (header_values req (lit "Via"))
    ++ (lit "From", header req (lit "From"))
      ∷ (lit "To", response_to status (header req (lit "To")))
      ∷ (lit "Call-ID", call_id req)
      ∷ (lit "CSeq", header req (lit "CSeq"))
      ∷ (contact_headers contact ++ extra)

vias_text-headers : (vs : List Bytes) → vias_text vs ≡ headers_text (via_headers vs)
vias_text-headers [] = refl
vias_text-headers (v ∷ vs) = ap (λ t. header_text (lit "Via") v ++ t) (vias_text-headers vs)

contact_text :
    (contact rest : Bytes)
    → (if is_empty contact then [] else header_text (lit "Contact") (b'<' ∷ (contact ++ b'>' ∷ [])))
        ++ rest
      ≡ headers_text (contact_headers contact) ++ rest
contact_text contact rest = elim (Bool-cases (is_empty contact)) [
  | inl e ↦ rw e refl
  | inr e ↦ rw e (
      ap (λ t. t ++ rest)
        (sym (append-nil (header_text (lit "Contact") (b'<' ∷ (contact ++ b'>' ∷ []))))))
]

-- Texts in a row
four :
    (a b c d rest body : Bytes)
    → (a ++ (b ++ (c ++ (d ++ rest)))) ++ body ≡ a ++ (b ++ (c ++ (d ++ (rest ++ body))))
four a b c d rest body =
    append_assoc a (b ++ (c ++ (d ++ rest))) body
    ∙ ap (λ t. a ++ t)
        (append_assoc b (c ++ (d ++ rest)) body
          ∙ ap (λ t. b ++ t)
              (append_assoc c (d ++ rest) body ∙ ap (λ t. c ++ t) (append_assoc d rest body)))

start_text :
    (status : ℕ) (reason rest : Bytes)
    → lit "SIP/2.0 " ++ (itoa status ++ (b' ' ∷ (reason ++ (b'\r' ∷ b'\n' ∷ rest))))
      ≡ status_line status reason ++ b'\r' ∷ b'\n' ∷ rest
unfolding status_line lit
start_text status reason rest =
    ap (λ t. lit "SIP/2.0 " ++ t)
      (sym (append_assoc (itoa status) (b' ' ∷ reason) (b'\r' ∷ b'\n' ∷ rest)))

response_text :
    (req : Message) (status : ℕ) (reason body contact : Bytes) (extra : List (Bytes × Bytes))
    → build_response req status reason body contact extra
      ≡ crlf_lines
          (status_line status reason
            ∷ lines_of (printed (response_headers req status contact extra) body))
          body
unfolding build_response crlf_lines response_headers status_line
response_text req status reason body contact extra =
    let vias = header_values req (lit "Via") in
    let from = header_text (lit "From") (header req (lit "From")) in
    let to = header_text (lit "To") (response_to status (header req (lit "To"))) in
    let id = header_text (lit "Call-ID") (call_id req) in
    let cseq = header_text (lit "CSeq") (header req (lit "CSeq")) in
    let others = contact_headers contact ++ extra in
    let tail_text =
      contact_text contact (headers_text extra ++ body_text body)
      ∙ (sym (
            append_assoc (headers_text (contact_headers contact)) (headers_text extra)
              (body_text body))
          ∙ ap (λ t. t ++ body_text body)
              (sym (headers_text-append (contact_headers contact) extra))) in
    let middle =
      ap (λ t. from ++ (to ++ (id ++ (cseq ++ t)))) tail_text
      ∙ sym (four from to id cseq (headers_text others) (body_text body)) in
    let all =
      ap (λ t. vias_text vias ++ t) middle
      ∙ (ap (λ t. t ++ ((from ++ (to ++ (id ++ (cseq ++ headers_text others)))) ++ body_text body))
            (vias_text-headers vias)
          ∙ (sym (
                append_assoc (headers_text (via_headers vias))
                  (from ++ (to ++ (id ++ (cseq ++ headers_text others)))) (body_text body))
              ∙ (ap (λ t. t ++ body_text body)
                    (sym (
                      headers_text-append (via_headers vias) (
                        (lit "From", header req (lit "From"))
                        ∷ (lit "To", response_to status (header req (lit "To")))
                        ∷ (lit "Call-ID", call_id req)
                        ∷ (lit "CSeq", header req (lit "CSeq"))
                        ∷ others)))
                  ∙ printed_text (response_headers req status contact extra) body))) in
    ap (λ t. lit "SIP/2.0 " ++ (itoa status ++ (b' ' ∷ (reason ++ (b'\r' ∷ b'\n' ∷ t))))) all
    ∙ start_text status reason _

-- A response is read: its status and reason, the values of every header that is printed, and its
-- body with LF for CR LF.
pub record IsAnswer (status : ℕ) (reason : Bytes) (headers : List (Bytes × Bytes)) (body : Bytes)
    (result : Result ParseError Message) : Type 0 where
  pub message : Message
  pub is_ok : result ≡ ok message
  pub status_is : message.status ≡ pos status
  pub reason_is : message.reason ≡ reason
  pub no_method : message.method ≡ []
  pub values :
      (name : Bytes)
      → header_values message name ≡ named (canonical_header name) (printed headers body)
  pub body_is : message.body ≡ replace_all body crlf (b'\n' ∷ [])

parse_lines-response :
    (status : ℕ) (w : Bytes) (ws : List Bytes) (l : List (Bytes × Bytes)) (body : Bytes)
    → status < 2 ^ 63
    → IsWord w
    → AllWords ws
    → AllHeaders l
    → parse_lines body (status_line status (join_words w ws) ∷ lines_of l)
      ≡ ok (record (status_message status (join_words w ws)) { headers = gather [] l; body = body })
unfolding parse_lines
parse_lines-response status w ws l body lt word words all =
    let there = status_line_there status (join_words w ws) in
    let start = parse_start-status_line status w ws lt word words in
    rw (status_line-trimmed status w ws word words, there, start, header_lines-lines_of l all [] [])
      refl

-- A response that is printed for a request is parsed to its status, its reason, the values of
-- each header by its canonical name in their order, which are those of the request, the contact,
-- the others and Content-Length, and its body with LF for CR LF, for a status below 2 ^ 63, a
-- reason of words with one blank between them, and headers of one line whose names hold no white
-- space or colon and whose values are trimmed.
pub parse-build_response :
    (req : Message) (status : ℕ) (word : Bytes) (words : List Bytes) (body contact : Bytes)
    (extra : List (Bytes × Bytes))
    → status < 2 ^ 63
    → IsWord word
    → AllWords words
    → AllHeaders (response_headers req status contact extra)
    → IsAnswer status
        (join (b' ' ∷ []) (word ∷ words))
        (response_headers req status contact extra)
        body
        (parse (build_response req status (join (b' ' ∷ []) (word ∷ words)) body contact extra))
unfolding status_message header_values join_words Map.lookup
parse-build_response req status word words body contact extra lt good all_good all =
    let headers = printed (response_headers req status contact extra) body in
    let all' = printed-AllHeaders (response_headers req status contact extra) body all in
    record {
      message = record (status_message status (join_words word words)) {
        headers = gather [] headers;
        body = replace_all body crlf (b'\n' ∷ []);
      };
      is_ok =
          ap parse (response_text req status (join_words word words) body contact extra)
          ∙ (parse-lines (status_line status (join_words word words)) (lines_of headers) body (
            status_line_there status (join_words word words),
            status_line-unbroken status word words good all_good,
            lines_of-unbroken headers all',
          )
              ∙ parse_lines-response status word words headers _ lt good all_good all');
      status_is = refl;
      reason_is = refl;
      no_method = refl;
      values = λ name. values_of-gather (canonical_header name) headers [];
      body_is = refl;
    }
