-- ===== src/Sip/Message/Text.antt =====
-- The lines that `BuildRequest` and `BuildResponse` of internal/sip/message.go write.
use mathlib.Core.List.{append_assoc}
use megaco_sip_gateway.Prelude.{
  has_prefix, same, ◌&&◌, ◌==◌, ℕ, ◌∙◌, Bytes, lit, same, is_empty, false, Bool-cases, inl, inr,
  List, [], ◌∷◌, ◌++◌, if◌then◌else◌, ◌≡◌, refl, ap, sym, arith, length,
}
use megaco_sip_gateway.Prelude.Decimal.{itoa}
use megaco_sip_gateway.Prelude.Strings.{trim_space, is_white, is_in}
use megaco_sip_gateway.Prelude.Strings.Laws.{AllNot}
use megaco_sip_gateway.Prelude.Strings.Lines.{
  is_break, crlf_lines, AllUnbroken, AllNot-append, itoa-AllNot, solid-AllNot, trim_space-solid,
}
use megaco_sip_gateway.Sip.Message.{canonical_header, crlf, header_text, headers_text, body_text}

-- A word of the first line
pub record IsWord (w : Bytes) : Type 0 where
  pub there : is_empty w ≡ false
  pub solid : AllNot is_white w

-- A header that its line says: a name without a colon or white space, and a trimmed value of one line
pub record IsHeader (h : Bytes × Bytes) : Type 0 where
  pub name : IsWord h.0
  pub no_colon : is_in h.0 b':' ≡ false
  pub one_line : AllNot is_break h.1
  pub trimmed : trim_space h.1 ≡ h.1

unfoldable pub AllHeaders : List (Bytes × Bytes) → Type 0
AllHeaders [] = Unit
AllHeaders (h ∷ rest) = IsHeader h × AllHeaders rest

-- The headers that are printed: those given, and those of the body
unfoldable pub printed : List (Bytes × Bytes) → Bytes → List (Bytes × Bytes)
printed headers body =
    headers
    ++ ((if is_empty body then [] else (lit "Content-Type", lit "application/sdp") ∷ [])
        ++ (lit "Content-Length", itoa (length body)) ∷ [])

-- The values that a list of headers has for a canonical name, in their order
unfoldable pub named : Bytes → List (Bytes × Bytes) → List Bytes
named name [] = []
named name ((n, v) ∷ rest) =
    let more = named name rest in if same (canonical_header n) name then v ∷ more else more

unfoldable pub line_of : Bytes × Bytes → Bytes
line_of (n, v) = n ++ b':' ∷ b' ' ∷ v

unfoldable pub lines_of : List (Bytes × Bytes) → List Bytes
lines_of [] = []
lines_of (h ∷ rest) = line_of h ∷ lines_of rest

line_text : (n v rest : Bytes) → header_text n v ++ rest ≡ line_of (n, v) ++ b'\r' ∷ b'\n' ∷ rest
unfolding line_of
line_text n v rest =
    append_assoc n (b':' ∷ b' ' ∷ (v ++ crlf)) rest
    ∙ (ap (λ t. n ++ b':' ∷ b' ' ∷ t) (append_assoc v crlf rest)
        ∙ sym (append_assoc n (b':' ∷ b' ' ∷ v) (b'\r' ∷ b'\n' ∷ rest)))

pub headers_text-lines :
    (hs : List (Bytes × Bytes)) (body : Bytes)
    → headers_text hs ++ (crlf ++ body) ≡ crlf_lines (lines_of hs) body
unfolding crlf_lines lines_of
headers_text-lines [] body = refl
headers_text-lines ((n, v) ∷ rest) body =
    append_assoc (header_text n v) (headers_text rest) (crlf ++ body)
    ∙ (line_text n v (headers_text rest ++ (crlf ++ body))
        ∙ ap (λ t. line_of (n, v) ++ b'\r' ∷ b'\n' ∷ t) (headers_text-lines rest body))

pub headers_text-append :
    (hs more : List (Bytes × Bytes))
    → headers_text (hs ++ more) ≡ headers_text hs ++ headers_text more
headers_text-append [] more = refl
headers_text-append ((n, v) ∷ rest) more =
    ap (λ t. header_text n v ++ t) (headers_text-append rest more)
    ∙ sym (append_assoc (header_text n v) (headers_text rest) (headers_text more))

-- What `printed` adds to the headers
unfoldable pub of_body : Bytes → List (Bytes × Bytes)
of_body body =
    (if is_empty body then [] else (lit "Content-Type", lit "application/sdp") ∷ [])
    ++ (lit "Content-Length", itoa (length body)) ∷ []

body_text-headers : (body : Bytes) → body_text body ≡ headers_text (of_body body) ++ (crlf ++ body)
unfolding of_body
body_text-headers body =
    let number =
      sym (
        append_assoc (header_text (lit "Content-Length") (itoa (length body))) [] (crlf ++ body)) in
    elim (Bool-cases (is_empty body)) [
      | inl e ↦ rw e number
      | inr e ↦ rw e (
          ap (λ t. header_text (lit "Content-Type") (lit "application/sdp") ++ t) number
          ∙ sym (
              append_assoc (header_text (lit "Content-Type") (lit "application/sdp")) _
                (crlf ++ body)))
    ]

-- The headers, the empty line and the body
pub printed_text :
    (headers : List (Bytes × Bytes)) (body : Bytes)
    → headers_text headers ++ body_text body ≡ crlf_lines (lines_of (printed headers body)) body
unfolding printed of_body
printed_text headers body =
    ap (λ t. headers_text headers ++ t) (body_text-headers body)
    ∙ (sym (append_assoc (headers_text headers) (headers_text (of_body body)) (crlf ++ body))
        ∙ (ap (λ t. t ++ (crlf ++ body)) (sym (headers_text-append headers (of_body body)))
            ∙ headers_text-lines (printed headers body) body))

pub prefix_text : lit "SIP/2.0 " ≡ lit "SIP/2.0" ++ b' ' ∷ []
unfolding lit
prefix_text = refl

line_of-unbroken :
    (h : Bytes × Bytes) → IsHeader h → (is_empty (line_of h) ≡ false) × AllNot is_break (line_of h)
unfolding line_of
line_of-unbroken ([], v) good = absurd (let there = good.name.there in ground arith)
line_of-unbroken (c ∷ n, v) good = (
  refl,
  AllNot-append is_break (c ∷ n) (b':' ∷ b' ' ∷ v) (solid-AllNot (c ∷ n) good.name.solid)
      (refl, (refl, good.one_line)),
)

pub lines_of-unbroken : (hs : List (Bytes × Bytes)) → AllHeaders hs → AllUnbroken (lines_of hs)
unfolding lines_of AllHeaders
lines_of-unbroken [] all = tt
lines_of-unbroken (h ∷ rest) (good, all) =
    let line = line_of-unbroken h good in (line.0, line.1, lines_of-unbroken rest all)

AllHeaders-append :
    (hs more : List (Bytes × Bytes)) → AllHeaders hs → AllHeaders more → AllHeaders (hs ++ more)
unfolding AllHeaders
AllHeaders-append [] more all h = h
AllHeaders-append (h ∷ rest) more (good, all) more_all =
    (good, AllHeaders-append rest more all more_all)

content_type-IsHeader : IsHeader (lit "Content-Type", lit "application/sdp")
unfolding lit canonical_header is_in is_white trim_space
content_type-IsHeader = record {
  name = record { there = refl; solid = search };
  no_colon = refl;
  one_line = search;
  trimmed = refl;
}

content_length-IsHeader : (n : ℕ) → IsHeader (lit "Content-Length", itoa n)
unfolding lit canonical_header is_in is_white
content_length-IsHeader n = record {
  name = record { there = refl; solid = search };
  no_colon = refl;
  one_line = solid-AllNot (itoa n) (itoa-AllNot n);
  trimmed = trim_space-solid (itoa n) (itoa-AllNot n);
}

pub printed-AllHeaders :
    (hs : List (Bytes × Bytes)) (body : Bytes) → AllHeaders hs → AllHeaders (printed hs body)
unfolding printed AllHeaders
printed-AllHeaders hs body all = AllHeaders-append hs _ all (elim (Bool-cases (is_empty body)) [
  | inl e ↦ rw e (content_length-IsHeader (length body), tt)
  | inr e ↦ rw e (content_type-IsHeader, (content_length-IsHeader (length body), tt))
])

pub version-IsWord : IsWord (lit "SIP/2.0")
unfolding lit is_white
version-IsWord = record { there = refl; solid = search }

-- A first word is a prefix with the blank behind it only if it is the word.
pub has_prefix-word :
    (m w rest : Bytes)
    → AllNot is_white m
    → AllNot is_white w
    → has_prefix (m ++ b' ' ∷ rest) (w ++ b' ' ∷ []) ≡ same m w
unfolding has_prefix same is_white
has_prefix-word [] [] rest h h' = refl
has_prefix-word [] (y ∷ w) rest h h' = ground (arith, h'.0)
has_prefix-word (x ∷ m) [] rest h h' = ground (arith, h.0)
has_prefix-word (x ∷ m) (y ∷ w) rest h h' =
    ap (λ t. x == y && t) (has_prefix-word m w rest h.1 h'.1)
