-- ===== src/Sip/Message/Reading.antt =====
-- The loop of `Parse` of internal/sip/message.go over the lines of headers.
use mathlib.Core.List.{append_assoc, append-nil}
use megaco_sip_gateway.Prelude.{
  ◌||◌, ◌∙◌, Bytes, same, same_iff, false, Bool-cases, inl, inr, List, [], ◌∷◌, ◌++◌, ◌==◌, ◌≡◌,
  refl, ap, sym, arith,
}
use megaco_sip_gateway.Prelude.Map
use megaco_sip_gateway.Prelude.Map.{lookup-insert}
use megaco_sip_gateway.Prelude.Result.{ok}
use megaco_sip_gateway.Prelude.Strings.{is_white, replace_all, cut_text, split_byte}
use megaco_sip_gateway.Prelude.Strings.Laws.{cut_byte-append, split_byte-join}
use megaco_sip_gateway.Prelude.Strings.Lines.{
  crlf_lines, AllUnbroken, AllUnbroken-NoneIn, replace_all-lines, cut_text-lines, trim_space-blank,
}
use megaco_sip_gateway.Sip.Message.{
  canonical_header, Headers, values_of, header_line, header_lines, add_header, is_folded,
  parse_lines, parse, crlf,
}
use megaco_sip_gateway.Sip.Message.Text.{IsHeader, AllHeaders, named, line_of, lines_of}

-- The headers that the loop gathers, and the name that it ends at
pub gather : Headers → List (Bytes × Bytes) → Headers
gather hs [] = hs
gather hs ((n, v) ∷ rest) =
    let key = canonical_header n in
    gather (Map.insert key (values_of (Map.lookup key hs) ++ v ∷ []) hs) rest

pub last_name : Bytes → List (Bytes × Bytes) → Bytes
last_name current [] = current
last_name current ((n, v) ∷ rest) = last_name (canonical_header n) rest

header_line-line_of :
    (current : Bytes) (hs : Headers) (n v : Bytes)
    → IsHeader (n, v)
    → header_line (current, hs) (line_of (n, v))
      ≡ ok (
        canonical_header n,
        Map.insert
            (canonical_header n)
            (values_of (Map.lookup (canonical_header n) hs) ++ v ∷ [])
            hs,
      )
unfolding header_line add_header is_folded line_of is_white
header_line-line_of current hs [] v good = absurd (let there = good.name.there in ground arith)
header_line-line_of current hs (c ∷ n) v good =
    let cut = cut_byte-append b':' (c ∷ n) (b' ' ∷ v) good.no_colon in
    let trimmed = trim_space-blank v ∙ good.trimmed in
    let white = good.name.solid.0 in
    let plain : (c == b' ' || c == b'\t') ≡ false = ground arith in rw (plain, cut, trimmed) refl

pub header_lines-lines_of :
    (l : List (Bytes × Bytes))
    → AllHeaders l
    → (current : Bytes) (hs : Headers)
    → header_lines (current, hs) (lines_of l) ≡ ok (last_name current l, gather hs l)
unfolding header_lines lines_of AllHeaders gather last_name
header_lines-lines_of [] all current hs = refl
header_lines-lines_of ((n, v) ∷ rest) (good, all) current hs =
    rw (header_line-line_of current hs n v good)
      (header_lines-lines_of rest all (canonical_header n) _)

pub values_of-gather :
    (k : Bytes) (l : List (Bytes × Bytes)) (hs : Headers)
    → values_of (Map.lookup k (gather hs l)) ≡ values_of (Map.lookup k hs) ++ named k l
unfolding gather named
values_of-gather k [] hs = sym (append-nil _)
values_of-gather k ((n, v) ∷ rest) hs =
    values_of-gather k rest _
    ∙ (ap (λ o. values_of o ++ named k rest) (lookup-insert (canonical_header n) k _ hs)
        ∙ elim (Bool-cases (same (canonical_header n) k)) [
          | inl e ↦
              let key : canonical_header n ≡ k = (same_iff (canonical_header n) k).0 e in
              rw e (rw key (append_assoc (values_of (Map.lookup k hs)) (v ∷ []) (named k rest)))
          | inr e ↦ rw e refl
        ])

pub parse-lines :
    (line : Bytes) (rest : List Bytes) (body : Bytes)
    → AllUnbroken (line ∷ rest)
    → parse (crlf_lines (line ∷ rest) body)
      ≡ parse_lines (replace_all body crlf (b'\n' ∷ [])) (line ∷ rest)
unfolding parse
parse-lines line rest body all =
    let cut =
      ap (cut_text (b'\n' ∷ b'\n' ∷ [])) (replace_all-lines (line ∷ rest) body all)
      ∙ cut_text-lines line rest (replace_all body crlf (b'\n' ∷ [])) all in
    ap (λ p. parse_lines p.1 (split_byte b'\n' p.0)) cut
    ∙ ap (parse_lines (replace_all body crlf (b'\n' ∷ [])))
        (split_byte-join b'\n' line rest (AllUnbroken-NoneIn (line ∷ rest) all))
