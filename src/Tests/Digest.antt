-- ===== src/Tests/Digest.antt =====
-- Digest authorization at concrete data.
use megaco_sip_gateway.Prelude.{
  arith, Bytes, lit, drop, List, [], ◌∷◌, ◌++◌, some, ◌≡◌, refl, equal_fold, to_lower, to_upper,
  same, false,
}
use megaco_sip_gateway.Prelude.Result.{ok}
use megaco_sip_gateway.Prelude.Strings.{is_white, cut_byte, split_byte, join, trim_space}
use megaco_sip_gateway.Prelude.Map
use megaco_sip_gateway.Sip.Digest.Unquote.{unquote, is_two}
use megaco_sip_gateway.Sip.Digest.Challenge.{
  unquoted, DigestChallenge, split_digest_parameters, unquote_digest_value, parse_digest_challenge,
}
use megaco_sip_gateway.Sip.Digest.Authorization.{
  Sums, DigestAuthorizationOptions, escape_digest_value, digest_hash, digest_response, hex_text,
  select_digest_qop, algorithm_of, authorization_parameters, build_digest_authorization,
}
use megaco_sip_gateway.Sip.Digest.Quoting.{unquote-escape, IsText, end, ascii, two_bytes}
use megaco_sip_gateway.Sip.Digest.Parameters.{split-authorization}

-- `a"ü\\` in UTF-8
abbrev quoted_text : Bytes
quoted_text = b'a' ∷ b'"' ∷ 195 ∷ 188 ∷ b'\\' ∷ []

quoted_text-IsText : IsText quoted_text
unfolding is_two
quoted_text-IsText = ascii b'a' _ (omega arith) (omega arith) (
    ascii b'"' _ (omega arith) (omega arith)
      (two_bytes 195 188 _ refl (ascii b'\\' _ (omega arith) (omega arith) end)))

unquote-escape_example :
    unquote_digest_value (b'"' ∷ (escape_digest_value quoted_text ++ b'"' ∷ [])) ≡ quoted_text
unquote-escape_example = unquote-escape quoted_text quoted_text-IsText

abbrev challenge : DigestChallenge
challenge = record {
  realm = lit "pbx, \"main\"";
  nonce = lit "n1";
  opaque = lit "5c";
  algorithm = lit "MD5";
  qop = lit "auth" ∷ lit "auth-int" ∷ [];
  stale = false;
}

-- A function that leaves the text as it is stands for MD5 and SHA-256.
abbrev sums : Sums
sums = record { md5 = λ s. s; sha256 = λ s. s }

parse_challenge :
    parse_digest_challenge
      (lit "Digest realm=\"pbx, \\\"main\\\"\", qop=\"auth,auth-int\", nonce=\"n1\", opaque=\"5c\"")
    ≡ ok challenge
unfolding parse_digest_challenge lit cut_byte trim_space equal_fold Map.lookup
    split_digest_parameters Map.insert unquote_digest_value unquoted unquote same to_lower
    split_byte
parse_challenge = refl

abbrev options : DigestAuthorizationOptions
options = record {
  method = lit "R";
  uri = lit "sip:a";
  username = lit "u\", x=\"";
  password = lit "p";
  body = [];
  nonce_count = 1;
  cnonce = lit "c";
}

abbrev parameters : List Bytes
parameters =
    authorization_parameters
      (digest_response (λ value. hex_text value) (lit "auth") false challenge options) (lit "auth")
      challenge options

split-authorization_example :
    (hash : Bytes → Bytes) × (digest_hash sums (algorithm_of challenge).1 ≡ some hash)
    × (split_digest_parameters (drop 7 (lit "Digest " ++ join (b',' ∷ b' ' ∷ []) parameters))
        ≡ authorization_parameters
            (digest_response hash
              (select_digest_qop challenge.qop)
              (algorithm_of challenge).0
              challenge
              options)
            (select_digest_qop challenge.qop)
            challenge
            options)
unfolding build_digest_authorization lit digest_hash same to_upper trim_space select_digest_qop
    equal_fold
split-authorization_example =
    split-authorization sums challenge options (lit "Digest " ++ join (b',' ∷ b' ' ∷ []) parameters)
      (unfold lit is_white in (refl, (refl, (refl, tt)))) refl
