-- ===== src/Sip/Digest/Challenge.antt =====
-- The challenge of internal/sip/digest.go: `ParseDigestChallenge` and its helpers.
use megaco_sip_gateway.Prelude.{
  ℕ, Bytes, String, lit, is_empty, equal_fold, to_lower, Bool, false, not, ◌&&◌, ◌||◌, List, [],
  ◌∷◌, Option, none, some, ◌==◌, if◌then◌else◌,
}
use megaco_sip_gateway.Prelude.Map
use megaco_sip_gateway.Prelude.Result.{Result, ok, err}
use megaco_sip_gateway.Prelude.Strings.{trim, trim_space, cut_byte, split_byte}
use megaco_sip_gateway.Sip.Digest.Unquote.{unquote}

pub record DigestChallenge : Type 0 where
  pub realm : Bytes
  pub nonce : Bytes
  pub opaque : Bytes
  pub algorithm : Bytes
  pub qop : List Bytes
  pub stale : Bool

pub data DigestError : Type 0 where
  unsupported_challenge missing_realm_or_nonce missing_field unsupported_algorithm unsupported_qop
        missing_cnonce :
      DigestError

unfoldable pub onto_part : ℕ → List Bytes → List Bytes
onto_part c [] = (c ∷ []) ∷ []
onto_part c (part ∷ parts) = (c ∷ part) ∷ parts

-- The pieces between the commas outside quotations, not yet trimmed
unfoldable pub pieces : Bool → Bool → Bytes → List Bytes
unfolding onto_part
pieces quoted escaped [] = [] ∷ []
pieces quoted escaped (c ∷ cs) =
    let starts = not escaped && c == b'\\' && quoted in
    let turns = not escaped && not starts && c == b'"' in
    let cuts = not escaped && not starts && not turns && c == b',' && not quoted in
    let rest = pieces (if turns then not quoted else quoted) starts cs in
    if cuts then [] ∷ rest else onto_part c rest

unfoldable pub trim_all : List Bytes → List Bytes
trim_all [] = []
trim_all (part ∷ parts) = trim_space part ∷ trim_all parts

-- `splitDigestParameters`
unfoldable pub split_digest_parameters : Bytes → List Bytes
unfolding pieces trim_all
split_digest_parameters value = trim_all (pieces false false value)

or_trimmed : Bytes → Option Bytes → Bytes
or_trimmed value none = trim value (b'"' ∷ [])
or_trimmed value (some text) = text

unfoldable pub unquoted : Bytes → Bytes
unfolding or_trimmed
unquoted value = or_trimmed value (unquote value)

-- `unquoteDigestValue`
unfoldable pub unquote_digest_value : Bytes → Bytes
unquote_digest_value value = unquoted (trim_space value)

abbrev Values : Type 0
Values = List (Bytes × Bytes)

put_parameter : Option (Bytes × Bytes) → Values → Values
put_parameter none values = values
put_parameter (some (name, parameter)) values =
    Map.insert (to_lower (trim_space name)) (unquote_digest_value parameter) values

put_parameters : List Bytes → Values → Values
put_parameters [] values = values
put_parameters (item ∷ rest) values =
    put_parameters rest (put_parameter (cut_byte b'=' item) values)

value_of : Values → String → Bytes
value_of values name = Map.text_or_empty (Map.lookup (lit name) values)

qops : List Bytes → List Bytes
qops [] = []
qops (part ∷ rest) =
    let qop = to_lower (trim_space part) in if is_empty qop then qops rest else qop ∷ qops rest

challenge_of : Values → Result DigestError DigestChallenge
challenge_of values =
    let realm = value_of values "realm" in
    let nonce = value_of values "nonce" in
    let algorithm = value_of values "algorithm" in
    if is_empty realm || is_empty nonce
    then err missing_realm_or_nonce
    else ok (record {
      realm = realm;
      nonce = nonce;
      opaque = value_of values "opaque";
      algorithm = if is_empty algorithm then lit "MD5" else algorithm;
      qop = qops (split_byte b',' (value_of values "qop"));
      stale = equal_fold (value_of values "stale") (lit "true");
    })

challenge_in : Option (Bytes × Bytes) → Result DigestError DigestChallenge
challenge_in none = err unsupported_challenge
challenge_in (some (scheme, parameters)) =
    if equal_fold scheme (lit "Digest")
    then challenge_of (put_parameters (split_digest_parameters parameters) [])
    else err unsupported_challenge

-- `ParseDigestChallenge`
unfoldable pub parse_digest_challenge : Bytes → Result DigestError DigestChallenge
unfolding challenge_in challenge_of qops value_of put_parameters put_parameter
parse_digest_challenge value = challenge_in (cut_byte b' ' (trim_space value))
