-- ===== src/Sip/Digest/Authorization.antt =====
-- The authorization of internal/sip/digest.go: `BuildDigestAuthorization` and its helpers. The sums
-- of MD5 and SHA-256 are parameters.
use megaco_sip_gateway.Prelude.{
  ℕ, ◌+◌, ◌-◌, ◌^◌, ◌/◌, ◌%◌, Bytes, String, lit, same, is_empty, equal_fold, to_upper, Bool, true,
  false, not, ◌&&◌, ◌||◌, List, [], ◌∷◌, ◌++◌, Option, none, some, ltb, if◌then◌else◌,
}
use megaco_sip_gateway.Prelude.Result.{Result, ok, err}
use megaco_sip_gateway.Prelude.Strings.{trim_space, join, replace_all}
use megaco_sip_gateway.Sip.Digest.Challenge.{
  DigestChallenge, DigestError, unsupported_algorithm, unsupported_qop, missing_cnonce,
  missing_field,
}

-- `nonce_count` is below 2 ^ 32.
pub record DigestAuthorizationOptions : Type 0 where
  pub method : Bytes
  pub uri : Bytes
  pub username : Bytes
  pub password : Bytes
  pub body : Bytes
  pub nonce_count : ℕ
  pub cnonce : Bytes

-- `md5.Sum` and `sha256.Sum256`
pub record Sums : Type 0 where
  pub md5 : Bytes → Bytes
  pub sha256 : Bytes → Bytes

-- `escapeDigestValue`
unfoldable pub escape_digest_value : Bytes → Bytes
escape_digest_value value =
    replace_all (replace_all value (b'\\' ∷ []) (b'\\' ∷ b'\\' ∷ [])) (b'"' ∷ [])
      (b'\\' ∷ b'"' ∷ [])

unfoldable pub has_fold : Bytes → List Bytes → Bool
has_fold name [] = false
has_fold name (value ∷ values) = equal_fold value name || has_fold name values

-- `selectDigestQOP`
unfoldable pub select_digest_qop : List Bytes → Bytes
unfolding has_fold
select_digest_qop values =
    if has_fold (lit "auth") values
    then lit "auth"
    else if has_fold (lit "auth-int") values
    then lit "auth-int"
    else []

unfoldable pub hex_digit : ℕ → ℕ
hex_digit n = if ltb n 10 then b'0' + n else b'a' + (n % 16) - 10

-- `hex.EncodeToString`
unfoldable pub hex_text : Bytes → Bytes
unfolding hex_digit
hex_text [] = []
hex_text (x ∷ xs) = hex_digit (x / 16) ∷ hex_digit (x % 16) ∷ hex_text xs

-- `%08x`
unfoldable pub hex8 : ℕ → Bytes
hex8 n = hex_text ((n / 2 ^ 24 % 256) ∷ (n / 2 ^ 16 % 256) ∷ (n / 2 ^ 8 % 256) ∷ (n % 256) ∷ [])

-- `digestHash`
unfoldable pub digest_hash : Sums → Bytes → Option (Bytes → Bytes)
unfolding hex_text
digest_hash sums algorithm =
    if same (to_upper algorithm) (lit "MD5")
    then some (λ value. hex_text (sums.md5 value))
    else if same (to_upper algorithm) (lit "SHA-256")
    then some (λ value. hex_text (sums.sha256 value))
    else none

onto_text : ℕ → Option Bytes → Option Bytes
onto_text c none = none
onto_text c (some text) = some (c ∷ text)

-- The text before a suffix, if there is one
before_suffix : Bytes → Bytes → Option Bytes
before_suffix suffix [] = if is_empty suffix then some [] else none
before_suffix suffix (c ∷ cs) =
    let rest = onto_text c (before_suffix suffix cs) in
    if same (c ∷ cs) suffix then some [] else rest

-- Whether the algorithm is a session's, and its name without `-SESS`
unfoldable pub algorithm_of : DigestChallenge → Bool × Bytes
unfolding before_suffix onto_text
algorithm_of c =
    let name = to_upper (trim_space c.algorithm) in
    elim (before_suffix (lit "-SESS") name) [ none ↦ (false, name) | some base ↦ (true, base) ]

colon : Bytes → Bytes → Bytes
colon a b = a ++ (b':' ∷ b)

-- `response`, for a hash function, a choice of qop and whether the algorithm is a session's
unfoldable pub digest_response :
    (Bytes → Bytes) → Bytes → Bool → DigestChallenge → DigestAuthorizationOptions → Bytes
unfolding colon hex8 hex_text
digest_response hash qop session c o =
    let plain = hash (colon o.username (colon c.realm o.password)) in
    let ha1 = if session then hash (colon plain (colon c.nonce o.cnonce)) else plain in
    let request = colon o.method o.uri in
    let ha2 = hash (if same qop (lit "auth-int") then colon request (hash o.body) else request) in
    hash (
      colon ha1 (
        colon c.nonce (
          if is_empty qop
          then ha2
          else colon (hex8 o.nonce_count) (colon o.cnonce (colon qop ha2)))))

-- `name="…"`
unfoldable pub quoted_parameter : String → Bytes → Bytes
quoted_parameter name value = lit name ++ (b'=' ∷ b'"' ∷ (escape_digest_value value ++ b'"' ∷ []))

unfoldable pub plain_parameter : String → Bytes → Bytes
plain_parameter name value = lit name ++ (b'=' ∷ value)

unfoldable pub qop_parameters : Bytes → DigestAuthorizationOptions → List Bytes
unfolding hex8 hex_text
qop_parameters [] o = []
qop_parameters (q ∷ qs) o =
    plain_parameter "qop" (q ∷ qs)
    ∷ plain_parameter "nc" (hex8 o.nonce_count)
    ∷ quoted_parameter "cnonce" o.cnonce
    ∷ []

unfoldable pub opaque_parameter : DigestChallenge → List Bytes
opaque_parameter c = if is_empty c.opaque then [] else quoted_parameter "opaque" c.opaque ∷ []

unfoldable pub authorization_parameters :
    Bytes → Bytes → DigestChallenge → DigestAuthorizationOptions → List Bytes
authorization_parameters response qop c o =
    quoted_parameter "username" o.username
    ∷ quoted_parameter "realm" c.realm
    ∷ quoted_parameter "nonce" c.nonce
    ∷ quoted_parameter "uri" o.uri
    ∷ quoted_parameter "response" response
    ∷ plain_parameter "algorithm" c.algorithm
    ∷ (opaque_parameter c ++ qop_parameters qop o)

unfoldable pub authorize :
    Option (Bytes → Bytes)
    → Bool
    → DigestChallenge
    → DigestAuthorizationOptions
    → Result DigestError Bytes
authorize none session c o = err unsupported_algorithm
authorize (some hash) session c o =
    let qop = select_digest_qop c.qop in
    let response = digest_response hash qop session c o in
    if not (elim c.qop [ [] ↦ true | q ∷ qs ↦ false ]) && is_empty qop
    then err unsupported_qop
    else if (not (is_empty qop) || session) && is_empty o.cnonce
    then err missing_cnonce
    else ok (lit "Digest " ++ join (b',' ∷ b' ' ∷ []) (authorization_parameters response qop c o))

-- `BuildDigestAuthorization`
unfoldable pub build_digest_authorization :
    Sums → DigestChallenge → DigestAuthorizationOptions → Result DigestError Bytes
unfolding authorize algorithm_of
build_digest_authorization sums c o =
    let (session, base) = algorithm_of c in
    if is_empty o.method || is_empty o.uri || is_empty o.username
    then err missing_field
    else authorize (digest_hash sums base) session c o
