-- ===== src/Sip/Digest/Parameters.antt =====
-- The parameters of an authorization of internal/sip/digest.go, split again.
use megaco_sip_gateway.Prelude.{
  ℕ, ◌/◌, ◌%◌, Bytes, String, lit, is_empty, Bool, Bool-cases, true, false, not, ◌&&◌, ◌<◌, ◌^◌,
  List, [], ◌∷◌, ◌++◌, Option, none, some, drop, ◌≡◌, ◌∙◌, refl, ap, arith, inl, inr,
}
use megaco_sip_gateway.Prelude.Result.{ok}
use megaco_sip_gateway.Prelude.Strings.{is_white, join}
use megaco_sip_gateway.Prelude.Strings.Laws.{AllNot}
use megaco_sip_gateway.Sip.Digest.Challenge.{split_digest_parameters, DigestChallenge}
use megaco_sip_gateway.Sip.Digest.Authorization.{
  quoted_parameter, plain_parameter, hex_digit, hex_text, hex8, has_fold, select_digest_qop,
  DigestAuthorizationOptions, authorization_parameters, authorize, digest_response, digest_hash,
  algorithm_of, qop_parameters, opaque_parameter, build_digest_authorization, Sums,
}
use megaco_sip_gateway.Sip.Digest.Quoting.{is_special, IsWhole}
use megaco_sip_gateway.Sip.Digest.Splitting.{AllWhole, split-join, plain-IsWhole, quoted-IsWhole}

abbrev AllBytes : Bytes → Type 0
AllBytes [] = Unit
AllBytes (x ∷ xs) = (x < 256) × AllBytes xs

is_plain : Bytes → Bool
is_plain [] = true
is_plain (c ∷ cs) = not (is_special c) && is_plain cs

is_plain-AllNot : (s : Bytes) → is_plain s ≡ true → AllNot is_special s
unfolding is_plain
is_plain-AllNot [] h = tt
is_plain-AllNot (c ∷ cs) h = (ground (arith, h), is_plain-AllNot cs (ground (arith, h)))

append-plain :
    (a b : Bytes) → AllNot is_special a → AllNot is_special b → AllNot is_special (a ++ b)
append-plain [] b h k = k
append-plain (c ∷ cs) b h k = (h.0, append-plain cs b h.1 k)

hex_digit-plain : (n : ℕ) → n < 16 → is_special (hex_digit n) ≡ false
unfolding hex_digit is_white
hex_digit-plain n h = ground arith

hex_text-plain : (s : Bytes) → AllBytes s → AllNot is_special (hex_text s)
unfolding hex_text
hex_text-plain [] h = tt
hex_text-plain (x ∷ xs) h = (
  hex_digit-plain (x / 16) (omega (arith, h.0)),
  (hex_digit-plain (x % 16) (omega arith), hex_text-plain xs h.1),
)

hex8-plain : (n : ℕ) → AllNot is_special (hex8 n)
unfolding hex8
hex8-plain n =
    hex_text-plain ((n / 2 ^ 24 % 256) ∷ (n / 2 ^ 16 % 256) ∷ (n / 2 ^ 8 % 256) ∷ (n % 256) ∷ [])
      (omega arith)

select-plain : (values : List Bytes) → AllNot is_special (select_digest_qop values)
unfolding select_digest_qop
select-plain values = elim (Bool-cases (has_fold (lit "auth") values)) [
  | inl e ↦ rw e (is_plain-AllNot (lit "auth") (unfold is_plain lit is_white in refl))
  | inr e ↦ rw e (elim (Bool-cases (has_fold (lit "auth-int") values)) [
    | inl f ↦ rw f (is_plain-AllNot (lit "auth-int") (unfold is_plain lit is_white in refl))
    | inr f ↦ rw f tt
  ])
]

module _ (response : Bytes) (c : DigestChallenge) (o : DigestAuthorizationOptions) where
  username-IsWhole : IsWhole (quoted_parameter "username" o.username)
  unfolding quoted_parameter lit is_plain is_white
  username-IsWhole =
      quoted-IsWhole b'u' (lit "sername=") o.username (is_plain-AllNot (lit "username=") refl)

  realm-IsWhole : IsWhole (quoted_parameter "realm" c.realm)
  unfolding quoted_parameter lit is_plain is_white
  realm-IsWhole = quoted-IsWhole b'r' (lit "ealm=") c.realm (is_plain-AllNot (lit "realm=") refl)

  nonce-IsWhole : IsWhole (quoted_parameter "nonce" c.nonce)
  unfolding quoted_parameter lit is_plain is_white
  nonce-IsWhole = quoted-IsWhole b'n' (lit "once=") c.nonce (is_plain-AllNot (lit "nonce=") refl)

  uri-IsWhole : IsWhole (quoted_parameter "uri" o.uri)
  unfolding quoted_parameter lit is_plain is_white
  uri-IsWhole = quoted-IsWhole b'u' (lit "ri=") o.uri (is_plain-AllNot (lit "uri=") refl)

  response-IsWhole : IsWhole (quoted_parameter "response" response)
  unfolding quoted_parameter lit is_plain is_white
  response-IsWhole =
      quoted-IsWhole b'r' (lit "esponse=") response (is_plain-AllNot (lit "response=") refl)

  opaque-IsWhole : IsWhole (quoted_parameter "opaque" c.opaque)
  unfolding quoted_parameter lit is_plain is_white
  opaque-IsWhole =
      quoted-IsWhole b'o' (lit "paque=") c.opaque (is_plain-AllNot (lit "opaque=") refl)

  cnonce-IsWhole : IsWhole (quoted_parameter "cnonce" o.cnonce)
  unfolding quoted_parameter lit is_plain is_white
  cnonce-IsWhole =
      quoted-IsWhole b'c' (lit "nonce=") o.cnonce (is_plain-AllNot (lit "cnonce=") refl)

  plain_parameter-IsWhole :
      (name : String) (value : Bytes)
      → is_plain (lit name) ≡ true
      → AllNot is_special value
      → IsWhole (plain_parameter name value)
  unfolding plain_parameter is_plain is_white
  plain_parameter-IsWhole name value h k =
      plain-IsWhole _
        (append-plain (lit name) (b'=' ∷ value) (is_plain-AllNot (lit name) h) (refl, k))

  optional-AllWhole : (qop : Bytes) → AllNot is_special qop → AllWhole (qop_parameters qop o)
  unfolding qop_parameters
  optional-AllWhole [] h = tt
  optional-AllWhole (q ∷ qs) h = (
    plain_parameter-IsWhole "qop" (q ∷ qs) (unfold lit is_plain is_white in refl) h,
    (
      plain_parameter-IsWhole "nc" (hex8 o.nonce_count) (unfold lit is_plain is_white in refl)
          (hex8-plain o.nonce_count),
      (cnonce-IsWhole, tt),
    ),
  )

  opaque-AllWhole : (rest : List Bytes) → AllWhole rest → AllWhole (opaque_parameter c ++ rest)
  unfolding opaque_parameter
  opaque-AllWhole rest h = elim (Bool-cases (is_empty c.opaque)) [
    | inl e ↦ rw e h
    | inr e ↦ rw e (opaque-IsWhole, h)
  ]

  parameters-AllWhole :
      (qop : Bytes)
      → AllNot is_special c.algorithm
      → AllNot is_special qop
      → AllWhole (authorization_parameters response qop c o)
  unfolding authorization_parameters
  parameters-AllWhole qop algorithm h = (
    username-IsWhole,
    (
      realm-IsWhole,
      (
        nonce-IsWhole,
        (
          uri-IsWhole,
          (
            response-IsWhole,
            (
              plain_parameter-IsWhole "algorithm" c.algorithm (unfold lit is_plain is_white in refl)
                  algorithm,
              opaque-AllWhole (qop_parameters qop o) (optional-AllWhole qop h),
            ),
          ),
        ),
      ),
    ),
  )

  split-parameters :
      (qop : Bytes)
      → AllNot is_special c.algorithm
      → AllNot is_special qop
      → split_digest_parameters (
          drop 7
            (lit "Digest " ++ join (b',' ∷ b' ' ∷ []) (authorization_parameters response qop c o)))
        ≡ authorization_parameters response qop c o
  unfolding lit authorization_parameters
  split-parameters qop algorithm h =
      split-join _ _ (unfold authorization_parameters in parameters-AllWhole qop algorithm h)

authorize-ok :
    (found : Option (Bytes → Bytes)) (session : Bool) (c : DigestChallenge)
    (o : DigestAuthorizationOptions) (text : Bytes)
    → authorize found session c o ≡ ok text
    → (hash : Bytes → Bytes) × (found ≡ some hash)
      × (text
          ≡ lit "Digest "
            ++ join (b',' ∷ b' ' ∷ []) (
                authorization_parameters
                  (digest_response hash (select_digest_qop c.qop) session c o)
                  (select_digest_qop c.qop)
                  c
                  o))
unfolding authorize
authorize-ok none session c o text h = cc
authorize-ok (some hash) session c o text h = (hash, refl, ground (arith, h))

-- An authorization that is built for a challenge whose algorithm holds no quotation mark, comma
-- or white space is split into exactly the parameters it was made of, with a response by the
-- hash of that algorithm, whatever texts the user name, the URI, the realm and the other quoted
-- values are.
pub split-authorization :
    (sums : Sums) (c : DigestChallenge) (o : DigestAuthorizationOptions) (text : Bytes)
    → AllNot is_special c.algorithm
    → build_digest_authorization sums c o ≡ ok text
    → (hash : Bytes → Bytes) × (digest_hash sums (algorithm_of c).1 ≡ some hash)
      × (split_digest_parameters (drop 7 text)
          ≡ authorization_parameters
              (digest_response hash (select_digest_qop c.qop) (algorithm_of c).0 c o)
              (select_digest_qop c.qop)
              c
              o)
unfolding build_digest_authorization
split-authorization sums c o text algorithm h =
    let qop = select_digest_qop c.qop in
    let made : authorize (digest_hash sums (algorithm_of c).1) (algorithm_of c).0 c o ≡ ok text =
      ground (arith, h) in
    let (hash, found, e) =
      authorize-ok (digest_hash sums (algorithm_of c).1) (algorithm_of c).0 c o text made in
    (
      hash,
      found,
      ap (λ (t : Bytes). split_digest_parameters (drop 7 t)) e
          ∙ split-parameters (digest_response hash qop (algorithm_of c).0 c o) c o qop algorithm
              (select-plain c.qop),
    )
