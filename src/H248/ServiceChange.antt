-- ===== src/H248/ServiceChange.antt =====
-- `BuildServiceChange` of internal/h248/message.go.
use megaco_sip_gateway.Prelude.{
  Bytes, lit, is_empty, equal_fold, Bool, not, ◌&&◌, [], ◌∷◌, ◌++◌, if◌then◌else◌, ℤ, pos, negsuc,
  ◌==◌, ◌≡◌, refl, false, true, none,
}
use megaco_sip_gateway.Prelude.Decimal.{itoa}
use megaco_sip_gateway.Prelude.Strings.{trim_space, replace_all}
use megaco_sip_gateway.Net.{Resolver}
use megaco_sip_gateway.H248.Message.{format_mid}

pub record ServiceChangeOptions : Type 0 where
  pub version : ℤ
  pub mid : Bytes
  pub raw_mid : Bool
  pub transaction_id : Bytes
  pub termination : Bytes
  pub method : Bytes
  pub reason : Bytes
  pub profile : Bytes
  pub address : Bytes

-- `%d` of the version, 1 where it is not positive
version_text : ℤ → Bytes
version_text (pos n) = if n == 0 then b'1' ∷ [] else itoa n
version_text (negsuc n) = b'1' ∷ []

abbrev or_text : Bytes → Bytes → Bytes
or_text default s = if is_empty s then default else s

-- `MT=%s,RE="%s",V=%d`, and the address and the profile where they are given
unfoldable pub descriptors : ServiceChangeOptions → Bytes
unfolding version_text
descriptors o =
    let method =
      if not (equal_fold o.method (lit "Restart")) && not (is_empty o.method)
      then o.method
      else lit "RS" in
    let reason = or_text (lit "901 Cold Boot") (replace_all o.reason (b'"' ∷ []) (b'\'' ∷ [])) in
    lit "MT="
    ++ (method
        ++ (lit ",RE=\""
            ++ (reason
                ++ (lit "\",V="
                    ++ (version_text o.version
                        ++ ((if is_empty o.address then [] else lit ",AD=" ++ o.address)
                            ++ (if is_empty o.profile then [] else lit ",PF=" ++ o.profile)))))))

unfoldable pub mid_text : Resolver → ServiceChangeOptions → Bytes
mid_text net o = if o.raw_mid then or_text (b'0' ∷ []) (trim_space o.mid) else format_mid net o.mid

-- `BuildServiceChange`
unfoldable pub build_service_change : Resolver → ServiceChangeOptions → Bytes
unfolding descriptors mid_text version_text
build_service_change net o =
    lit "!/"
    ++ (version_text o.version
        ++ (b' '
            ∷ (mid_text net o
                ++ (lit "\nT="
                    ++ (o.transaction_id
                        ++ (lit "{C=-{SC="
                            ++ (or_text (lit "ROOT") (trim_space o.termination)
                                ++ (lit "{SV{" ++ (descriptors o ++ lit "}}}}\n")))))))))

build_for_root :
    build_service_change
      (record { resolve = λ s. none; is_ip = λ s. true; is_unspecified = λ s. false })
      (record {
        version = pos 0;
        mid = lit "198.51.100.10";
        raw_mid = false;
        transaction_id = lit "100";
        termination = [];
        method = [];
        reason = [];
        profile = lit "ExampleProfile/1";
        address = [];
      })
    ≡ lit
        "!/1 [198.51.100.10]\nT=100{C=-{SC=ROOT{SV{MT=RS,RE=\"901 Cold Boot\",V=1,PF=ExampleProfile/1}}}}\n"
unfolding build_service_change lit equal_fold replace_all trim_space format_mid
build_for_root = refl
