-- ===== src/H248/Interop/Notify.antt =====
-- `BuildNotify` and `BuildDigitMapCompleteNotify` of internal/h248/interop.go. The formatted time
-- is an argument: dates are package `time`'s.
use megaco_sip_gateway.Prelude.{ℕ, Bytes, lit, is_empty, [], ◌∷◌, ◌++◌, if◌then◌else◌}
use megaco_sip_gateway.Prelude.Decimal.{itoa}
use megaco_sip_gateway.Prelude.Strings.{replace_all}
use megaco_sip_gateway.Net.{Resolver}
use megaco_sip_gateway.H248.Message.{format_mid}

pub record Notify : Type 0 where
  pub version : ℕ
  pub mid : Bytes
  pub transaction_id : Bytes
  pub context_id : Bytes
  pub termination : Bytes
  pub request_id : Bytes
  pub observed_at : Bytes
  pub event : Bytes

-- `BuildNotify`, for a version that is positive
unfoldable pub build_notify : Resolver → Notify → Bytes
build_notify net n =
    b'!'
    ∷ b'/'
    ∷ (itoa n.version
        ++ (b' '
            ∷ (format_mid net n.mid
                ++ (lit "\nT="
                    ++ (n.transaction_id
                        ++ (lit "{C="
                            ++ ((if is_empty n.context_id then b'-' ∷ [] else n.context_id)
                                ++ (lit "{N="
                                    ++ (n.termination
                                        ++ (lit "{OE="
                                            ++ (n.request_id
                                                ++ (b'{'
                                                    ∷ (n.observed_at
                                                        ++ (b':'
                                                            ∷ (n.event
                                                            ++ lit "}}}}\n")))))))))))))))

-- The event of `BuildDigitMapCompleteNotify`
unfoldable pub digit_map_event : Bytes → Bytes
digit_map_event number =
    lit "dd/ce{ds=\"" ++ (replace_all number (b'"' ∷ []) [] ++ lit "\",Meth=UM}")
