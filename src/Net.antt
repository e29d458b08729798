-- ===== src/Net.antt =====
-- What the program takes from Go's package `net`: UDP addresses and host-port text.
use megaco_sip_gateway.Prelude.{
  ℕ, Bytes, lit, Bool, ◌||◌, [], ◌∷◌, ◌++◌, Option, none, some, ◌==◌, if◌then◌else◌, ◌≡◌, refl,
}
use megaco_sip_gateway.Prelude.Decimal.{itoa}
use megaco_sip_gateway.Prelude.Strings.{cut_byte, is_in}

-- `net.UDPAddr`, with the text form of its IP. A copy of a value is the value, so that
-- `cloneUDPAddr` is the identity on `Option UdpAddr`.
pub record UdpAddr : Type 0 where
  pub ip : Bytes
  pub port : ℕ

-- `net.JoinHostPort`
unfoldable pub join_host_port : Bytes → Bytes → Bytes
join_host_port host port =
    if is_in host b':' then b'[' ∷ (host ++ (b']' ∷ b':' ∷ port)) else host ++ (b':' ∷ port)

-- `(*net.UDPAddr).String`
unfoldable pub addr_string : UdpAddr → Bytes
unfolding join_host_port
addr_string a = join_host_port a.ip (itoa a.port)

-- The text before the last `:`, and behind it.
cut_last_colon : Bytes → Option (Bytes × Bytes)
cut_last_colon [] = none
cut_last_colon (x ∷ xs) =
    let later : Option (Bytes × Bytes) = elim (cut_last_colon xs) [
      | none ↦ none
      | some (a, b) ↦ some (x ∷ a, b)
    ] in
    if is_in xs b':' then later else if x == b':' then some ([], xs) else none

bracketed : Bytes → Bytes → Option (Bytes × Bytes)
bracketed inner port = elim (cut_byte b']' inner) [
  | some (host, []) ↦
      if is_in host b'[' || is_in port b'[' || is_in port b']' then none else some (host, port)
  | _ ↦ none
]

plain : Bytes → Bytes → Option (Bytes × Bytes)
plain host port =
    if is_in host b':' || is_in host b'[' || is_in host b']' || is_in port b'[' || is_in port b']'
    then none
    else some (host, port)

host_and_port : Option (Bytes × Bytes) → Option (Bytes × Bytes)
host_and_port none = none
host_and_port (some ([], port)) = plain [] port
host_and_port (some (x ∷ host, port)) =
    if x == b'[' then bracketed host port else plain (x ∷ host) port

-- `net.SplitHostPort`, `none` for its errors
unfoldable pub split_host_port : Bytes → Option (Bytes × Bytes)
unfolding cut_last_colon host_and_port plain bracketed cut_byte is_in
split_host_port text = host_and_port (cut_last_colon text)

-- The name service and the IP parser are not the program's: `resolve` is `net.ResolveUDPAddr`,
-- `is_ip` and `is_unspecified` are `net.ParseIP(s) != nil` and `.IsUnspecified()` on its result.
pub record Resolver : Type 0 where
  pub resolve : Bytes → Option UdpAddr
  pub is_ip : Bytes → Bool
  pub is_unspecified : Bytes → Bool

samples :
    (split_host_port (lit "10.0.0.1:5060") ≡ some (lit "10.0.0.1", lit "5060"))
    × (split_host_port (lit "[::1]:2944") ≡ some (lit "::1", lit "2944"))
    × (split_host_port (lit "host") ≡ none)
    × (addr_string (record { ip = lit "::1"; port = 80 }) ≡ lit "[::1]:80")
unfolding split_host_port addr_string itoa is_in lit
samples = (refl, refl, refl, refl)
