-- ===== src/H248/Message/Names.antt =====
-- The names of commands, long and compact.
use megaco_sip_gateway.Prelude.{
  Bytes, lit, same, same_iff, to_lower, true, List, [], ◌∷◌, ◌≡◌, refl, arith, ◌⊎◌, inl, inr,
}
use megaco_sip_gateway.H248.Message.{is_command, canonical_command, compact_command}

abbrev In : Bytes → List Bytes → Type 0
In a [] = ⊥
In a (b ∷ bs) = (a ≡ b) ⊎ In a bs

abbrev names : List Bytes
names =
    lit "ServiceChange"
    ∷ lit "Add"
    ∷ lit "Modify"
    ∷ lit "Subtract"
    ∷ lit "Move"
    ∷ lit "Notify"
    ∷ lit "AuditValue"
    ∷ lit "AuditCapabilities"
    ∷ []

is_command-In : (name : Bytes) → is_command name ≡ true → In name names
unfolding is_command
is_command-In name h = ground (
  arith,
  h,
  same_iff name (lit "ServiceChange"),
  same_iff name (lit "Add"),
  same_iff name (lit "Modify"),
  same_iff name (lit "Subtract"),
  same_iff name (lit "Move"),
  same_iff name (lit "Notify"),
  same_iff name (lit "AuditValue"),
  same_iff name (lit "AuditCapabilities"),
)

AllNames : (P : Bytes → Type 0) (l : List Bytes) → Type 0
AllNames P [] = Unit
AllNames P (x ∷ xs) = P x × AllNames P xs

of_all : (P : Bytes → Type 0) (l : List Bytes) (a : Bytes) → AllNames P l → In a l → P a
unfolding AllNames
of_all P [] a h i = absurd i
of_all P (x ∷ xs) a h (inl e) = rw e h.0
of_all P (x ∷ xs) a h (inr i) = of_all P xs a h.1 i

-- The compact name of a supported command is read back as the command; so is its long name.
pub canonical-compact :
    (name : Bytes)
    → is_command name ≡ true
    → (canonical_command (compact_command name) ≡ name) × (canonical_command name ≡ name)
canonical-compact name h =
    of_all (λ n. (canonical_command (compact_command n) ≡ n) × (canonical_command n ≡ n)) names name
      table (is_command-In name h)
  where
    table :
        AllNames
          (λ n. (canonical_command (compact_command n) ≡ n) × (canonical_command n ≡ n))
          names
    table =
        unfold AllNames canonical_command compact_command to_lower same lit in
        (
          (refl, refl),
          (
            (refl, refl),
            (
              (refl, refl),
              ((refl, refl), ((refl, refl), ((refl, refl), ((refl, refl), ((refl, refl), tt))))),
            ),
          ),
        )
