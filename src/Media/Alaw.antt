-- ===== src/Media/Alaw.antt =====
-- `linearToALaw` of internal/bridge/media.go, and the decoder of ITU-T G.711 that a receiver has.
use Prim.Native.Nat.{bit_xor}
use megaco_sip_gateway.Prelude.{
  ℕ, zero, suc, ◌+◌, ◌-◌, ◌*◌, ◌/◌, ◌%◌, ◌^◌, ◌≤◌, ◌<◌, Bool, true, false, not, ◌&&◌, ltb, leb,
  if◌then◌else◌, ℤ, pos, negsuc, ◌≡◌, refl, arith,
}

-- `value` after the sign has been taken off and the clamps applied.
magnitude : ℤ → ℕ
magnitude (pos n) = if ltb 32635 n then 32635 else n
magnitude (negsuc n) = let m = suc n - 8 in if ltb 32635 m then 32635 else m

mask : ℤ → ℕ
mask (pos n) = 0xd5
mask (negsuc n) = 0x55

-- The loop over `threshold`, with the rounds that are left.
segment_from : ℕ → ℕ → ℕ → ℕ
segment_from zero threshold value = 0
segment_from (suc rounds) threshold value =
    let more = suc (segment_from rounds (threshold * 2) value) in
    if ltb value threshold then 0 else more

-- The seven bits below the sign, before the mask.
unfoldable pub segment_bits : ℕ → ℕ
unfolding segment_from
segment_bits value =
    let segment = segment_from 7 64 value in
    segment * 16 + (if ltb segment 2 then value / 16 % 16 else value / 2 ^ (segment + 3) % 16)

unfoldable pub linear_to_alaw : ℤ → ℕ
unfolding magnitude mask segment_bits
linear_to_alaw sample = bit_xor (segment_bits (magnitude sample)) (mask sample)

-- The magnitude that G.711 gives a segment and its step, on the 16-bit scale.
expand : ℕ → ℕ → ℕ
expand zero step = step * 16 + 8
expand (suc segment) step = (step * 16 + 264) * 2 ^ segment

-- What a G.711 receiver plays for the seven bits below the sign.
unfoldable pub decoded : ℕ → ℕ
unfolding expand
decoded bits = expand (bits / 16) (bits % 16)

-- What the receiver plays for a sample that is not negative.
unfoldable pub received : ℕ → ℕ
unfolding decoded linear_to_alaw
received v = decoded (bit_xor (linear_to_alaw (pos v)) 0xd5)

abbrev pub size : ℤ → ℕ
size (pos n) = n
size (negsuc n) = suc n

abbrev pub is_negative : ℤ → Bool
is_negative (pos n) = false
is_negative (negsuc n) = true

-- The sample that a receiver plays for a byte without its mask
signed : ℕ → ℤ
signed b = if ltb b 128 then pos (decoded b) else negsuc (decoded (b - 128) - 1)

-- What the receiver plays for any sample
unfoldable pub played : ℤ → ℤ
unfolding decoded linear_to_alaw signed
played sample = signed (bit_xor (linear_to_alaw sample) 0xd5)

all_from : ℕ → ℕ → (ℕ → Bool) → Bool
all_from zero i p = true
all_from (suc n) i p = p i && all_from n (i + 1) p

all_from-eq :
    (n i : ℕ) (p : ℕ → Bool) (x : ℕ) → all_from n i p ≡ true → i ≤ x → x < i + n → p x ≡ true
unfolding all_from
all_from-eq zero i p x h l u = absurd (omega arith)
all_from-eq (suc n) i p x h l u = ground (arith, all_from-eq n (i + 1) p x)

same_sign : Bool → Bool → Bool
same_sign true b = b
same_sign false b = not b

same_sign-eq : (a b : Bool) → same_sign a b ≡ true → a ≡ b
unfolding same_sign
same_sign-eq true b h = ground (arith, h)
same_sign-eq false b h = ground (arith, h)

-- The sign is kept, and the size up to 15.
is_near : ℤ → Bool
is_near s =
    same_sign (is_negative (played s)) (is_negative s)
    && leb (size (played s)) (size s + 15)
    && leb (size s) (size (played s) + 15)

near :
    (s : ℤ)
    → is_near s ≡ true
    → (is_negative (played s) ≡ is_negative s)
      × (size (played s) ≤ size s + 15)
      × (size s ≤ size (played s) + 15)
unfolding is_near
near s h = (same_sign-eq _ _ (ground (arith, h)), ground (arith, h), ground (arith, h))

positive_table : all_from 64 0 (λ v. is_near (pos v)) ≡ true
unfolding all_from is_near played same_sign
positive_table = refl

negative_table : all_from 63 0 (λ v. is_near (negsuc v)) ≡ true
unfolding all_from is_near played same_sign
negative_table = refl

loud_table : all_from 10937 64 (λ v. leb (2 * v) (received v)) ≡ true
unfolding all_from received
loud_table = refl

-- A sample of a size below 64, negative ones included, is played by a G.711 receiver with its
-- sign and with an error of 15 at most.
pub received_small :
    (sample : ℤ)
    → size sample < 64
    → (is_negative (played sample) ≡ is_negative sample)
      × (size (played sample) ≤ size sample + 15)
      × (size sample ≤ size (played sample) + 15)
received_small (pos v) h =
    let found =
      all_from-eq 64 0 (λ v. is_near (pos v)) v positive_table (omega arith) (omega arith) in
    near (pos v) found
received_small (negsuc v) h =
    let found =
      all_from-eq 63 0 (λ v. is_near (negsuc v)) v negative_table (omega arith) (omega arith) in
    near (negsuc v) found

-- For a sample from 64 up to 11000, the loudest of a tone, a receiver decodes at least twice the
-- sample.
pub received_loud : (v : ℕ) → 64 ≤ v → v ≤ 11000 → 2 * v ≤ received v
received_loud v l u =
    let found = all_from-eq 10937 64 (λ v. leb (2 * v) (received v)) v loud_table l (omega arith) in
    ground (arith, found)
