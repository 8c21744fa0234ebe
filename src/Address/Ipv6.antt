-- ===== src/Address/Ipv6.antt =====
-- isBlockedIpv6 on the sixteen bytes.
use vellar_facilitator.Base.{
  ℕ, ◌≤◌, ◌<◌, ◌≡◌, ◌⊎◌, inl, inr, refl, ◌∙◌, Bool, true, false, ◌&&◌, ◌||◌, not, dec_lt, subst, ap,
  List, [], ◌∷◌, arith, leb, bit_and, ◌==◌, if◌then◌else◌, zero, suc,
}
use vellar_facilitator.Address.Ipv4.{is_blocked_octets}

-- `bytes[i]`; the parser yields sixteen of them.
unfoldable pub byte : ℕ → List ℕ → ℕ
byte i [] = 0
byte zero (x ∷ xs) = x
byte (suc i) (x ∷ xs) = byte i xs

-- `bytes.slice(0, n).every((b) => b === 0)`.
unfoldable pub zeros : ℕ → List ℕ → Bool
zeros zero bytes = true
zeros (suc n) [] = true
zeros (suc n) (x ∷ xs) = x == 0 && zeros n xs

-- isBlockedIpv4 on the text of four bytes.
abbrev pub octets_at : ℕ → ℕ → ℕ → ℕ → List ℕ → List ℕ
octets_at i j k l bytes = byte i bytes ∷ byte j bytes ∷ byte k bytes ∷ byte l bytes ∷ []

unfoldable pub is_blocked_bytes : List ℕ → Bool
unfolding byte zeros
is_blocked_bytes bytes =
    if zeros 15 bytes && (byte 15 bytes == 1 || byte 15 bytes == 0)
    then true
    else if byte 0 bytes == 0xfe && bit_and (byte 1 bytes) 0xc0 == 0x80
    then true
    else if byte 0 bytes == 0xfe && bit_and (byte 1 bytes) 0xc0 == 0xc0
    then true
    else if bit_and (byte 0 bytes) 0xfe == 0xfc
    then true
    else if byte 0 bytes == 0x00
        && byte 1 bytes == 0x64
        && byte 2 bytes == 0xff
        && byte 3 bytes == 0x9b
    then is_blocked_octets (octets_at 12 13 14 15 bytes)
    else if byte 0 bytes == 0x20 && byte 1 bytes == 0x02
    then is_blocked_octets (octets_at 2 3 4 5 bytes)
    else if zeros 8 bytes && byte 8 bytes == 0xff && byte 9 bytes == 0xff
    then is_blocked_octets (octets_at 12 13 14 15 bytes)
    else if (zeros 10 bytes && byte 10 bytes == 0xff && byte 11 bytes == 0xff)
        || (zeros 12 bytes
            && not (
                byte 12 bytes == 0
                && byte 13 bytes == 0
                && byte 14 bytes == 0
                && leb (byte 15 bytes) 1))
    then is_blocked_octets (octets_at 12 13 14 15 bytes)
    else false

-- The ways in which an IPv6 address carries an IPv4 address that a gateway will reach: mapped,
-- translated, 6to4 with the ten bytes that follow, and NAT64 with the eight bytes between.
pub data Carrier : Type 0 where
  mapped translated : Carrier
  six_to_four : (List ℕ) → Carrier
  nat64 : ℕ → ℕ → ℕ → ℕ → ℕ → ℕ → ℕ → ℕ → Carrier

pub carry : Carrier → ℕ → ℕ → ℕ → ℕ → List ℕ
carry mapped a b c d = 0 ∷ 0 ∷ 0 ∷ 0 ∷ 0 ∷ 0 ∷ 0 ∷ 0 ∷ 0 ∷ 0 ∷ 0xff ∷ 0xff ∷ a ∷ b ∷ c ∷ d ∷ []
carry translated a b c d = 0 ∷ 0 ∷ 0 ∷ 0 ∷ 0 ∷ 0 ∷ 0 ∷ 0 ∷ 0xff ∷ 0xff ∷ 0 ∷ 0 ∷ a ∷ b ∷ c ∷ d ∷ []
carry (six_to_four rest) a b c d = 0x20 ∷ 0x02 ∷ a ∷ b ∷ c ∷ d ∷ rest
carry (nat64 e f g h i j k l) a b c d =
    0x00 ∷ 0x64 ∷ 0xff ∷ 0x9b ∷ e ∷ f ∷ g ∷ h ∷ i ∷ j ∷ k ∷ l ∷ a ∷ b ∷ c ∷ d ∷ []

-- An IPv4 address gets the same verdict inside an IPv6 address, in each of these forms, as by
-- itself: no form of a private IPv4 address passes.
pub is_blocked_bytes-carry :
    (form : Carrier) (a b c d : ℕ)
    → is_blocked_bytes (carry form a b c d) ≡ is_blocked_octets (a ∷ b ∷ c ∷ d ∷ [])
unfolding is_blocked_bytes carry
is_blocked_bytes-carry mapped a b c d = refl
is_blocked_bytes-carry translated a b c d = refl
is_blocked_bytes-carry (six_to_four rest) a b c d = refl
is_blocked_bytes-carry (nat64 e f g h i j k l) a b c d = refl

-- A test of every byte from `n` down, run once and for all.
passes_to : ℕ → (ℕ → Bool) → Bool
passes_to zero test = test 0
passes_to (suc n) test = passes_to n test && test (suc n)

passes_to-at : (test : ℕ → Bool) (x n : ℕ) → x ≤ n → passes_to n test ≡ true → test x ≡ true
unfolding passes_to
passes_to-at test x zero within passed = ap test (zero_only x within) ∙ passed
  where
    zero_only : (y : ℕ) → y ≤ 0 → y ≡ 0
    zero_only y small = omega arith
passes_to-at test x (suc n) within passed = elim (dec_lt x (suc n)) [
  | yes lower_half ↦ passes_to-at test x n (omega arith) (ground arith)
  | no top ↦
      let e : suc n ≡ x = omega arith in
      let last : test (suc n) ≡ true = ground arith in subst (λ y. test y ≡ true) e last
]

abbrev local_scope : ℕ → Bool
local_scope b = if leb 0x80 b then bit_and b 0xc0 == 0x80 || bit_and b 0xc0 == 0xc0 else true

local_scope_table : passes_to 255 local_scope ≡ true
unfolding passes_to
local_scope_table = refl

abbrev unique_local : ℕ → Bool
unique_local a = if leb 0xfc a && leb a 0xfd then bit_and a 0xfe == 0xfc else true

unique_local_table : passes_to 255 unique_local ≡ true
unfolding passes_to
unique_local_table = refl

-- Every address of fe80::/10 and fec0::/10 (link-local and site-local) and of fc00::/7 (unique local)
-- is refused, whatever its other bytes are.
pub local_ranges_blocked :
    (a b : ℕ) (rest : List ℕ)
    → b < 256
    → ((a ≡ 0xfe) × (0x80 ≤ b)) ⊎ ((0xfc ≤ a) × (a ≤ 0xfd))
    → is_blocked_bytes (a ∷ b ∷ rest) ≡ true
unfolding is_blocked_bytes
local_ranges_blocked a b rest hb (inl (fe, high)) =
    ground (arith, passes_to-at local_scope b 255 (omega arith) local_scope_table)
local_ranges_blocked a b rest hb (inr (low, high)) =
    ground (arith, passes_to-at unique_local a 255 (omega arith) unique_local_table)
