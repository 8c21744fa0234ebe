-- ===== src/Address/Ipv4.antt =====
-- isBlockedIpv4 on the four octets, against the CIDR blocks that its comments name.
use vellar_facilitator.Base.{
  ℕ, ◌+◌, ◌*◌, ◌<◌, ◌≡◌, refl, sym, ap₂, ◌∙◌, Bool, true, false, ◌&&◌, ◌||◌, Option, none, some,
  List, [], ◌∷◌, arith, ltb, leb, ◌==◌, if◌then◌else◌,
}

-- `parts` when every one is a number of a byte: the test at the head of isBlockedIpv4.
unfoldable pub all_octets : List (Option ℕ) → Option (List ℕ)
all_octets [] = some []
all_octets (none ∷ parts) = none
all_octets (some n ∷ parts) = elim (all_octets parts) [
  | none ↦ none
  | some ns ↦ (if leb n 255 then some (n ∷ ns) else none)
]

-- The ranges of isBlockedIpv4, in its order.
in_blocked_range : ℕ → ℕ → ℕ → Bool
in_blocked_range a b c =
    a == 10
    || (a == 127
        || (a == 0
            || ((a == 172 && leb 16 b && leb b 31)
                || ((a == 192 && b == 168)
                    || ((a == 169 && b == 254)
                        || ((a == 100 && leb 64 b && leb b 127)
                            || (leb 224 a || (a == 192 && b == 0 && c == 0))))))))

-- The rest of isBlockedIpv4: anything but four parts is refused.
unfoldable pub is_blocked_octets : List ℕ → Bool
unfolding in_blocked_range
is_blocked_octets [] = true
is_blocked_octets (a ∷ []) = true
is_blocked_octets (a ∷ b ∷ []) = true
is_blocked_octets (a ∷ b ∷ c ∷ []) = true
is_blocked_octets (a ∷ b ∷ c ∷ d ∷ []) = in_blocked_range a b c
is_blocked_octets (a ∷ b ∷ c ∷ d ∷ e ∷ more) = true

-- The address as a number of 32 bits.
abbrev pub address_value : ℕ → ℕ → ℕ → ℕ → ℕ
address_value a b c d = ((a * 256 + b) * 256 + c) * 256 + d

-- A CIDR block: the addresses of `size` from `base` on.
pub record Block : Type 0 where
  pub base : ℕ
  pub size : ℕ

abbrev pub in_block : ℕ → Block → Bool
in_block v r = leb r.base v && ltb v (r.base + r.size)

abbrev pub in_some_block : ℕ → List Block → Bool
in_some_block v [] = false
in_some_block v (r ∷ rs) = in_block v r || in_some_block v rs

-- 10/8, 127/8, 0/8, 172.16/12, 192.168/16, 169.254/16, 100.64/10, 224/3 and 192.0.0/24.
abbrev pub blocked_blocks : List Block
blocked_blocks =
    record { base = 167772160; size = 16777216 }
    ∷ record { base = 2130706432; size = 16777216 }
    ∷ record { base = 0; size = 16777216 }
    ∷ record { base = 2886729728; size = 1048576 }
    ∷ record { base = 3232235520; size = 65536 }
    ∷ record { base = 2851995648; size = 65536 }
    ∷ record { base = 1681915904; size = 4194304 }
    ∷ record { base = 3758096384; size = 536870912 }
    ∷ record { base = 3221225472; size = 256 }
    ∷ []

or_false : (x : Bool) → x ≡ (x || false)
or_false true = refl
or_false false = refl

-- Each block of the list is the range of the same place in the code.
module _ (a b c d : ℕ) (ha : a < 256) (hb : b < 256) (hc : c < 256) (hd : d < 256) where
  abbrev v : ℕ
  v = address_value a b c d

  net_10 : in_block v (record { base = 167772160; size = 16777216 }) ≡ (a == 10)
  net_10 = ground arith

  net_127 : in_block v (record { base = 2130706432; size = 16777216 }) ≡ (a == 127)
  net_127 = ground arith

  net_0 : in_block v (record { base = 0; size = 16777216 }) ≡ (a == 0)
  net_0 = ground arith

  net_172 :
      in_block v (record { base = 2886729728; size = 1048576 }) ≡ (a == 172 && leb 16 b && leb b 31)
  net_172 = ground arith

  net_192_168 : in_block v (record { base = 3232235520; size = 65536 }) ≡ (a == 192 && b == 168)
  net_192_168 = ground arith

  net_169 : in_block v (record { base = 2851995648; size = 65536 }) ≡ (a == 169 && b == 254)
  net_169 = ground arith

  net_100 :
      in_block v (record { base = 1681915904; size = 4194304 })
      ≡ (a == 100 && leb 64 b && leb b 127)
  net_100 = ground arith

  net_224 : in_block v (record { base = 3758096384; size = 536870912 }) ≡ leb 224 a
  net_224 = ground arith

  net_192_0_0 :
      in_block v (record { base = 3221225472; size = 256 }) ≡ (a == 192 && b == 0 && c == 0)
  net_192_0_0 = ground arith

-- An IPv4 address of four octets is refused exactly when its 32-bit value lies in one of the blocks
-- 10/8, 127/8, 0/8, 172.16/12, 192.168/16, 169.254/16, 100.64/10, 224/3 and 192.0.0/24.
pub is_blocked_octets-eq-in_some_block :
    (a b c d : ℕ)
    → a < 256
    → b < 256
    → c < 256
    → d < 256
    → is_blocked_octets (a ∷ b ∷ c ∷ d ∷ []) ≡ in_some_block (address_value a b c d) blocked_blocks
unfolding is_blocked_octets
is_blocked_octets-eq-in_some_block a b c d ha hb hc hd =
    ap₂ ◌||◌ (sym (net_10 a b c d ha hb hc hd)) (
      ap₂ ◌||◌ (sym (net_127 a b c d ha hb hc hd)) (
        ap₂ ◌||◌ (sym (net_0 a b c d ha hb hc hd)) (
          ap₂ ◌||◌ (sym (net_172 a b c d ha hb hc hd)) (
            ap₂ ◌||◌ (sym (net_192_168 a b c d ha hb hc hd)) (
              ap₂ ◌||◌ (sym (net_169 a b c d ha hb hc hd)) (
                ap₂ ◌||◌ (sym (net_100 a b c d ha hb hc hd)) (
                  ap₂ ◌||◌ (sym (net_224 a b c d ha hb hc hd))
                    (sym (net_192_0_0 a b c d ha hb hc hd) ∙ or_false _))))))))
