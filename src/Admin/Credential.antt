-- ===== src/Admin/Credential.antt =====
-- src/admin.ts: timingSafeEqual against equality, and what an admin credential is.
use vellar_facilitator.Base.{
  ℕ, zero, suc, ◌/◌, ◌%◌, ◌≤◌, ◌<◌, ◌≡◌, refl, sym, ◌∙◌, ap, subst, ◌⊎◌, inl, inr, true, false, not,
  ◌&&◌, Option, none, some, [], ◌∷◌, arith, ltb, length, ◌==◌, if◌then◌else◌, Bool-cases, ◌↔◌,
}
use vellar_facilitator.Base.Table.{Text}
use vellar_facilitator.Admin.{
  diff_from, timing_safe_equal, header_matches, cookie_matches, has_valid_admin_credential,
}
use Prim.Native.Nat.{bit_or, bit_xor, digits, max, bit_or-bitwise, bit_xor-bitwise, differ}

-- The digits that `bit_or` and `bit_xor` stand for, with more fuel than digits.
or_digits-eq-zero : (n a b : ℕ) → a ≤ n → digits (λ c. c) max n a b ≡ 0 → (a ≡ 0) × (b ≡ 0)
or_digits-eq-zero zero a b le h = omega (arith, h, le)
or_digits-eq-zero (suc n) zero b le h = (refl, h)
or_digits-eq-zero (suc n) (suc a) b le h =
    let halves = or_digits-eq-zero n (suc a / 2) (b / 2) (omega arith) (omega (arith, h)) in
    omega (arith, h, halves)

differ-eq-zero : (x y : ℕ) → differ x y ≡ 0 → x ≡ y
differ-eq-zero zero y h = sym h
differ-eq-zero (suc x) zero h = h
differ-eq-zero (suc x) (suc y) h = ap (λ n. suc n) (differ-eq-zero x y h)

differ_self : (x : ℕ) → differ x x ≡ 0
differ_self zero = refl
differ_self (suc x) = differ_self x

xor_digits-eq-zero : (n a b : ℕ) → a ≤ n → digits (λ c. c) differ n a b ≡ 0 → a ≡ b
xor_digits-eq-zero zero a b le h = omega (arith, h, le)
xor_digits-eq-zero (suc n) zero b le h = sym h
xor_digits-eq-zero (suc n) (suc a) b le h =
    let last = differ-eq-zero (suc a % 2) (b % 2) (omega (arith, h)) in
    let halves = xor_digits-eq-zero n (suc a / 2) (b / 2) (omega arith) (omega (arith, h)) in
    omega (arith, last, halves)

xor_digits_self : (n a : ℕ) → a ≤ n → digits (λ c. c) differ n a a ≡ 0
xor_digits_self zero zero le = refl
xor_digits_self zero (suc a) le = absurd (omega (arith, le))
xor_digits_self (suc n) zero le = refl
xor_digits_self (suc n) (suc a) le =
    omega (arith, xor_digits_self n (suc a / 2) (omega arith), differ_self (suc a % 2))

bit_or-eq-zero : (a b : ℕ) → bit_or a b ≡ 0 → (a ≡ 0) × (b ≡ 0)
bit_or-eq-zero a b h = or_digits-eq-zero a a b (omega arith) (sym (bit_or-bitwise a b) ∙ h)

bit_xor-eq-zero : (a b : ℕ) → bit_xor a b ≡ 0 → a ≡ b
bit_xor-eq-zero a b h = xor_digits-eq-zero a a b (omega arith) (sym (bit_xor-bitwise a b) ∙ h)

bit_xor_self : (a : ℕ) → bit_xor a a ≡ 0
bit_xor_self a = bit_xor-bitwise a a ∙ xor_digits_self a a (omega arith)

-- The loop ends at 0 only if it started there and met no difference.
diff_from-eq-zero :
    (diff : ℕ) (a b : Text) → length a ≡ length b → diff_from diff a b ≡ 0 → (diff ≡ 0) × (a ≡ b)
unfolding diff_from
diff_from-eq-zero diff [] [] e h = (h, refl)
diff_from-eq-zero diff [] (y ∷ b) e h = absurd (omega (arith, e))
diff_from-eq-zero diff (x ∷ a) [] e h = absurd (omega (arith, e))
diff_from-eq-zero diff (x ∷ a) (y ∷ b) e h =
    let rest = diff_from-eq-zero (bit_or diff (bit_xor x y)) a b (omega (arith, e)) h in
    let parts = bit_or-eq-zero diff (bit_xor x y) rest.0 in
    (parts.0, cc (bit_xor-eq-zero x y parts.1, rest.1))

diff_from_self : (a : Text) → diff_from 0 a a ≡ 0
unfolding diff_from
diff_from_self [] = refl
diff_from_self (x ∷ a) = rw (bit_xor_self x) (diff_from_self a)

timing_safe_equal_iff : (a b : Text) → (timing_safe_equal a b ≡ true) ↔ (a ≡ b)
unfolding timing_safe_equal
timing_safe_equal_iff a b = (λ h. same h, λ e. subst (λ t. Accepts a t) e (reflexive a))
  where
    Accepts : Text → Text → Type 0
    Accepts s t = (if not (length s == length t) then false else diff_from 0 s t == 0) ≡ true

    reflexive : (s : Text) → Accepts s s
    reflexive s = ground (arith, diff_from_self s)

    same : Accepts a b → a ≡ b
    same h = (diff_from-eq-zero 0 a b (ground (arith, h)) (ground (arith, h))).1

header_iff :
    (secret : Text) (header : Option Text)
    → (header_matches secret header ≡ true) ↔ ((header ≡ some secret) × (0 < length secret))
unfolding header_matches
header_iff secret none = (λ h. cc, λ h. cc)
header_iff secret (some t) =
    let (forward, backward) = timing_safe_equal_iff t secret in
    (
      λ h. (ap some (forward (ground (arith, h))), split t h),
      λ h. ground (arith, h, backward (some_eq t secret h.0)),
    )
  where
    some_eq : (s u : Text) → some s ≡ some u → s ≡ u
    some_eq s u e = cc

    split : (u : Text) → (ltb 0 (length u) && timing_safe_equal u secret) ≡ true → 0 < length secret
    split u h = ground (arith, h, (timing_safe_equal_iff u secret).0)

cookie_iff :
    (secret : Text) (cookie : Option Text)
    → (cookie_matches secret cookie ≡ true) ↔ (cookie ≡ some secret)
unfolding cookie_matches
cookie_iff secret none = (λ h. cc, λ h. cc)
cookie_iff secret (some t) =
    let (forward, backward) = timing_safe_equal_iff t secret in
    (λ h. ap some (forward h), λ h. backward (some_eq t h))
  where
    some_eq : (s : Text) → some s ≡ some secret → s ≡ secret
    some_eq s e = cc

-- A request has an admin credential exactly if its header is the secret and the secret is not empty, or
-- its signed cookie is the secret: the comparison in constant time, which looks at every code unit and
-- collects the differences bit by bit, is equality.
pub has_valid_admin_credential_iff :
    (secret : Text) (header cookie : Option Text)
    → (has_valid_admin_credential secret header cookie ≡ true)
      ↔ (((header ≡ some secret) × (0 < length secret)) ⊎ (cookie ≡ some secret))
unfolding has_valid_admin_credential
has_valid_admin_credential_iff secret header cookie =
    let (header_to, to_header) = header_iff secret header in
    let (cookie_to, to_cookie) = cookie_iff secret cookie in
    (
      λ h. elim (Bool-cases (header_matches secret header)) [
        | inl e ↦ inl (header_to e)
        | inr e ↦ inr (cookie_to (ground (arith, h, e)))
      ],
      λ h. elim h [ inl k ↦ rw (to_header k) refl | inr k ↦ ground (arith, to_cookie k) ],
    )
