-- ===== src/Fence/Scrub.antt =====
-- src/fence.ts: what the replacement of fence-shaped text leaves.
use vellar_facilitator.Base.{
  ℕ, zero, suc, ◌≤◌, ◌<◌, ◌≡◌, refl, Bool, false, ◌||◌, Option, none, some, [], ◌∷◌, ◌++◌, arith,
  leb, ◌==◌, length, if◌then◌else◌,
}
use vellar_facilitator.Base.Table.{Text}
use vellar_facilitator.Catalog.Sanitize.{take}
use vellar_facilitator.Fence.{
  redacted, four_hyphens, starts_with, match_rule, match_marker, fence_shaped, or_match, scrub_from,
  scrub, clamp, Kind, metadata, body, sanitize_untrusted,
}

-- `s.includes(p)`.
unfoldable pub contains : Text → Text → Bool
contains p [] = starts_with p []
contains p (c ∷ cs) = starts_with p (c ∷ cs) || contains p cs

-- The hyphens at the start of a text.
abbrev pub leading : Text → ℕ
leading [] = 0
leading (c ∷ cs) = if c == b'-' then suc (leading cs) else 0

pub starts_with-four : (s : Text) → starts_with four_hyphens s ≡ leb 4 (leading s)
unfolding starts_with
starts_with-four [] = refl
starts_with-four (a ∷ []) = ground arith
starts_with-four (a ∷ b ∷ []) = ground arith
starts_with-four (a ∷ b ∷ c ∷ []) = ground arith
starts_with-four (a ∷ b ∷ c ∷ d ∷ s) = ground arith

or_match-none : (x y : Option Text) → or_match x y ≡ none → y ≡ none
or_match-none none y e = e
or_match-none (some r) y e = cc

unmatched-leading : (s : Text) → fence_shaped s ≡ none → leading s < 4
unfolding fence_shaped match_rule
unmatched-leading s e =
    ground (arith, or_match-none (match_marker s) (match_rule s) e, starts_with-four s)

-- One step of the replacement.
abbrev pub scrubbed : ℕ → ℕ → Text → Option Text → Text
scrubbed n c cs none = c ∷ scrub_from n cs
scrubbed n c cs (some rest) = redacted ++ scrub_from n rest

scrubbed-leading :
    (n c : ℕ) (cs : Text) (m : Option Text)
    → leading (scrub_from n cs) ≤ leading cs
    → leading (scrubbed n c cs m) ≤ leading (c ∷ cs)
scrubbed-leading n c cs none rest = ground (arith, rest)
scrubbed-leading n c cs (some r) rest = omega arith

scrub-leading : (n : ℕ) (s : Text) → leading (scrub_from n s) ≤ leading s
unfolding scrub_from
scrub-leading zero s = omega arith
scrub-leading (suc n) [] = omega arith
scrub-leading (suc n) (c ∷ cs) =
    scrubbed-leading n c cs (fence_shaped (c ∷ cs)) (scrub-leading n cs)

scrubbed-clean :
    (n c : ℕ) (cs : Text) (m : Option Text)
    → fence_shaped (c ∷ cs) ≡ m
    → ((s : Text) → contains four_hyphens (scrub_from n s) ≡ false)
    → contains four_hyphens (scrubbed n c cs m) ≡ false
unfolding contains starts_with
scrubbed-clean n c cs none e rest = ground (
  arith,
  rest cs,
  starts_with-four (c ∷ scrub_from n cs),
  scrub-leading n cs,
  unmatched-leading (c ∷ cs) e,
)
scrubbed-clean n c cs (some r) e rest = rest r

scrub_from-clean : (n : ℕ) (s : Text) → contains four_hyphens (scrub_from n s) ≡ false
unfolding scrub_from contains starts_with
scrub_from-clean zero s = refl
scrub_from-clean (suc n) [] = refl
scrub_from-clean (suc n) (c ∷ cs) =
    scrubbed-clean n c cs (fence_shaped (c ∷ cs)) refl (scrub_from-clean n)

take-leading : (n : ℕ) (s : Text) → leading (take n s) ≤ leading s
unfolding take
take-leading zero s = omega arith
take-leading (suc n) [] = omega arith
take-leading (suc n) (c ∷ cs) = ground (arith, take-leading n cs)

take-clean :
    (n : ℕ) (s : Text) → contains four_hyphens s ≡ false → contains four_hyphens (take n s) ≡ false
unfolding take contains starts_with
take-clean zero s h = refl
take-clean (suc n) [] h = h
take-clean (suc n) (c ∷ cs) h = ground (
  arith,
  take-clean n cs,
  starts_with-four (c ∷ cs),
  starts_with-four (c ∷ take n cs),
  take-leading n cs,
)

clamp-clean :
    (kind : Kind) (s : Text)
    → contains four_hyphens s ≡ false
    → contains four_hyphens (clamp kind s) ≡ false
clamp-clean metadata s h = take-clean 256 s h
clamp-clean body s h = h

-- Untrusted text that was made safe has no four hyphens in a row, whatever the seller wrote and
-- whatever `kind` is asked for: no marker of this format stands in it.
pub sanitize_untrusted-unfenced :
    (strip : Text → Text) (kind : Kind) (value : Text)
    → contains four_hyphens (sanitize_untrusted strip kind value) ≡ false
unfolding sanitize_untrusted scrub
sanitize_untrusted-unfenced strip kind value =
    clamp-clean kind (scrub (strip value)) (scrub_from-clean (length (strip value)) (strip value))
