-- ===== src/Fence/Progress.antt =====
-- src/fence.ts: a match of FENCE_SHAPED is not empty, so that the replacement goes on.
use vellar_facilitator.Base.{
  ℕ, zero, suc, ◌+◌, ◌≤◌, ◌<◌, ◌≡◌, refl, ◌∙◌, ap, Option, none, some, [], ◌∷◌, ◌++◌, arith, length,
}
use vellar_facilitator.Base.Text.{codes}
use vellar_facilitator.Base.Table.{Text}
use vellar_facilitator.Fence.{
  redacted, max_gap, starts_with, drop_hyphens, match_rule, match_closing, match_word, match_gap,
  match_run, match_named, match_marker, fence_shaped, then_match, or_match, scrub_from, scrub,
}
use vellar_facilitator.Fence.Scrub.{scrubbed}

-- A matcher leaves no more than it is given.
abbrev Shrinks : (Text → Option Text) → Type 0
Shrinks next = (s r : Text) → next s ≡ some r → length r ≤ length s

drop_hyphens-le : (s : Text) → length (drop_hyphens s) ≤ length s
unfolding drop_hyphens
drop_hyphens-le [] = omega arith
drop_hyphens-le (c ∷ cs) = ground (arith, drop_hyphens-le cs)

match_rule-lt : (s r : Text) → match_rule s ≡ some r → length r < length s
unfolding match_rule starts_with drop_hyphens
match_rule-lt [] r e = cc
match_rule-lt (c ∷ cs) r e = ground (arith, drop_hyphens-le cs)

match_closing-Shrinks : Shrinks match_closing
unfolding match_closing
match_closing-Shrinks s r e = ground (arith, drop_hyphens-le s)

match_word-length : (w s r : Text) → match_word w s ≡ some r → length r + length w ≡ length s
unfolding match_word
match_word-length [] s r e = ground arith
match_word-length (c ∷ w) [] r e = cc
match_word-length (c ∷ w) (d ∷ s) r e = ground (arith, match_word-length w s r)

then_match-Shrinks :
    (next : Text → Option Text)
    → Shrinks next
    → (m : Option Text) (n : ℕ) → ((r : Text) → m ≡ some r → length r ≤ n)
    → (r : Text) → then_match next m ≡ some r
    → length r ≤ n
then_match-Shrinks next h none n b r e = cc
then_match-Shrinks next h (some rest) n b r e = omega (arith, h rest r e, b rest refl)

match_gap-Shrinks : (n : ℕ) (next : Text → Option Text) → Shrinks next → Shrinks (match_gap n next)
unfolding match_gap
match_gap-Shrinks zero next h s r e = h s r e
match_gap-Shrinks (suc n) next h [] r e = h [] r e
match_gap-Shrinks (suc n) next h (c ∷ cs) r e =
    grind (arith, h (c ∷ cs) r, match_gap-Shrinks n next h cs r)

match_run-Shrinks : (next : Text → Option Text) → Shrinks next → Shrinks (match_run next)
unfolding match_run
match_run-Shrinks next h [] r e = h [] r e
match_run-Shrinks next h (c ∷ cs) r e = grind (arith, h (c ∷ cs) r, match_run-Shrinks next h cs r)

match_named-Shrinks : Shrinks match_named
unfolding match_named
match_named-Shrinks =
    match_gap-Shrinks max_gap
      (λ rest. then_match (match_gap max_gap match_closing) (match_word (codes "UNTRUSTED") rest))
      (λ s.
        then_match-Shrinks (match_gap max_gap match_closing)
          (match_gap-Shrinks max_gap match_closing match_closing-Shrinks)
          (match_word (codes "UNTRUSTED") s) (length s)
          (λ r e. omega (arith, match_word-length (codes "UNTRUSTED") s r e)))

match_marker-lt : (s r : Text) → match_marker s ≡ some r → suc (length r) ≤ length s
unfolding match_marker
match_marker-lt s r e = marker s (match_word (codes "--") s) refl r e
  where
    marker :
        (s : Text) (m : Option Text)
        → match_word (codes "--") s ≡ m
        → (r : Text) → then_match (match_run match_named) m ≡ some r
        → suc (length r) ≤ length s
    marker s none h r e = cc
    marker s (some rest) h r e = omega (
      arith,
      match_word-length (codes "--") s rest h,
      match_run-Shrinks match_named match_named-Shrinks rest r e,
    )

or_match-lt :
    (x y : Option Text) (n : ℕ)
    → ((r : Text) → x ≡ some r → length r < n)
    → ((r : Text) → y ≡ some r → length r < n)
    → (r : Text) → or_match x y ≡ some r
    → length r < n
or_match-lt none y n h k r e = k r e
or_match-lt (some q) y n h k r e = h r e

pub fence_shaped-lt : (s r : Text) → fence_shaped s ≡ some r → length r < length s
unfolding fence_shaped
fence_shaped-lt s =
    or_match-lt (match_marker s) (match_rule s) (length s)
      (λ r e. omega (arith, match_marker-lt s r e)) (match_rule-lt s)

scrubbed-fuel :
    (n c : ℕ) (cs : Text) (x : Option Text)
    → fence_shaped (c ∷ cs) ≡ x
    → length cs ≤ n
    → ((s : Text) → length s ≤ n → scrub_from (suc n) s ≡ scrub_from n s)
    → scrubbed (suc n) c cs x ≡ scrubbed n c cs x
scrubbed-fuel n c cs none e h rest = ap (◌∷◌ c) (rest cs h)
scrubbed-fuel n c cs (some r) e h rest =
    ap (◌++◌ redacted) (rest r (omega (arith, h, fence_shaped-lt (c ∷ cs) r e)))

scrub_from-suc : (n : ℕ) (s : Text) → length s ≤ n → scrub_from (suc n) s ≡ scrub_from n s
unfolding scrub_from
scrub_from-suc zero [] h = refl
scrub_from-suc zero (c ∷ cs) h = absurd (omega (arith, h))
scrub_from-suc (suc n) [] h = refl
scrub_from-suc (suc n) (c ∷ cs) h =
    scrubbed-fuel n c cs (fence_shaped (c ∷ cs)) refl (omega (arith, h)) (scrub_from-suc n)

-- The replacement reaches the end of every text: however far it may go on beyond the length of the
-- text, the result is the same.
pub scrub-terminates : (n : ℕ) (s : Text) → scrub_from (n + length s) s ≡ scrub s
unfolding scrub
scrub-terminates zero s = ap (λ k. scrub_from k s) (omega arith)
scrub-terminates (suc n) s =
    ap (λ k. scrub_from k s) (omega arith)
    ∙ scrub_from-suc (n + length s) s (omega arith)
    ∙ scrub-terminates n s
