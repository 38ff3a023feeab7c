-- ===== src/Redaction/Entropy.antt =====
-- crates/redaction/src/entropy.rs: Shannon entropy in bits per byte.
use hidden_steps.Prelude.{
  List, Text, [], if◌then◌else◌, keep, length, ltb, map, suc, zero, ℕ, ◌+◌, ◌==◌, ◌∷◌,
}
use hidden_steps.Float.{Float}

-- How often each byte value occurs: `counts[byte as usize] += 1`.
unfoldable pub count : ℕ → Text → ℕ
count b [] = 0
count b (c ∷ s) = if c == b then suc (count b s) else count b s

bytes_from : ℕ → ℕ → List ℕ
bytes_from zero b = []
bytes_from (suc n) b = b ∷ bytes_from n (b + 1)

unfoldable pub byte_counts : Text → List ℕ
unfolding count bytes_from
byte_counts s = map (λ b. count b s) (bytes_from 256 0)

module _ (fl : Float) where
  open fl use {F, of_ℕ, add, mul, div, neg, log2}

  sum_of : F → List F → F
  sum_of acc [] = acc
  sum_of acc (x ∷ xs) = sum_of (add acc x) xs

  term : F → ℕ → F
  term total c = let p = div (of_ℕ c) total in mul (neg p) (log2 p)

  unfoldable pub shannon_entropy : Text → F
  unfolding sum_of term byte_counts
  shannon_entropy [] = of_ℕ 0
  shannon_entropy (b ∷ s) =
      let total = of_ℕ (length (b ∷ s)) in
      sum_of (of_ℕ 0) (map (term total) (keep (λ c. ltb 0 c) (byte_counts (b ∷ s))))
