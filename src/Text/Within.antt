-- ===== src/Text/Within.antt =====
-- Bytes that are among others, in their order.
use some_low_level_tasks.Prelude.{ℕ, [], ◌∷◌, ◌++◌}
use some_low_level_tasks.Text.{Bytes}

-- The first bytes are among the second, in their order.
pub data Within : Bytes → Bytes → Type 0 where
  none_left : Within [] []
  keep : {b : ℕ} {xs ys : Bytes} → Within xs ys → Within (b ∷ xs) (b ∷ ys)
  skip : {b : ℕ} {xs ys : Bytes} → Within xs ys → Within xs (b ∷ ys)

pub Within-nil : (ys : Bytes) → Within [] ys
Within-nil [] = none_left
Within-nil (b ∷ ys) = skip (Within-nil ys)

pub Within-more : {xs ys : Bytes} (zs : Bytes) → Within xs ys → Within xs (ys ++ zs)
Within-more zs none_left = Within-nil zs
Within-more zs (keep w) = keep (Within-more zs w)
Within-more zs (skip w) = skip (Within-more zs w)

pub Within-same : (zs : Bytes) → Within zs zs
Within-same [] = none_left
Within-same (b ∷ zs) = keep (Within-same zs)

pub Within-both : {xs ys : Bytes} (zs : Bytes) → Within xs ys → Within (xs ++ zs) (ys ++ zs)
Within-both zs none_left = Within-same zs
Within-both zs (keep w) = keep (Within-both zs w)
Within-both zs (skip w) = skip (Within-both zs w)
