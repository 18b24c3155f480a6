-- ===== src/Ext2/Csv/Groups.antt =====
-- The sizes of the groups that `print_group` of project 3a/CsvWriter.c prints.
use native.Mathlib.Nat.{div-add-mod, mod-lt, mod-eq_of_lt, div-le_self}
use some_low_level_tasks.Prelude.{
  ℕ, zero, suc, ◌+◌, ◌*◌, ◌-◌, ◌/◌, ◌%◌, ◌^◌, ◌≤◌, ◌<◌, ◌≡◌, refl, List, [], ◌∷◌, arith, ap, lt→ltb,
  ge→ltb, dec_lt,
}
use some_low_level_tasks.Prelude.Int.{ℤ, pos, ◌-ℤ◌, ◌+ℤ◌}
use some_low_level_tasks.Ext2.Image.{SuperBlock, num_groups}
use some_low_level_tasks.Ext2.Csv.{as_int, group_sizes}

unfoldable pub total : List ℤ → ℤ
total [] = pos 0
total (n ∷ ns) = n +ℤ total ns

as_int-pos : (n : ℕ) → n < 2 ^ 31 → as_int n ≡ pos n
as_int-pos n l = rw (lt→ltb n (2 ^ 31) l) refl

pos-sub : (n per : ℕ) → per ≤ n → pos n -ℤ pos per ≡ pos (n - per)
unfolding ◌-ℤ◌
pos-sub n per l = ground arith

pos-add : (m n : ℕ) → pos m +ℤ pos n ≡ pos (m + n)
unfolding ◌+ℤ◌
pos-add m n = ground arith

total-group_sizes :
    (per left n : ℕ)
    → n ≤ left * per
    → left * per < n + per
    → total (group_sizes (pos per) left (pos n)) ≡ pos n
unfolding total group_sizes
total-group_sizes per zero n all more = ground arith
total-group_sizes per (suc left) n all more = elim (dec_lt n per) [
  | yes less ↦
      rw (lt→ltb (n + 0) (per + 0) (omega (arith, less)), no_more left less more, pos-add n 0)
        (ap pos (omega arith))
  | no full ↦
      rw
        (
          ge→ltb (n + 0) (per + 0) (omega (arith, full)),
          pos-sub n per (omega (arith, full)),
          total-group_sizes per left (n - per) (omega (arith, all)) (omega (arith, more, full)),
          pos-add per (n - per),
        )
        (ap pos (omega (arith, full)))
]
  where
    no_more :
        (left : ℕ)
        → n < per
        → suc left * per < n + per
        → total (group_sizes (pos per) left (pos n -ℤ pos per)) ≡ pos 0
    no_more zero less more = refl
    no_more (suc left) less more = absurd (omega (arith, less, more))

num_groups-small :
    (s : SuperBlock)
    → 0 < s.s_blocks_count
    → s.s_blocks_count < 2 ^ 31
    → num_groups s ≡ 1 + (s.s_blocks_count - 1) / s.s_blocks_per_group
num_groups-small s some_block small =
    let n = s.s_blocks_count in
    let few : (n - 1) / s.s_blocks_per_group ≤ n - 1 = div-le_self (n - 1) s.s_blocks_per_group in
    let last : (n + (2 ^ 32 - 1)) % 2 ^ 32 ≡ n - 1 = wrapped n some_block small in
    rw
      (
        last,
        mod-eq_of_lt {n = 1 + (n - 1) / s.s_blocks_per_group} {m = 2 ^ 32}
            (omega (arith, few, small)),
        lt→ltb (1 + (n - 1) / s.s_blocks_per_group) (2 ^ 31) (omega (arith, few, small)),
      )
      refl
  where
    wrapped : (n : ℕ) → 0 < n → n < 2 ^ 31 → (n + (2 ^ 32 - 1)) % 2 ^ 32 ≡ n - 1
    wrapped n p q = omega arith

-- On an image with blocks, and with numbers below 2^31, the sizes of the groups that are printed add up
-- to the number of blocks.
pub total-blocks :
    (s : SuperBlock)
    → 0 < s.s_blocks_count
    → s.s_blocks_count < 2 ^ 31
    → 0 < s.s_blocks_per_group
    → s.s_blocks_per_group < 2 ^ 31
    → total (group_sizes (as_int s.s_blocks_per_group) (num_groups s) (as_int s.s_blocks_count))
      ≡ pos s.s_blocks_count
total-blocks s some_block small p small_group =
    let n = s.s_blocks_count in
    let per = s.s_blocks_per_group in
    rw (num_groups-small s some_block small, as_int-pos n small, as_int-pos per small_group)
      (total-group_sizes per (1 + (n - 1) / per) n
        (omega (arith, div-add-mod (n - 1) per, mod-lt (n - 1) p))
        (omega (arith, div-add-mod (n - 1) per, mod-lt (n - 1) p)))
