-- ===== src/Ext2/Inode/Laws.antt =====
-- The inodes that `read_inode` of project 3a/ImgReader.c finds, and their numbers.
use some_low_level_tasks.Prelude.{
  ℕ, zero, suc, ◌+◌, ◌≤◌, ◌<◌, ◌≡◌, refl, true, ◌⊎◌, inl, inr, List, [], ◌∷◌, ◌++◌, arith,
  Bool-cases,
}
use some_low_level_tasks.Ext2.Image.{Disk, SuperBlock, num_groups}
use some_low_level_tasks.Ext2.Inode.{
  Inode, inode_at, position, is_used, scan_table, scan_tables, read_inode,
}

abbrev pub Listed : ℕ × Inode → List (ℕ × Inode) → Type 0
Listed e [] = ⊥
Listed e (f ∷ es) = (e ≡ f) ⊎ Listed e es

Listed-append_left : (e : ℕ × Inode) (xs ys : List (ℕ × Inode)) → Listed e xs → Listed e (xs ++ ys)
Listed-append_left e [] ys i = absurd i
Listed-append_left e (x ∷ xs) ys (inl same) = inl same
Listed-append_left e (x ∷ xs) ys (inr i) = inr (Listed-append_left e xs ys i)

Listed-append_right : (e : ℕ × Inode) (xs ys : List (ℕ × Inode)) → Listed e ys → Listed e (xs ++ ys)
Listed-append_right e [] ys i = i
Listed-append_right e (x ∷ xs) ys i = inr (Listed-append_right e xs ys i)

Listed-cases :
    (e : ℕ × Inode) (xs ys : List (ℕ × Inode)) → Listed e (xs ++ ys) → Listed e xs ⊎ Listed e ys
Listed-cases e [] ys i = inr i
Listed-cases e (x ∷ xs) ys (inl same) = inl (inl same)
Listed-cases e (x ∷ xs) ys (inr i) = elim (Listed-cases e xs ys i) [
  | inl left ↦ inl (inr left)
  | inr right ↦ inr right
]

-- An entry is that of an inode in use, at index `j` of group `i`, under the number `j + 1`.
pub record IsUsedInode (disk : Disk) (s : SuperBlock) (groups i : ℕ) (e : ℕ × Inode) : Type 0 where
  pub group_index : ℕ
  pub index : ℕ
  pub from : i ≤ group_index
  pub below : group_index < groups
  pub in_table : index < s.s_inodes_per_group
  pub used : is_used disk s group_index index ≡ true
  pub entry : e ≡ (index + 1, inode_at disk (position disk group_index index))

scan_table-IsUsedInode :
    (disk : Disk) (s : SuperBlock) (i left j : ℕ) (e : ℕ × Inode)
    → j + left ≤ s.s_inodes_per_group
    → Listed e (scan_table disk s i left j)
    → IsUsedInode disk s (i + 1) i e
unfolding scan_table
scan_table-IsUsedInode disk s i zero j e h l = absurd l
scan_table-IsUsedInode disk s i (suc left) j e h l = elim (Bool-cases (is_used disk s i j)) [
  | inl used ↦ elim (rw used at l) [
    | inl same ↦ record {
      group_index = i;
      index = j;
      from = omega arith;
      below = omega arith;
      in_table = omega arith;
      used = used;
      entry = same;
    }
    | inr later ↦ scan_table-IsUsedInode disk s i left (j + 1) e (omega arith) later
  ]
  | inr unused ↦ scan_table-IsUsedInode disk s i left (j + 1) e (omega arith) (rw unused at l)
]

scan_tables-IsUsedInode :
    (disk : Disk) (s : SuperBlock) (left i : ℕ) (e : ℕ × Inode)
    → Listed e (scan_tables disk s left i)
    → IsUsedInode disk s (i + left) i e
unfolding scan_tables
scan_tables-IsUsedInode disk s zero i e l = absurd l
scan_tables-IsUsedInode disk s (suc left) i e l =
    elim (Listed-cases e (scan_table disk s i s.s_inodes_per_group 0)
      (scan_tables disk s left (i + 1)) l) [
        | inl here ↦
            let u = scan_table-IsUsedInode disk s i s.s_inodes_per_group 0 e (omega arith) here in
            record {
              group_index = u.group_index;
              index = u.index;
              from = u.from;
              below = omega (arith, u.below);
              in_table = u.in_table;
              used = u.used;
              entry = u.entry;
            }
        | inr later ↦
            let u = scan_tables-IsUsedInode disk s left (i + 1) e later in
            record {
              group_index = u.group_index;
              index = u.index;
              from = omega (arith, u.from);
              below = omega (arith, u.below);
              in_table = u.in_table;
              used = u.used;
              entry = u.entry;
            }
      ]

scan_table-Listed :
    (disk : Disk) (s : SuperBlock) (i left j k at : ℕ)
    → k < left
    → at ≡ j + k
    → is_used disk s i at ≡ true
    → Listed (at + 1, inode_at disk (position disk i at)) (scan_table disk s i left j)
unfolding scan_table
scan_table-Listed disk s i zero j k at h e used = absurd (omega arith)
scan_table-Listed disk s i (suc left) j zero at h e used =
    let same : at ≡ j = omega arith in rw (← same, used) (inl refl)
scan_table-Listed disk s i (suc left) j (suc k) at h e used =
    Listed-append_right _ _ (scan_table disk s i left (j + 1))
      (scan_table-Listed disk s i left (j + 1) k at (omega arith) (omega arith) used)

scan_tables-Listed :
    (disk : Disk) (s : SuperBlock) (left i k g j : ℕ)
    → k < left
    → g ≡ i + k
    → j < s.s_inodes_per_group
    → is_used disk s g j ≡ true
    → Listed (j + 1, inode_at disk (position disk g j)) (scan_tables disk s left i)
unfolding scan_tables
scan_tables-Listed disk s zero i k g j h e in_table used = absurd (omega arith)
scan_tables-Listed disk s (suc left) i zero g j h e in_table used =
    let same : g ≡ i = omega arith in
    rw (← same) (
      Listed-append_left _ (scan_table disk s g s.s_inodes_per_group 0) _
        (scan_table-Listed disk s g s.s_inodes_per_group 0 j j in_table (omega arith) used))
scan_tables-Listed disk s (suc left) i (suc k) g j h e in_table used =
    Listed-append_right _ _ (scan_tables disk s left (i + 1))
      (scan_tables-Listed disk s left (i + 1) k g j (omega arith) (omega arith) in_table used)

-- Whatever `read_inode` lists is an inode in use: it has a mode and a link, its index in all groups is
-- below `s_inodes_count`, and its number is its index in its own group plus 1.
pub read_inode-IsUsedInode :
    (disk : Disk) (s : SuperBlock) (e : ℕ × Inode)
    → Listed e (read_inode disk s)
    → IsUsedInode disk s (num_groups s) 0 e
unfolding read_inode
read_inode-IsUsedInode disk s e l =
    let u = scan_tables-IsUsedInode disk s (num_groups s) 0 e l in
    record {
      group_index = u.group_index;
      index = u.index;
      from = u.from;
      below = omega (arith, u.below);
      in_table = u.in_table;
      used = u.used;
      entry = u.entry;
    }

pub read_inode-Listed :
    (disk : Disk) (s : SuperBlock) (g j : ℕ)
    → g < num_groups s
    → j < s.s_inodes_per_group
    → is_used disk s g j ≡ true
    → Listed (j + 1, inode_at disk (position disk g j)) (read_inode disk s)
unfolding read_inode
read_inode-Listed disk s g j h in_table used =
    scan_tables-Listed disk s (num_groups s) 0 g g j h (omega arith) in_table used
