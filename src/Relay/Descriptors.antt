-- ===== src/Relay/Descriptors.antt =====
-- The descriptors of a process behind `close` and `dup2` (project 1b).
use some_low_level_tasks.Prelude.{
  ℕ, ◌≡◌, ◌≢◌, refl, sym, ◌==◌, true, false, some, [], ◌∷◌, arith, inl, inr, ◌⊎◌, Bool-cases,
  Option-cases, ne→==,
}
use some_low_level_tasks.Relay.Pipes.{Port, Table, close_fd, port_of, dup2, same_port, holds}

pub holds-close_fd :
    (port : Port) (fd : ℕ) (table : Table)
    → holds port table ≡ false
    → holds port (close_fd fd table) ≡ false
unfolding holds close_fd
holds-close_fd port fd [] h = refl
holds-close_fd port fd ((n, q) ∷ table) h = ground (arith, holds-close_fd port fd table)

-- No descriptor but `fd` stands for the port.
abbrev pub OnlyAt : Port → ℕ → Table → Type 0
OnlyAt port fd [] = Unit {0}
OnlyAt port fd ((n, q) ∷ table) = ((same_port q port ≡ false) ⊎ (n ≡ fd)) × OnlyAt port fd table

pub holds-close_only :
    (port : Port) (fd : ℕ) (table : Table)
    → OnlyAt port fd table
    → holds port (close_fd fd table) ≡ false
unfolding holds close_fd
holds-close_only port fd [] o = refl
holds-close_only port fd ((n, q) ∷ table) o = ground (arith, holds-close_only port fd table o.1)

pub OnlyAt-close_fd :
    (port : Port) (fd m : ℕ) (table : Table)
    → OnlyAt port fd table
    → OnlyAt port fd (close_fd m table)
unfolding close_fd
OnlyAt-close_fd port fd m [] o = tt
OnlyAt-close_fd port fd m ((n, q) ∷ table) o = elim (Bool-cases (n == m)) [
  | inl same ↦ rw same (OnlyAt-close_fd port fd m table o.1)
  | inr other ↦ rw other (o.0, OnlyAt-close_fd port fd m table o.1)
]

pub OnlyAt-none :
    (port : Port) (fd : ℕ) (table : Table) → holds port table ≡ false → OnlyAt port fd table
unfolding holds
OnlyAt-none port fd [] h = tt
OnlyAt-none port fd ((n, q) ∷ table) h = elim (Bool-cases (same_port q port)) [
  | inl same ↦ absurd (ground arith)
  | inr other ↦ (inl other, OnlyAt-none port fd table (ground arith))
]

port_of-holds :
    (port q : Port) (fd : ℕ) (table : Table)
    → holds port table ≡ false
    → port_of fd table ≡ some q
    → same_port q port ≡ false
unfolding holds port_of
port_of-holds port q fd [] h e = cc
port_of-holds port q fd ((n, x) ∷ table) h e = ground (arith, port_of-holds port q fd table)

holds-cons :
    (port q : Port) (n : ℕ) (table : Table)
    → same_port q port ≡ false
    → holds port table ≡ false
    → holds port ((n, q) ∷ table) ≡ false
unfolding holds
holds-cons port q n table e h = rw (e, h) refl

pub holds-dup2 :
    (port : Port) (old new : ℕ) (table : Table)
    → holds port table ≡ false
    → holds port (dup2 old new table) ≡ false
unfolding dup2
holds-dup2 port old new table h = elim (Bool-cases (old == new)) [
  | inl same ↦ rw same h
  | inr other ↦ rw other (elim (Option-cases (port_of old table)) [
    | inl closed ↦ rw closed h
    | inr (q, e) ↦ rw e (with_port q (port_of-holds port q old table h e))
  ])
]
  where
    with_port :
        (q : Port) → same_port q port ≡ false → holds port ((new, q) ∷ close_fd new table) ≡ false
    with_port q e = holds-cons port q new (close_fd new table) e (holds-close_fd port new table h)

-- What the other descriptors stand for stays.
pub port_of-close_fd :
    (m fd : ℕ) (table : Table) → m ≢ fd → port_of m (close_fd fd table) ≡ port_of m table
unfolding port_of close_fd
port_of-close_fd m fd [] ne = refl
port_of-close_fd m fd ((n, q) ∷ table) ne = ground (arith, port_of-close_fd m fd table ne)

pub port_of-dup2 :
    (m old new : ℕ) (table : Table) → m ≢ new → port_of m (dup2 old new table) ≡ port_of m table
unfolding dup2 port_of
port_of-dup2 m old new table ne = elim (Bool-cases (old == new)) [
  | inl same ↦ rw same refl
  | inr other ↦ rw other (elim (Option-cases (port_of old table)) [
    | inl closed ↦ rw closed refl
    | inr (q, e) ↦ rw (e, ne→== new m (λ e. ne (sym e))) (port_of-close_fd m new table ne)
  ])
]

pub port_of-dup2_new :
    (old new : ℕ) (q : Port) (table : Table)
    → old ≢ new
    → port_of old table ≡ some q
    → port_of new (dup2 old new table) ≡ some q
unfolding dup2 port_of
port_of-dup2_new old new q table ne e =
    let self : (new == new) ≡ true = ground arith in rw (ne→== old new ne, e, self) refl
