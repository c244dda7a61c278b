-- ===== src/Files/Tests.antt =====
-- A write that fails in the middle, as does the removal of its temporary file.
use xnode_agent.Prelude.{
  codes, [], ◌∷◌, false, inl, arith, refl, lookup, dec_eq, is_yes, Str-discrete, ℕ_discrete,
}
use xnode_agent.Files.{Disk, write_fails, atomic_write, IsWhole, atomic_write-IsWhole}

abbrev disk : Disk
disk = (codes "a", codes "old") ∷ []

atomic_write-IsWhole_example :
    IsWhole
      (codes "a")
      (codes "new")
      disk
      (atomic_write false (write_fails (codes "n")) (codes "t") (codes "a") (codes "new") disk)
      (codes "a")
unfolding lookup dec_eq is_yes Str-discrete ℕ_discrete
atomic_write-IsWhole_example =
    atomic_write-IsWhole (codes "t") (codes "a") (codes "new") disk refl false
      (write_fails (codes "n")) (codes "a") (inl (λ e. ground (arith, e)))
