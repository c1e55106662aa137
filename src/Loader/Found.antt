-- ===== src/Loader/Found.antt =====
-- `find_boot_module_by_id` of Applications/Loader/main.cpp, against the entries of the list.
use dhos_reborn.Base.{
  ℕ, zero, suc, ◌+◌, ◌*◌, ◌<◌, ◌≡◌, ◌≢◌, refl, ◌⊎◌, inl, inr, true, false, ◌==◌, arith, Bool-cases,
  ap, ◌∙◌, sym,
}
use dhos_reborn.LibC.{Memory}
use dhos_reborn.Elf.{read_le}
use dhos_reborn.Loader.{BootModuleView, find_entry_by_id}

-- The id of the `i`-th entry of the list at `a`, and its size.
abbrev pub id_at : Memory → ℕ → ℕ → ℕ
id_at m a i = read_le 8 m (a + 40 * i)

abbrev pub size_at : Memory → ℕ → ℕ → ℕ
size_at m a i = read_le 8 m (a + 40 * i + 24)

-- The `i`-th entry is the first with the id, and the view is of it.
abbrev pub IsFirst : (n : ℕ) → Memory → ℕ → ℕ → BootModuleView → ℕ → Type 0
IsFirst n m a module_id r i =
    (i < n)
    × (id_at m a i ≡ module_id)
    × (r.id ≡ module_id)
    × (r.size ≡ size_at m a i)
    × ((j : ℕ) → j < i → id_at m a j ≢ module_id)

-- No entry has the id.
abbrev pub IsAbsent : (n : ℕ) → Memory → ℕ → ℕ → Type 0
IsAbsent n m a module_id = (j : ℕ) → j < n → id_at m a j ≢ module_id

first_entry :
    (m : Memory) (a module_id : ℕ) (n : ℕ)
    → read_le 8 m a ≢ module_id
    → IsAbsent n m (a + 40) module_id
    → IsAbsent (suc n) m a module_id
first_entry m a module_id n other rest zero l =
    let z : a + 40 * 0 ≡ a = omega arith in λ e. other (ap (read_le 8 m) (sym z) ∙ e)
first_entry m a module_id n other rest (suc j) l =
    let z : a + 40 * suc j ≡ a + 40 + 40 * j = omega arith in
    λ e. rest j (omega arith) (ap (read_le 8 m) (sym z) ∙ e)

-- The search of the loop: it finds the first entry with the id and reports its id and its size, or no
-- entry has the id.
pub find_entry_by_id_lem :
    (n : ℕ) (m : Memory) (a module_id : ℕ)
    → let r : BootModuleView = find_entry_by_id n m a module_id in
      ((r.found ≡ true) × ((i : ℕ) × IsFirst n m a module_id r i))
      ⊎ ((r.found ≡ false) × IsAbsent n m a module_id)
unfolding find_entry_by_id
find_entry_by_id_lem zero m a module_id = inr (refl, λ j l. absurd (omega arith))
find_entry_by_id_lem (suc n) m a module_id = elim (Bool-cases (read_le 8 m a == module_id)) [
  | inl e ↦
      let same : read_le 8 m a ≡ module_id = ground arith in
      let z : a + 40 * 0 ≡ a = omega arith in
      rw e (
        inl (
          refl,
          (
            0,
            (
              omega arith,
              ap (read_le 8 m) z ∙ same,
              same,
              ap (λ b. read_le 8 m (b + 24)) (sym z),
              λ j l. absurd (omega arith),
            ),
          ),
        ))
  | inr e ↦
      let other : read_le 8 m a ≢ module_id = ground arith in
      let r : BootModuleView = find_entry_by_id n m (a + 40) module_id in
      rw e (elim (find_entry_by_id_lem n m (a + 40) module_id) [
        | inl h ↦
            let (found, (i, (l, id, view, size, before))) = h in
            let z : a + 40 * suc i ≡ a + 40 + 40 * i = omega arith in
            inl (
              found,
              (
                suc i,
                (
                  omega arith,
                  ap (read_le 8 m) z ∙ id,
                  view,
                  size ∙ ap (λ b. read_le 8 m (b + 24)) (sym z),
                  first_entry m a module_id i other before,
                ),
              ),
            )
        | inr h ↦ inr (h.0, first_entry m a module_id n other h.1)
      ])
]
