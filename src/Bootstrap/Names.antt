-- ===== src/Bootstrap/Names.antt =====
-- The last part of a path, as `find_boot_module` of Applications/Bootstrap/main.cpp finds it.
use mathlib.Core.Path.{subst}
use dhos_reborn.Base.{
  ℕ, zero, suc, ◌+◌, ◌-◌, ◌≤◌, ◌<◌, ◌≡◌, ◌≢◌, refl, sym, ap, ◌∙◌, ◌⊎◌, inl, inr, ◌==◌,
  if◌then◌else◌, arith, Bool-cases, ap,
}
use dhos_reborn.LibC.{Memory}
use dhos_reborn.Bootstrap.{Name, base_name_from, base_name}

-- `b` is what follows the last slash among the first `j` characters of `name`: it ends where `name`
-- ends, has no slash up to there, and is the whole name or stands behind a slash.
abbrev pub IsBase : Memory → Name → ℕ → Name → Type 0
IsBase m name j b =
    (name.start ≤ b.start)
    × (b.start ≤ name.start + j)
    × (b.start + b.len ≡ name.start + name.len)
    × ((a : ℕ) → b.start ≤ a → a < name.start + j → m a ≢ 0x2f)
    × ((b.start ≡ name.start) ⊎ ((1 ≤ b.start) × (m (b.start - 1) ≡ 0x2f)))

step :
    (m : Memory) (name : Name) (j : ℕ) (b : Name)
    → j < name.len
    → IsBase m name j b
    → IsBase m name (j + 1) (
        if m (name.start + j) == 0x2f
        then record { start = name.start + j + 1; len = name.len - j - 1 }
        else b)
step m name j b l (low, high, ends, clean, behind) =
    elim (Bool-cases (m (name.start + j) == 0x2f)) [
      | inl e ↦
          let slash : m (name.start + j) ≡ 0x2f = ground arith in
          let back : name.start + j + 1 - 1 ≡ name.start + j = omega arith in
          rw e (
            omega arith,
            omega arith,
            omega arith,
            λ a x y. absurd (omega arith),
            inr (omega arith, ap m back ∙ slash),
          )
      | inr e ↦
          let other : m (name.start + j) ≢ 0x2f = ground arith in
          rw e (
            low,
            omega arith,
            ends,
            (λ a x y. elim (Bool-cases (a == name.start + j)) [
              | inl s ↦ let q : a ≡ name.start + j = ground arith in λ h. other (ap m (sym q) ∙ h)
              | inr s ↦ clean a x (ground arith)
            ]),
            behind,
          )
    ]

base_name_from-IsBase :
    (n : ℕ) (m : Memory) (name : Name) (j : ℕ) (b : Name)
    → j + n ≡ name.len
    → IsBase m name j b
    → IsBase m name name.len (base_name_from n m name j b)
unfolding base_name_from
base_name_from-IsBase zero m name j b e base =
    let z : j ≡ name.len = omega arith in subst (λ k. IsBase m name k b) z base
base_name_from-IsBase (suc n) m name j b e base =
    base_name_from-IsBase n m name (j + 1)
      (if m (name.start + j) == 0x2f
        then record { start = name.start + j + 1; len = name.len - j - 1 }
        else b)
      (omega arith) (step m name j b (omega arith) base)

-- The base name of a name ends where the name ends, has no slash in it, and is the whole name or
-- stands right behind a slash of it.
pub base_name_lem :
    (m : Memory) (name : Name)
    → let b : Name = base_name m name in
      (name.start ≤ b.start)
      × (b.start + b.len ≡ name.start + name.len)
      × ((a : ℕ) → b.start ≤ a → a < b.start + b.len → m a ≢ 0x2f)
      × ((b.start ≡ name.start) ⊎ ((1 ≤ b.start) × (m (b.start - 1) ≡ 0x2f)))
unfolding base_name
base_name_lem m name =
    let (low, high, ends, clean, behind) =
      base_name_from-IsBase name.len m name 0 name (omega arith)
        (omega arith, omega arith, refl, (λ a x y. absurd (omega arith)), inl refl) in
    (low, ends, (λ a x y. clean a x (omega arith)), behind)
