-- ===== src/Elf/Runs.antt =====
-- The runs of pages with the same flags that Applications/Loader/main.cpp maps at once. The pages are
-- given by a function: whether a page belongs to the image, and its flags.
use dhos_reborn.Base.{
  ℕ, zero, suc, ◌+◌, ◌-◌, ◌≤◌, ◌<◌, ◌≡◌, refl, inl, inr, Bool, true, false, not, ◌&&◌, List, [],
  ◌∷◌, leb, ltb, ◌==◌, if◌then◌else◌, arith, Bool-cases,
}
use dhos_reborn.UserSpace.{MemoryMapFlags}

abbrev pub Pages : Type 0
Pages = ℕ → Bool × MemoryMapFlags

abbrev same_bool : Bool → Bool → Bool
same_bool true b = b
same_bool false b = not b

unfoldable pub same_flags : MemoryMapFlags → MemoryMapFlags → Bool
same_flags a b = same_bool a.writable b.writable && same_bool a.no_execute b.no_execute

-- The `do` loop from page `i` on, with `n` pages left: the first page that does not belong to the run.
unfoldable pub run_end : ℕ → Pages → MemoryMapFlags → ℕ → ℕ
run_end zero f flags i = i
run_end (suc n) f flags i =
    let rest = run_end n f flags (i + 1) in if (f i).0 && same_flags (f i).1 flags then rest else i

pub record Run : Type 0 where
  pub start : ℕ
  pub stop : ℕ
  pub flags : MemoryMapFlags

-- The run that begins at page `i`.
abbrev pub run_at : Pages → ℕ → ℕ → Run
run_at f page_count i = record {
  start = i;
  stop = run_end (page_count - (i + 1)) f (f i).1 (i + 1);
  flags = (f i).1;
}

-- The runs from page `i` on, with fuel.
unfoldable pub runs : ℕ → Pages → ℕ → ℕ → List Run
runs zero f page_count i = []
runs (suc n) f page_count i =
    let skipped = runs n f page_count (i + 1) in
    let run : Run = run_at f page_count i in
    let rest = runs n f page_count run.stop in
    if not (ltb i page_count) then [] else if not (f i).0 then skipped else run ∷ rest

-- The flags with which the runs map page `p`, one for each run that has it.
unfoldable pub flags_at : List Run → ℕ → List MemoryMapFlags
flags_at [] p = []
flags_at (r ∷ rs) p =
    let rest = flags_at rs p in if leb r.start p && ltb p r.stop then r.flags ∷ rest else rest

same_flags-eq : (a b : MemoryMapFlags) → same_flags a b ≡ true → a ≡ b
unfolding same_flags
same_flags-eq a b h = ground arith

-- All pages of a run belong to the image and have its flags.
abbrev pub IsUniform : Pages → MemoryMapFlags → ℕ → ℕ → Type 0
IsUniform f flags i j = (p : ℕ) → i ≤ p → p < j → ((f p).0 ≡ true) × ((f p).1 ≡ flags)

pub run_end-IsUniform :
    (n : ℕ) (f : Pages) (flags : MemoryMapFlags) (i : ℕ)
    → (i ≤ run_end n f flags i)
      × (run_end n f flags i ≤ i + n)
      × IsUniform f flags i (run_end n f flags i)
unfolding run_end
run_end-IsUniform zero f flags i = (omega arith, omega arith, λ p l u. absurd (omega arith))
run_end-IsUniform (suc n) f flags i = elim (Bool-cases ((f i).0 && same_flags (f i).1 flags)) [
  | inr e ↦ rw e (omega arith, omega arith, λ p l u. absurd (omega arith))
  | inl e ↦
      let (a, b, c) = run_end-IsUniform n f flags (i + 1) in
      let same : (f i).1 ≡ flags = same_flags-eq (f i).1 flags (ground arith) in
      let here : (f i).0 ≡ true = ground arith in
      rw e (
        omega arith,
        omega arith,
        λ p l u. elim (Bool-cases (p == i)) [
          | inl s ↦ let q : p ≡ i = ground arith in rw q (here, same)
          | inr s ↦ c p (ground arith) u
        ],
      )
]

-- No run maps a page before the first.
flags_at-before :
    (n : ℕ) (f : Pages) (page_count i p : ℕ) → p < i → flags_at (runs n f page_count i) p ≡ []
unfolding runs flags_at
flags_at-before zero f page_count i p l = refl
flags_at-before (suc n) f page_count i p l =
    let run : Run = run_at f page_count i in
    let (a, b, c) = run_end-IsUniform (page_count - (i + 1)) f (f i).1 (i + 1) in
    let skipped = flags_at-before n f page_count (i + 1) p (omega arith) in
    let rest = flags_at-before n f page_count run.stop p (omega arith) in
    elim (Bool-cases (ltb i page_count)) [
      | inr x ↦ rw x refl
      | inl x ↦ elim (Bool-cases (f i).0) [
        | inr y ↦ rw (x, y) skipped
        | inl y ↦ let out : leb i p ≡ false = ground arith in rw (x, y, out) rest
      ]
    ]

in-run :
    (f : Pages) (i j p : ℕ)
    → (f i).0 ≡ true
    → IsUniform f (f i).1 (i + 1) j
    → i ≤ p
    → p < j
    → ((f p).0 ≡ true) × ((f p).1 ≡ (f i).1)
in-run f i j p y c l u = elim (Bool-cases (p == i)) [
  | inl s ↦ let q : p ≡ i = ground arith in rw q (y, refl)
  | inr s ↦ c p (ground arith) u
]

-- Every page of the image is mapped exactly once, with its own flags, and no other page is: with
-- more fuel than there are pages left.
pub flags_at-runs :
    (n : ℕ) (f : Pages) (page_count i p : ℕ)
    → page_count < i + n
    → i ≤ p
    → p < page_count
    → flags_at (runs n f page_count i) p ≡ (if (f p).0 then (f p).1 ∷ [] else [])
unfolding runs flags_at
flags_at-runs zero f page_count i p h l u = absurd (omega arith)
flags_at-runs (suc n) f page_count i p h l u =
    let run : Run = run_at f page_count i in
    let (a, b, c) = run_end-IsUniform (page_count - (i + 1)) f (f i).1 (i + 1) in
    let x : ltb i page_count ≡ true = ground arith in
    elim (Bool-cases (f i).0) [
      | inr y ↦ elim (Bool-cases (p == i)) [
        | inl s ↦
            let q : p ≡ i = ground arith in
            let absent : (f p).0 ≡ false = rw q y in
            rw (x, y, absent) (flags_at-before n f page_count (i + 1) p (omega arith))
        | inr s ↦ rw (x, y) (flags_at-runs n f page_count (i + 1) p (omega arith) (ground arith) u)
      ]
      | inl y ↦
          let low : leb i p ≡ true = ground arith in
          elim (Bool-cases (ltb p run.stop)) [
            | inr out ↦
                rw (x, y, low, out)
                  (flags_at-runs n f page_count run.stop p (omega arith) (ground arith) u)
            | inl within ↦
                let (here, same) = in-run f i run.stop p y c l (ground arith) in
                rw
                  (
                    x,
                    y,
                    low,
                    within,
                    flags_at-before n f page_count run.stop p (ground arith),
                    here,
                    same,
                  )
                  refl
          ]
    ]
