-- ===== src/Elf/Spans.antt =====
-- The span of the segments of an image, as Applications/Loader/main.cpp and Applications/Bootstrap/main.cpp find it.
use mathlib.Core.Path.{subst}
use dhos_reborn.Base.{
  ℕ, ◌≤◌, ◌≡◌, refl, sym, inl, inr, true, false, List, [], ◌∷◌, ltb, if◌then◌else◌, arith,
  Bool-cases,
}
use dhos_reborn.Elf.{ProgramHeader, is_load, segment_end, Span, span_from}

-- Every segment to load begins at or above `lo` and ends, as computed, at or below `hi`.
abbrev pub AllWithin : ℕ → ℕ → List ProgramHeader → Type 0
AllWithin lo hi [] = Unit {0}
AllWithin lo hi (s ∷ segments) =
    (is_load s ≡ true → (lo ≤ s.p_vaddr) × (segment_end s ≤ hi)) × AllWithin lo hi segments

abbrev wider : ProgramHeader → Span → Span
wider s b = record {
  found_load = true;
  min_vaddr = if ltb b.min_vaddr s.p_vaddr then b.min_vaddr else s.p_vaddr;
  max_vaddr = if ltb (segment_end s) b.max_vaddr then b.max_vaddr else segment_end s;
}

span_from-load :
    (s : ProgramHeader) (segments : List ProgramHeader) (b : Span)
    → is_load s ≡ true
    → span_from (s ∷ segments) b ≡ span_from segments (wider s b)
unfolding span_from
span_from-load s segments b h = rw h refl

span_from-skip :
    (s : ProgramHeader) (segments : List ProgramHeader) (b : Span)
    → is_load s ≡ false
    → span_from (s ∷ segments) b ≡ span_from segments b
unfolding span_from
span_from-skip s segments b h = rw h refl

span_from-nil : (b : Span) → span_from [] b ≡ b
unfolding span_from
span_from-nil b = refl

span_from-grows :
    (segments : List ProgramHeader) (b : Span)
    → ((span_from segments b).min_vaddr ≤ b.min_vaddr)
      × (b.max_vaddr ≤ (span_from segments b).max_vaddr)
span_from-grows [] b = rw (span_from-nil b) (omega arith, omega arith)
span_from-grows (s ∷ segments) b = elim (Bool-cases (is_load s)) [
  | inr n ↦ rw (span_from-skip s segments b n) (span_from-grows segments b)
  | inl y ↦
      let (l, h) = span_from-grows segments (wider s b) in
      let l' : (wider s b).min_vaddr ≤ b.min_vaddr = ground arith in
      let h' : b.max_vaddr ≤ (wider s b).max_vaddr = ground arith in
      rw (span_from-load s segments b y) (omega arith, omega arith)
]

pub span_from-AllWithin :
    (segments : List ProgramHeader) (b : Span)
    → AllWithin (span_from segments b).min_vaddr (span_from segments b).max_vaddr segments
span_from-AllWithin [] b = tt
span_from-AllWithin (s ∷ segments) b = elim (Bool-cases (is_load s)) [
  | inr n ↦
      subst (λ c. AllWithin c.min_vaddr c.max_vaddr (s ∷ segments))
        (sym (span_from-skip s segments b n)) ((λ y. cc), span_from-AllWithin segments b)
  | inl y ↦
      let (l, h) = span_from-grows segments (wider s b) in
      let l' : (wider s b).min_vaddr ≤ s.p_vaddr = ground arith in
      let h' : segment_end s ≤ (wider s b).max_vaddr = ground arith in
      subst (λ c. AllWithin c.min_vaddr c.max_vaddr (s ∷ segments))
        (sym (span_from-load s segments b y))
        ((λ z. (omega arith, omega arith)), span_from-AllWithin segments (wider s b))
]
