-- ===== src/Loader/Mapped.antt =====
-- The loop of Applications/Loader/main.cpp that maps the pages of an image into the new process,
-- against the list of runs of pages.
use dhos_reborn.Base.{
  ◌*◌, ◌%◌, ◌^◌, ◌++◌, true, false, ◌==◌, ℕ, zero, suc, ◌+◌, ◌-◌, ◌≤◌, ◌<◌, ◌≡◌, refl, ap, ◌∙◌, ◌⊎◌,
  inl, inr, List, [], ◌∷◌, length, ltb, arith, Bool-cases,
}
use dhos_reborn.LibC.{Memory}
use dhos_reborn.UserSpace.{Kernel, World, Outcome, Call, is_error, syscall, raw_process_memory_map}
use dhos_reborn.Elf.{ProgramHeader}
use dhos_reborn.Elf.Runs.{Pages, Run, run_at, runs, run_end-IsUniform}
use dhos_reborn.Loader.{Target, headers_of, pages_of, run_options, map_runs}

-- The call that maps a run of pages: at its place in the image, with its own flags, all numbers at 64 bits.
abbrev pub run_call : Target → Run → Call
run_call t r = Call.process_memory_map (record {
  process = t.process;
  memory_object = t.image_handle;
  offset = r.start * t.page_size % 2 ^ 64;
  size = (r.stop - r.start) * t.page_size % 2 ^ 64;
  flags = r.flags;
  addr = (t.load_base + r.start * t.page_size) % 2 ^ 64;
})

-- The calls after a list of runs was mapped, the last one first.
unfoldable pub calls_for : Target → List Run → List Call → List Call
calls_for t [] calls = calls
calls_for t (r ∷ rs) calls = calls_for t rs (run_call t r ∷ calls)

-- None of the answers from one number up to another is an error.
abbrev pub Granted : Kernel → ℕ → ℕ → Type 0
Granted K n e = (j : ℕ) → n ≤ j → j < e → is_error (K.answers j) ≡ false

-- All runs are mapped, and the kernel granted each.
abbrev pub AllMapped : Kernel → Target → List Run → List Call → Outcome (Unit {0}) × World → Type 0
AllMapped K t rs calls (r, w') =
    (r ≡ Outcome.value tt)
    × (w'.calls ≡ calls_for t rs calls)
    × Granted K (length calls) (length calls + length rs)

-- The kernel refused a run after it granted those before it: the local mapping is given up, and 11 returned.
abbrev pub Stopped : Kernel → Target → List Run → List Call → Outcome (Unit {0}) × World → Type 0
Stopped K t rs calls (r, w') =
    (before : List Run) × ((run : Run) × ((after : List Run) × ((rs ≡ before ++ run ∷ after)
          × Granted K (length calls) (length calls + length before)
          × (is_error (K.answers (length calls + length before)) ≡ true)
          × (r ≡ Outcome.returned 11)
          × (w'.calls
              ≡ Call.handle_close t.image_handle
                ∷ Call.memory_unmap t.image_local_map t.total_size
                ∷ run_call t run
                ∷ calls_for t before calls))))

headers_of-memory :
    (image : ℕ) (w w' : World) → w'.memory ≡ w.memory → headers_of image w' ≡ headers_of image w
unfolding headers_of
headers_of-memory image w w' e = ap (λ m. headers_of image (record w { memory = m })) e

abbrev Mapping : Kernel → Target → List Run → List Call → Outcome (Unit {0}) × World → Type 0
Mapping K t rs calls end = AllMapped K t rs calls end ⊎ Stopped K t rs calls end

-- One more run in front, which the kernel granted.
Mapping-more :
    (K : Kernel) (t : Target) (run : Run) (rs : List Run) (calls : List Call)
    (end : Outcome (Unit {0}) × World)
    → is_error (K.answers (length calls)) ≡ false
    → Mapping K t rs (run_call t run ∷ calls) end
    → Mapping K t (run ∷ rs) calls end
unfolding calls_for
Mapping-more K t run rs calls end fine (inl (r, c, granted)) = inl (
  r,
  c,
  λ j low high. elim (Bool-cases (j == length calls)) [
    | inl e ↦ let same : j ≡ length calls = ground arith in rw same fine
    | inr e ↦ granted j (ground arith) (omega arith)
  ],
)
Mapping-more K t run rs calls end fine (inr (before, (r, (after, (split, granted, bad, o, c))))) =
    let shifted : length calls + suc (length before) ≡ suc (length calls) + length before =
      omega arith in
    inr (
      run ∷ before,
      (
        r,
        (
          after,
          (
            ap (λ l. run ∷ l) split,
            λ j low high. elim (Bool-cases (j == length calls)) [
              | inl e ↦ let same : j ≡ length calls = ground arith in rw same fine
              | inr e ↦ granted j (ground arith) (omega arith)
            ],
            rw shifted bad,
            o,
            c,
          ),
        ),
      ),
    )

map_runs_from :
    (K : Kernel) (fuel : ℕ) (t : Target) (image page_count i : ℕ) (w : World)
    (segments : List ProgramHeader)
    → ((n : ℕ) (m : Memory) → length w.calls ≤ n → K.effects n m ≡ m)
    → headers_of image w ≡ segments
    → i ≤ page_count
    → page_count < i + fuel
    → Mapping K t
        (runs fuel (pages_of segments t.load_base t.page_size) page_count i)
        w.calls
        (map_runs K fuel t image page_count i w)
unfolding map_runs runs calls_for syscall raw_process_memory_map run_options
map_runs_from K zero t image page_count i w segments keeps e l h = absurd (omega arith)
map_runs_from K (suc fuel) t image page_count i w segments keeps e l h =
    let f : Pages = pages_of segments t.load_base t.page_size in
    let run : Run = run_at f page_count i in
    let later_runs : List Run = runs fuel f page_count run.stop in
    let plain : length w.calls + 0 ≡ length w.calls = omega arith in
    let (later, bounded, same_run) = run_end-IsUniform (page_count - (i + 1)) f (f i).1 (i + 1) in
    elim (Bool-cases (ltb i page_count)) [
      | inr x ↦ rw (e, x) (inl (refl, refl, λ j low high. absurd (omega arith)))
      | inl x ↦
          let before : i + 1 ≤ page_count = ground arith in
          elim (Bool-cases (f i).0) [
            | inr y ↦
                rw (e, x, y)
                  (map_runs_from K fuel t image page_count (i + 1) w segments keeps e before
                    (omega arith))
            | inl y ↦ elim (Bool-cases (is_error (K.answers (length w.calls)))) [
              | inl z ↦
                  rw (e, x, y, z)
                    (inr (
                      [],
                      (
                        run,
                        (
                          later_runs,
                          (refl, (λ j low high. absurd (omega arith)), rw plain z, refl, refl),
                        ),
                      ),
                    ))
              | inr z ↦
                  let w1 : World = record w {
                    memory = K.effects (length w.calls) w.memory;
                    calls = run_call t run ∷ w.calls;
                  } in
                  let same : headers_of image w1 ≡ segments =
                    headers_of-memory image w w1 (keeps (length w.calls) w.memory (omega arith))
                    ∙ e in
                  rw (e, x, y, z)
                    (Mapping-more K t run later_runs w.calls
                      (map_runs K fuel t image page_count run.stop w1) z
                      (map_runs_from K fuel t image page_count run.stop w1 segments
                        (λ n m l. keeps n m (omega arith)) same (omega arith) (omega arith)))
            ]
          ]
    ]

-- Where the kernel's calls leave the memory of the loader alone, and with more fuel than there are
-- pages left, the loop ends, in one of two ways: it mapped exactly the runs of pages of the image, each by one call
-- and in their order, and the kernel granted every call; or the kernel refused a run, and then
-- the loop made the calls for the runs up to that one, gave up the local mapping and returned 11.
pub map_runs_lem :
    (K : Kernel) (fuel : ℕ) (t : Target) (image page_count i : ℕ) (w : World)
    → ((n : ℕ) (m : Memory) → length w.calls ≤ n → K.effects n m ≡ m)
    → i ≤ page_count
    → page_count < i + fuel
    → let end : Outcome (Unit {0}) × World = map_runs K fuel t image page_count i w in
      let f : Pages = pages_of (headers_of image w) t.load_base t.page_size in
      AllMapped K t (runs fuel f page_count i) w.calls end
      ⊎ Stopped K t (runs fuel f page_count i) w.calls end
map_runs_lem K fuel t image page_count i w keeps l h =
    map_runs_from K fuel t image page_count i w (headers_of image w) keeps refl l h
