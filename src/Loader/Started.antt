-- ===== src/Loader/Started.antt =====
-- The calls of `load_elf_into_new_process` of Applications/Loader/main.cpp once the image is mapped.
use mathlib.Core.Path.{subst}
use dhos_reborn.Base.{
  sym, ◌+◌, ◌-◌, ◌≢◌, ◌⊎◌, false, arith, ℕ, suc, ◌≡◌, refl, ap, ◌∙◌, inl, inr, ◌∷◌, length, ◌==◌,
  ◌/◌, Bool-cases,
}
use dhos_reborn.UserSpace.{
  Kernel, World, Outcome, Action, Call, is_error, k_user_stack_size, k_user_stack_top, syscall,
  raw_process_memory_map, ◌>>=◌,
}
use dhos_reborn.UserSpace.Values.{bind-value}
use dhos_reborn.Elf.{read_le, read_header}
use dhos_reborn.Elf.Checked.{GoodHeader}
use dhos_reborn.Loader.Mapped.{Granted}
use dhos_reborn.Loader.{
  Rounding, Target, stack_options, fail_if, close_all, raw_thread_create, raw_thread_start,
  create_process, place_image, map_runs, map_stack, start_thread, stack_flags,
}

-- The kernel made the process `p`, and gave it the capabilities if there are any.
abbrev pub ProcessMade : Kernel → (capabilities p : ℕ) → World → World → Type 0
ProcessMade K capabilities p w w' =
    let n : ℕ = length w.calls in
    (p ≡ K.answers n)
    × (is_error (K.answers n) ≡ false)
    × (((capabilities ≡ 0) × (w'.calls ≡ Call.process_create ∷ w.calls))
        ⊎ ((capabilities ≢ 0)
            × (is_error (K.answers (suc n)) ≡ false)
            × (w'.calls
                ≡ Call.process_grant_capabilities p capabilities ∷ Call.process_create ∷ w.calls)))

-- The kernel gave memory for the stack, and mapped it in the process `p` below `k_user_stack_top`; then the
-- handle of the memory was closed.
abbrev pub StackMapped : Kernel → ℕ → World → World → Type 0
StackMapped K p w w' =
    let n : ℕ = length w.calls in
    (is_error (K.answers n) ≡ false)
    × (is_error (K.answers (suc n)) ≡ false)
    × (w'.calls
        ≡ Call.handle_close (K.answers n)
          ∷ Call.process_memory_map (record {
            process = p;
            memory_object = K.answers n;
            offset = 0;
            size = k_user_stack_size;
            flags = stack_flags;
            addr = k_user_stack_top - k_user_stack_size;
          })
          ∷ Call.memory_create k_user_stack_size
          ∷ w.calls)

-- The kernel made a thread of the process `p` with this entry point, and started it; then the handle of the
-- process was closed.
abbrev pub ThreadStarted : Kernel → (p entry : ℕ) → World → World → Type 0
ThreadStarted K p entry w w' =
    let n : ℕ = length w.calls in
    (is_error (K.answers n) ≡ false)
    × (K.answers n ≢ 0)
    × (is_error (K.answers (suc (suc n))) ≡ false)
    × (w'.calls
        ≡ Call.handle_close p
          ∷ Call.thread_start (K.answers n)
          ∷ Call.debug_u64 0x1001 (K.answers n)
          ∷ Call.thread_create p entry k_user_stack_top
          ∷ w.calls)

map_stack-value :
    (K : Kernel) (process : ℕ) (w : World)
    → (map_stack K process w).0 ≡ Outcome.value tt
    → StackMapped K process w (map_stack K process w).1
unfolding map_stack syscall fail_if raw_process_memory_map close_all stack_options
map_stack-value K process w = elim (Bool-cases (is_error (K.answers (length w.calls)))) [
  | inl e ↦ rw e (λ h. absurd cc)
  | inr e ↦ elim (Bool-cases (is_error (K.answers (suc (length w.calls))))) [
    | inl f ↦ rw (e, f) (λ h. absurd cc)
    | inr f ↦ rw (e, f) (λ h. (refl, refl, refl))
  ]
]

start_thread-value :
    (K : Kernel) (process entry : ℕ) (w : World)
    → (start_thread K process entry w).0 ≡ Outcome.value tt
    → ThreadStarted K process entry w (start_thread K process entry w).1
unfolding start_thread raw_thread_create raw_thread_start syscall fail_if close_all
start_thread-value K process entry w = elim (Bool-cases (is_error (K.answers (length w.calls)))) [
  | inl e ↦ rw e (λ h. absurd cc)
  | inr e ↦ elim (Bool-cases (K.answers (length w.calls) == 0)) [
    | inl z ↦ rw (e, z) (λ h. absurd cc)
    | inr z ↦ elim (Bool-cases (is_error (K.answers (suc (suc (length w.calls)))))) [
      | inl f ↦ rw (e, z, f) (λ h. absurd cc)
      | inr f ↦
          let real : K.answers (length w.calls) ≢ 0 = ground arith in
          rw (e, z, f) (λ h. (refl, real, refl, refl))
    ]
  ]
]

-- The world after the mapping of the image was given up.
abbrev pub after_unmap : Kernel → Target → World → World
after_unmap K t w =
    let n : ℕ = length w.calls in
    record w {
      memory = K.effects (suc n) (K.effects n w.memory);
      calls =
          Call.handle_close t.image_handle
          ∷ Call.memory_unmap t.image_local_map t.total_size
          ∷ w.calls;
    }

-- What a run that loaded an image, as the process `p` and with the target `t`, went through from `w`.
abbrev pub Started :
    Kernel
    → Rounding
    → (fuel image image_size page_size capabilities : ℕ) → World
    → World
    → ℕ
    → Target
    → Type 0
Started K R fuel image image_size page_size capabilities w w' p t =
    let w0 : World = (create_process K capabilities w).1 in
    let w1 : World = (place_image K R p image image_size page_size w0).1 in
    let w2 : World = (map_runs K fuel t image (t.total_size / page_size) 0 w1).1 in
    let w3 : World = (map_stack K p (after_unmap K t w2)).1 in
    GoodHeader w.memory image image_size page_size
    × ProcessMade K capabilities p w w0
    × ((place_image K R p image image_size page_size w0).0 ≡ Outcome.value t)
    × ((map_runs K fuel t image (t.total_size / page_size) 0 w1).0 ≡ Outcome.value tt)
    × Granted K (length w1.calls) (length w2.calls)
    × StackMapped K p (after_unmap K t w2) w3
    × ThreadStarted K p (read_le 8 w3.memory (image + 24)) w3 w'

-- The rest of the function, once the pages are mapped.
finish :
    (K : Kernel) (p : ℕ) (image : ℕ) (w : World)
    → let m : Action ℕ = map_stack K p >>= λ u.
        (λ v. (Outcome.value (read_header v.memory image).e_entry, v)) >>= λ entry.
        start_thread K p entry >>= λ u. (λ v. (Outcome.value 0, v)) in
      (m w).0 ≡ Outcome.value 0
      → let w3 : World = (map_stack K p w).1 in
        StackMapped K p w w3 × ThreadStarted K p (read_le 8 w3.memory (image + 24)) w3 (m w).1
unfolding read_header
finish K p image w h =
    let w3 : World = (map_stack K p w).1 in
    let entry : ℕ = (read_header w3.memory image).e_entry in
    let last : ℕ → Action ℕ = λ e. start_thread K p e >>= λ u. (λ v. (Outcome.value 0, v)) in
    let rest : Unit {0} → Action ℕ =
      λ u. (λ v. (Outcome.value (read_header v.memory image).e_entry, v)) >>= last in
    let (a, x, y, z) = bind-value (map_stack K p) rest 0 w h in
    let (b, x', y', z') =
      bind-value (start_thread K p entry) (λ u. λ v. (Outcome.value 0, v)) 0 w3 y in
    (
      map_stack-value K p w x,
      subst (λ v. ThreadStarted K p entry w3 v) (sym (ap (λ r. r.1) (z ∙ z')))
          (start_thread-value K p entry w3 x'),
    )
