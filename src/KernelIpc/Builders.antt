-- ===== src/KernelIpc/Builders.antt =====
-- Katline/Runtime.cppm: the memory objects that `kernel_handle_ipc_message` builds for a request. `fresh` is where
-- `new` puts the object; 0 is `nullptr`.
use dhos_reborn.Base.{
  ℕ, zero, suc, ◌+◌, Bool, false, ◌||◌, Option, none, some, List, [], ◌∷◌, ◌==◌, if◌then◌else◌,
  length,
}
use dhos_reborn.MemoryObject.{
  MemoryObject, PageSource, Objects, create_allocated, create_mmio, delete_object,
}
use dhos_reborn.BootBlob.{Bytes, write_boot_blob}
use dhos_reborn.BootInfo.{BootModule, BootFramebuffer, BootData, mul64, nth_byte}

-- `modules[id]` and `framebuffers[id]`, behind the test of the id.
abbrev pub get_module : List BootModule → ℕ → Option BootModule
get_module [] id = none
get_module (b ∷ modules) zero = some b
get_module (b ∷ modules) (suc id) = get_module modules id

abbrev pub get_framebuffer : List BootFramebuffer → ℕ → Option BootFramebuffer
get_framebuffer [] id = none
get_framebuffer (f ∷ framebuffers) zero = some f
get_framebuffer (f ∷ framebuffers) (suc id) = get_framebuffer framebuffers id

module _ (S : PageSource) where
  abbrev pub Built : Type 0
  Built = ℕ × Objects S × Bytes

  abbrev kept_if : ℕ → Option MemoryObject → Objects S → Bool × Bytes → Built
  kept_if a none s (ok, m) = (0, s, m)
  kept_if a (some o) s (ok, m) = if ok then (a, s, m) else (0, delete_object S a o s, m)

  abbrev build_module : ℕ → Option BootModule → Objects S → Bytes → Built
  build_module fresh none s m = (0, s, m)
  build_module fresh (some b) s m =
      let (a, s1) = create_allocated S fresh b.size s in
      if (b.size == 0) || (b.address == 0)
      then (0, s, m)
      else if a == 0
      then (0, s1, m)
      else kept_if a (s1.at a) s1
          (write_boot_blob s1.hhdm_offset (s1.at a) 0 (some (λ i. m (b.address + i))) b.size m)

  unfoldable pub build_boot_module_object : ℕ → Option BootData → ℕ → Objects S → Bytes → Built
  unfolding create_allocated write_boot_blob delete_object
  build_boot_module_object fresh none id s m = (0, s, m)
  build_boot_module_object fresh (some boot) id s m =
      build_module fresh (get_module boot.modules id) s m

  -- The text and, if it went in, the byte 0 behind it.
  abbrev write_cmdline_text : Objects S → ℕ → List ℕ → Bytes → Bool × Bytes
  write_cmdline_text s a text m =
      let (ok, m1) =
        write_boot_blob s.hhdm_offset (s.at a) 0 (some (nth_byte text)) (length text) m in
      let (ended, m2) = write_boot_blob s.hhdm_offset (s.at a) (length text) (some (λ i. 0)) 1 m1 in
      if ok then (ended, m2) else (false, m1)

  unfoldable pub build_boot_cmdline_object : ℕ → Option BootData → Objects S → Bytes → Built
  unfolding create_allocated write_boot_blob delete_object nth_byte
  build_boot_cmdline_object fresh none s m = (0, s, m)
  build_boot_cmdline_object fresh (some boot) s m =
      let len : ℕ = length boot.cmdline in
      let (a, s1) = create_allocated S fresh (len + 1) s in
      if len == 0
      then (0, s, m)
      else if a == 0
      then (0, s1, m)
      else kept_if a (s1.at a) s1 (write_cmdline_text s1 a boot.cmdline m)

  abbrev build_framebuffer : ℕ → Option BootFramebuffer → Objects S → Bytes → Built
  build_framebuffer fresh none s m = (0, s, m)
  build_framebuffer fresh (some f) s m =
      let (a, s1) = create_mmio S fresh f.address (mul64 f.pitch f.height) s in
      if (f.address == 0) || (f.pitch == 0) || (f.height == 0) then (0, s, m) else (a, s1, m)

  unfoldable pub build_boot_framebuffer_object : ℕ → Option BootData → ℕ → Objects S → Bytes → Built
  unfolding create_mmio
  build_boot_framebuffer_object fresh none id s m = (0, s, m)
  build_boot_framebuffer_object fresh (some boot) id s m =
      build_framebuffer fresh (get_framebuffer boot.framebuffers id) s m
