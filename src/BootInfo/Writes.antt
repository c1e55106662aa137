-- ===== src/BootInfo/Writes.antt =====
-- BootBlobWriter of Katline/Runtime.cppm, and the loops over modules and framebuffers: where the writer comes to.
use mathlib.Core.Path.{subst}
use dhos_reborn.Base.{
  ℕ, ◌+◌, ◌*◌, ◌%◌, ◌^◌, ◌≡◌, ◌≤◌, ◌<◌, inl, inr, refl, ap, Bool, true, false, not, Option, some,
  List, [], ◌∷◌, ltb, ◌==◌, if◌then◌else◌, arith, Bool-cases, length,
}
use dhos_reborn.MemoryObject.{MemoryObject}
use dhos_reborn.Loader.{Rounding}
use dhos_reborn.UserHeap.Blocks.{IsRoundingUp}
use dhos_reborn.BootBlob.{Bytes, write_boot_blob}
use dhos_reborn.BootBlob.Pages.{Backed}
use dhos_reborn.BootBlob.Written.{write_boot_blob-fits}
use dhos_reborn.BootInfo.{
  BootModule, BootFramebuffer, Writer, add64, mul64, name_sizes, edid_sizes, align, write,
  write_bytes, patch, then_do, write_if_any, write_entries, write_names, write_framebuffers,
  word_bytes, nth_byte,
}
use dhos_reborn.BootInfo.Sizes.{up8, exact_padded, le-exact_padded, exact_padded-le, align_up-up8}

-- The writer has come to an offset.
abbrev pub At : ℕ → Option Writer → Type 0
At offset r = (m : Bytes) × (r ≡ some (offset, m))

pub then_do-At :
    (offset after : ℕ) (r : Option Writer) (next : Writer → Option Writer)
    → At offset r
    → ((m : Bytes) → At after (next (offset, m)))
    → At after (then_do r next)
then_do-At offset after r next (m, e) on = let (m', e') = on m in (m', rw e e')

module _ (R : Rounding) (rounds : IsRoundingUp R) (hhdm : ℕ) (o : MemoryObject) (base : ℕ → ℕ)
    (backed : Backed hhdm o.pages base o.size) (small : o.size < 2 ^ 63) where
  pub align-At :
      (offset : ℕ) (m : Bytes) → up8 offset ≤ o.size → At (up8 offset) (align R hhdm o (offset, m))
  unfolding align
  align-At offset m fits =
      let up : R.align_up offset 8 ≡ up8 offset = align_up-up8 R rounds offset (omega arith) in
      let e : ltb o.size (up8 offset) ≡ false = ground arith in (m, rw (up, e) refl)

  pub write_bytes-At :
      (src : ℕ → ℕ) (size offset : ℕ) (m : Bytes)
      → offset + size ≤ o.size
      → At (offset + size) (write_bytes R hhdm o src size (offset, m))
  unfolding write_bytes
  write_bytes-At src size offset m fits =
      let e = write_boot_blob-fits hhdm o base offset src size m backed fits in
      let sum : (offset + size) % 2 ^ 64 ≡ offset + size = omega arith in
      ((write_boot_blob hhdm (some o) offset (some src) size m).1, rw (e, sum) refl)

  pub patch-At :
      (at : ℕ) (ws : List ℕ) (offset : ℕ) (m : Bytes)
      → at + 8 * length ws ≤ o.size
      → At offset (patch R hhdm o at ws (offset, m))
  unfolding patch
  patch-At at ws offset m fits =
      let e = write_boot_blob-fits hhdm o base at (word_bytes ws) (8 * length ws) m backed fits in
      ((write_boot_blob hhdm (some o) at (some (word_bytes ws)) (8 * length ws) m).1, rw e refl)

  pub patch_entry-At :
      (at index : ℕ) (ws : List ℕ) (offset : ℕ) (m : Bytes)
      → at + index + 8 * length ws ≤ o.size
      → At offset (patch R hhdm o (add64 at index) ws (offset, m))
  patch_entry-At at index ws offset m fits =
      let place : (at + index) % 2 ^ 64 ≡ at + index = omega arith in
      rw place (patch-At (at + index) ws offset m fits)

  pub write-At :
      (ws : List ℕ) (offset : ℕ) (m : Bytes)
      → offset + 8 * length ws ≤ o.size
      → At (offset + 8 * length ws) (write R hhdm o ws (offset, m))
  unfolding write
  write-At ws offset m fits = write_bytes-At (word_bytes ws) (8 * length ws) offset m fits

  pub write_if_any-At :
      (bytes : List ℕ) (offset : ℕ) (m : Bytes)
      → offset + length bytes ≤ o.size
      → At (offset + length bytes) (write_if_any R hhdm o bytes (offset, m))
  unfolding write_if_any
  write_if_any-At bytes offset m fits = elim (Bool-cases (length bytes == 0)) [
    | inl e ↦
        let z : length bytes ≡ 0 = ground arith in
        (m, rw (e, z) (ap (λ x. some (x, m)) (omega arith)))
    | inr e ↦
        let (m', done) = write_bytes-At (nth_byte bytes) (length bytes) offset m fits in
        (m', rw e done)
  ]

  pub write_entries-At :
      (i : ℕ) (modules : List BootModule) (offset : ℕ) (m : Bytes)
      → offset + length modules * 40 ≤ o.size
      → At (offset + length modules * 40) (write_entries R hhdm o i modules (offset, m))
  unfolding write_entries
  write_entries-At i [] offset m fits = (m, ap (λ x. some (x, m)) (omega arith))
  write_entries-At i (b ∷ modules) offset m fits =
      then_do-At (offset + 40) (offset + length (b ∷ modules) * 40)
        (write R hhdm o (i ∷ 0 ∷ 0 ∷ b.size ∷ 0 ∷ []) (offset, m))
        (write_entries R hhdm o (i + 1) modules)
        (write-At (i ∷ 0 ∷ 0 ∷ b.size ∷ 0 ∷ []) offset m (omega arith))
        (λ m'.
          subst (λ x. At x (write_entries R hhdm o (i + 1) modules (offset + 40, m'))) (omega arith)
            (write_entries-At (i + 1) modules (offset + 40) m' (omega arith)))

  pub write_names-At :
      (at i : ℕ) (modules : List BootModule) (offset : ℕ) (m : Bytes)
      → at + 16 + (i + length modules) * 40 ≤ o.size
      → exact_padded (name_sizes R modules) offset ≤ o.size
      → At
          (exact_padded (name_sizes R modules) offset)
          (write_names R hhdm o at i modules (offset, m))
  unfolding write_names
  write_names-At at i [] offset m entries fits = (m, refl)
  write_names-At at i (b ∷ modules) offset m entries fits =
      let n : ℕ = length b.name in
      let last : ℕ = exact_padded (name_sizes R modules) (up8 offset + n) in
      let more : up8 offset + n ≤ last = le-exact_padded (name_sizes R modules) (up8 offset + n) in
      then_do-At (up8 offset) last (align R hhdm o (offset, m)) _ (align-At offset m (omega arith))
        (λ m1.
          then_do-At (up8 offset) last _ _
            (patch_entry-At at (16 + i * 40) (i ∷ up8 offset ∷ n ∷ b.size ∷ 0 ∷ []) (up8 offset) m1
              (omega arith))
            (λ m2.
              then_do-At (up8 offset + n) last _ _
                (write_if_any-At b.name (up8 offset) m2 (omega arith))
                (λ m3. write_names-At at (i + 1) modules (up8 offset + n) m3 (omega arith) fits)))

  -- The writer has come to no more than an offset.
  abbrev pub Within : ℕ → Option Writer → Type 0
  Within bound r = (offset : ℕ) × ((offset ≤ bound) × At offset r)

  pub then_do-Within :
      (offset bound : ℕ) (r : Option Writer) (next : Writer → Option Writer)
      → At offset r
      → ((m : Bytes) → Within bound (next (offset, m)))
      → Within bound (then_do r next)
  then_do-Within offset bound r next (m, e) on =
      let (after, (low, (m', e'))) = on m in (after, (low, (m', rw e e')))

  -- `if any then align w else some w`, and the display data behind it.
  pub align_if-At :
      (any : Bool) (offset : ℕ) (m : Bytes)
      → up8 offset ≤ o.size
      → At
          (if any then up8 offset else offset)
          (if any then align R hhdm o (offset, m) else some (offset, m))
  align_if-At true offset m fits = align-At offset m fits
  align_if-At false offset m fits = (m, refl)

  pub write_framebuffers-Within :
      (at i : ℕ) (framebuffers : List BootFramebuffer) (offset : ℕ) (m : Bytes)
      → at + 16 + (i + length framebuffers) * 80 ≤ o.size
      → exact_padded (edid_sizes R framebuffers) offset ≤ o.size
      → Within
          (exact_padded (edid_sizes R framebuffers) offset)
          (write_framebuffers R hhdm o at i framebuffers (offset, m))
  unfolding write_framebuffers
  write_framebuffers-Within at i [] offset m entries fits = (offset, (omega arith, (m, refl)))
  write_framebuffers-Within at i (f ∷ framebuffers) offset m entries fits =
      let n : ℕ = length f.edid in
      let any : Bool = not (n == 0) in
      let start : ℕ = if any then up8 offset else offset in
      let last : ℕ = exact_padded (edid_sizes R framebuffers) (up8 offset + n) in
      let more : up8 offset + n ≤ last =
        le-exact_padded (edid_sizes R framebuffers) (up8 offset + n) in
      let low : start ≤ up8 offset = ground arith in
      let less : exact_padded (edid_sizes R framebuffers) (start + n) ≤ last =
        exact_padded-le (edid_sizes R framebuffers) (start + n) (up8 offset + n) (omega arith) in
      then_do-Within start last (if any then align R hhdm o (offset, m) else some (offset, m)) _
        (align_if-At any offset m (omega arith))
        (λ m1.
          then_do-Within (start + n) last _ _ (write_if_any-At f.edid start m1 (omega arith)) (λ m2.
            then_do-Within (start + n) last _ _
              (patch_entry-At at (16 + i * 80)
                (i
                  ∷ f.width
                  ∷ f.height
                  ∷ f.pitch
                  ∷ f.bpp
                  ∷ f.format
                  ∷ mul64 f.pitch f.height
                  ∷ n
                  ∷ (if any then start else 0)
                  ∷ 0
                  ∷ [])
                (start + n) m2 (omega arith))
              (λ m3.
                let (after, (below, done)) =
                  write_framebuffers-Within at (i + 1) framebuffers (start + n) m3 (omega arith)
                    (omega arith) in
                (after, (omega arith, done)))))
