-- ===== src/KernelSymbols/Search.antt =====
-- Which symbol Katline/KernelSymbols.cppm finds for an address.
use dhos_reborn.Base.{
  ℕ, zero, suc, ◌+◌, ◌-◌, ◌/◌, ◌≤◌, ◌<◌, ◌≡◌, ◌≢◌, ◌==◌, inl, inr, some, arith, ltb, leb, ==_false,
  Bool-cases,
}
use dhos_reborn.KernelSymbols.{
  Text, KernelSymbol, no_symbol, search_loop, describe, lookup_kernel_symbol,
}

module _ (symbols : ℕ → KernelSymbol) (address : ℕ) where
  abbrev pub at : ℕ → ℕ
  at i = (symbols i).address

  -- The addresses of the first `count` entries do not fall.
  abbrev pub IsSorted : ℕ → Type 0
  IsSorted count = (i j : ℕ) → i ≤ j → j < count → at i ≤ at j

  -- Every entry below `lo` is at or below the address, and every one from `hi` on is above it.
  record Split (count lo hi : ℕ) : Type 0 where
    below : (i : ℕ) → i < lo → at i ≤ address
    above : (i : ℕ) → hi ≤ i → i < count → address < at i
    ordered : lo ≤ hi
    within : hi ≤ count

  search_loop-Split :
      (count fuel lo hi : ℕ)
      → IsSorted count
      → Split count lo hi
      → hi - lo ≤ fuel
      → let r = search_loop symbols address fuel lo hi in Split count r r
  unfolding search_loop
  search_loop-Split count zero lo hi sorted s le =
      let e : hi ≡ lo = omega (arith, s.ordered) in
      record {
        below = s.below;
        above = λ i l. s.above i (omega arith);
        ordered = omega arith;
        within = omega (arith, s.within);
      }
  search_loop-Split count (suc fuel) lo hi sorted s le = elim (Bool-cases (ltb lo hi)) [
    | inr stop ↦ rw stop (record {
      below = s.below;
      above = λ i l. s.above i (ground (arith, s.ordered));
      ordered = omega arith;
      within = ground (arith, s.ordered, s.within);
    })
    | inl go ↦
        let mid : ℕ = lo + (hi - lo) / 2 in
        let lt : lo < hi = ground arith in
        let within_mid : mid < hi = omega arith in
        rw go (elim (Bool-cases (leb (at mid) address)) [
          | inl le' ↦ rw le' (
              search_loop-Split count fuel (mid + 1) hi sorted
                (record {
                  below = λ i l.
                      let a : at i ≤ at mid =
                        sorted i mid (omega arith) (omega (arith, s.within)) in
                      ground arith;
                  above = s.above;
                  ordered = omega arith;
                  within = s.within;
                })
                (omega arith))
          | inr gt ↦ rw gt (
              search_loop-Split count fuel lo mid sorted
                (record {
                  below = s.below;
                  above = λ i l lc. let a : at mid ≤ at i = sorted mid i l lc in ground arith;
                  ordered = omega arith;
                  within = omega (arith, s.within);
                })
                (omega arith))
        ])
  ]

  searched :
      (count : ℕ)
      → IsSorted count
      → let r = search_loop symbols address count 0 count in Split count r r
  searched count sorted =
      search_loop-Split count count 0 count sorted
        (record {
          below = λ i l. absurd (omega arith);
          above = λ i l m. absurd (omega arith);
          ordered = omega arith;
          within = omega arith;
        })
        (omega arith)

-- In a table whose addresses do not fall, the lookup describes the entry at index `i` if that is
-- the last one whose address is at or below the given one, and its name is there.
pub lookup_kernel_symbol-last :
    (symbols : ℕ → KernelSymbol) (count address i : ℕ) (name : Text)
    → IsSorted symbols address count
    → i < count
    → (symbols i).address ≤ address
    → ((j : ℕ) → i < j → j < count → address < (symbols j).address)
    → (symbols i).name ≡ some name
    → lookup_kernel_symbol symbols count address ≡ describe (symbols i) (some name)
unfolding lookup_kernel_symbol
lookup_kernel_symbol-last symbols count address i name sorted lt le last named =
    let s = searched symbols address count sorted in
    let r : ℕ = search_loop symbols address count 0 count in
    let up : i < r = not_above s in
    let down : r ≤ suc i = not_below s in
    let e : r ≡ suc i = omega arith in
    let p : suc i - 1 ≡ i = omega arith in
    let nz : count ≢ 0 = omega arith in
    let pos : suc i ≢ 0 = omega arith in rw (==_false nz, e, p, ==_false pos) (simp named)
  where
    not_above :
        Split symbols address count
          (search_loop symbols address count 0 count)
          (search_loop symbols address count 0 count)
        → i < search_loop symbols address count 0 count
    not_above s = elim (Bool-cases (ltb i (search_loop symbols address count 0 count))) [
      | inl y ↦ ground arith
      | inr n ↦
          let a : address < (symbols i).address = s.above i (ground arith) lt in
          absurd (omega arith)
    ]

    not_below :
        Split symbols address count
          (search_loop symbols address count 0 count)
          (search_loop symbols address count 0 count)
        → search_loop symbols address count 0 count ≤ suc i
    not_below s = elim (Bool-cases (leb (search_loop symbols address count 0 count) (suc i))) [
      | inl y ↦ ground arith
      | inr n ↦
          let a : (symbols (suc i)).address ≤ address = s.below (suc i) (ground arith) in
          let b : address < (symbols (suc i)).address =
            last (suc i) (omega arith) (ground (arith, s.within)) in
          absurd (omega arith)
    ]

-- In such a table, an address below that of every entry finds no symbol.
pub lookup_kernel_symbol-below :
    (symbols : ℕ → KernelSymbol) (count address : ℕ)
    → IsSorted symbols address count
    → ((j : ℕ) → j < count → address < (symbols j).address)
    → lookup_kernel_symbol symbols count address ≡ no_symbol
unfolding lookup_kernel_symbol
lookup_kernel_symbol-below symbols count address sorted all =
    elim (Bool-cases (search_loop symbols address count 0 count == 0)) [
      | inl z ↦ ground arith
      | inr nz ↦
          let s = searched symbols address count sorted in
          let a : (symbols 0).address ≤ address = s.below 0 (ground arith) in
          let b : address < (symbols 0).address = all 0 (ground (arith, s.within)) in
          absurd (omega arith)
    ]
