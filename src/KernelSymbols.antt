-- ===== src/KernelSymbols.antt =====
-- Katline/KernelSymbols.cppm: the lookup of an address in the table of kernel symbols, which a
-- build step generates. The table is `count` entries, a function from indices. A `char const *`
-- is an optional text; the binary search takes fuel.
pub mod Search
mod Tests
use dhos_reborn.Base.{
  ℕ, zero, suc, ◌+◌, ◌-◌, ◌/◌, Bool, true, false, Option, none, some, List, [], ◌==◌, ltb, leb,
  if◌then◌else◌,
}

abbrev pub Text : Type 0
Text = List ℕ

pub record KernelSymbol : Type 0 where
  pub address : ℕ
  pub name : Option Text
  pub file : Option Text
  pub line : ℕ

pub record SymbolLookupResult : Type 0 where
  pub found : Bool
  pub address : ℕ
  pub name : Text
  pub file : Text
  pub line : ℕ

abbrev pub no_symbol : SymbolLookupResult
no_symbol = record { found = false; address = 0; name = []; file = []; line = 0 }

-- while (lo < hi) { ... }, then `lo`; the loop keeps its bounds if the fuel runs out.
unfoldable pub search_loop : (symbols : ℕ → KernelSymbol) → ℕ → ℕ → ℕ → ℕ → ℕ
search_loop symbols address zero lo hi = lo
search_loop symbols address (suc fuel) lo hi =
    let mid : ℕ = lo + (hi - lo) / 2 in
    let right = search_loop symbols address fuel (mid + 1) hi in
    let left = search_loop symbols address fuel lo mid in
    if ltb lo hi then (if leb ((symbols mid).address) address then right else left) else lo

abbrev pub text_or_empty : Option Text → Text
text_or_empty none = []
text_or_empty (some t) = t

abbrev pub describe : KernelSymbol → Option Text → SymbolLookupResult
describe s none = no_symbol
describe s (some name) = record {
  found = true;
  address = s.address;
  name = name;
  file = text_or_empty s.file;
  line = s.line;
}

unfoldable pub lookup_kernel_symbol : (symbols : ℕ → KernelSymbol) → ℕ → ℕ → SymbolLookupResult
unfolding search_loop
lookup_kernel_symbol symbols count address =
    if count == 0
    then no_symbol
    else let lo = search_loop symbols address count 0 count in
      if lo == 0 then no_symbol else describe (symbols (lo - 1)) ((symbols (lo - 1)).name)
