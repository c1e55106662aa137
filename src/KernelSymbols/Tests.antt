-- ===== src/KernelSymbols/Tests.antt =====
-- The lookup of Katline/KernelSymbols.cppm in a small table.
use dhos_reborn.Base.{ℕ, ◌+◌, ◌*◌, ◌≡◌, refl, some, none, [], ◌∷◌}
use dhos_reborn.KernelSymbols.{KernelSymbol, SymbolLookupResult, describe, lookup_kernel_symbol}

abbrev table : ℕ → KernelSymbol
table i = record { address = 16 * i + 4096; name = some (i ∷ []); file = none; line = i }

abbrev entry : SymbolLookupResult
entry = describe (table 3) (some (3 ∷ []))

looked_up : lookup_kernel_symbol table 9 4150 ≡ entry
unfolding lookup_kernel_symbol
looked_up = refl
