-- ===== src/Tests/Text.antt =====
-- kernel/src/lib/string.cpp on the texts "ab" and "ac".
use epsilon_os.Base.{ℕ, zero, suc, ◌+◌, ◌<◌, ◌≡◌, ◌≢◌, refl, arith, [], ◌∷◌, get_or}
use epsilon_os.CString.{Memory, memmove}
use epsilon_os.CString.Copies.{IsText, memmove_lem}

-- "ab" at 1 and "ac" at 4.
abbrev text : Memory
text a = get_or (0 ∷ 97 ∷ 98 ∷ 0 ∷ 97 ∷ 99 ∷ 0 ∷ []) a 0

text-ab : IsText text 1 2
text-ab = (filled, refl)
  where
    filled : (j : ℕ) → j < 2 → text (1 + j) ≢ 0
    filled zero h = omega arith
    filled (suc zero) h = omega arith
    filled (suc (suc j)) h = absurd (omega arith)

text-agree : (j : ℕ) → j < 1 → (text (1 + j) ≡ text (4 + j)) × (text (1 + j) ≢ 0)
text-agree zero h = (refl, omega arith)
text-agree (suc j) h = absurd (omega arith)

memmove_lem_example : memmove 2 1 3 text 3 ≡ 98
memmove_lem_example = memmove_lem 2 1 3 text 3
