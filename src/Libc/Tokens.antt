-- ===== src/Libc/Tokens.antt =====
-- `strtok_r` on text whose tokens are printed numbers.
use switcher_c.Base.{ℕ, ◌≡◌, ◌≢◌, refl, false, none, some, [], ◌∷◌, ◌++◌, arith, ◌==◌}
use switcher_c.Base.Lists.{All}
use switcher_c.Base.Text.{Bytes}
use switcher_c.Libc.{span, strtok}

-- No byte is the delimiter.
abbrev pub Avoids : ℕ → Bytes → Type 0
Avoids delim = All (λ c. (c == delim) ≡ false)

span-Avoids : (delim : ℕ) (s : Bytes) → Avoids delim s → span delim s ≡ (s, [])
unfolding span
span-Avoids delim [] a = refl
span-Avoids delim (c ∷ s) (ne, a) = rw (ne, span-Avoids delim s a)

span-append :
    (delim : ℕ) (s rest : Bytes) → Avoids delim s → span delim (s ++ delim ∷ rest) ≡ (s, rest)
unfolding span
span-append delim [] rest a = ground arith
span-append delim (c ∷ s) rest (ne, a) = rw (ne, span-append delim s rest a)

-- The last token.
pub strtok-last : (delim : ℕ) (s : Bytes) → s ≢ [] → Avoids delim s → strtok delim s ≡ some (s, [])
unfolding strtok
strtok-last delim [] ne a = absurd (ne refl)
strtok-last delim (c ∷ s) ne (h, a) = rw (h, span-Avoids delim (c ∷ s) (h, a))

-- A token with more behind it.
pub strtok-append :
    (delim : ℕ) (s rest : Bytes)
    → s ≢ []
    → Avoids delim s
    → strtok delim (s ++ delim ∷ rest) ≡ some (s, rest)
unfolding strtok
strtok-append delim [] rest ne a = absurd (ne refl)
strtok-append delim (c ∷ s) rest ne (h, a) = rw (h, span-append delim (c ∷ s) rest (h, a))

-- Delimiters in front are skipped.
pub strtok-skip : (delim : ℕ) (s : Bytes) → strtok delim (delim ∷ s) ≡ strtok delim s
unfolding strtok
strtok-skip delim s = ground arith

-- No token is left.
pub strtok-nil : (delim : ℕ) → strtok delim [] ≡ none
unfolding strtok
strtok-nil delim = refl
