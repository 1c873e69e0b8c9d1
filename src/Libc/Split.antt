-- ===== src/Libc/Split.antt =====
-- `strtok_r`, call after call, and the fields of a text between its delimiters.
use switcher_c.Base.{
  ℕ, ◌≡◌, ◌∙◌, refl, ap, ◌⊎◌, Bool, true, false, Option, none, some, List, [], ◌∷◌, inl, inr, ◌==◌,
  if◌then◌else◌, Bool-cases,
}
use switcher_c.Base.Text.{Bytes}
use switcher_c.Libc.{span, strtok, has, token_ends, strtok_in}

abbrev onto_first : ℕ → List Bytes → List Bytes
onto_first c [] = (c ∷ []) ∷ []
onto_first c (field ∷ fields) = (c ∷ field) ∷ fields

-- The fields, empty ones included.
abbrev pub split : ℕ → Bytes → List Bytes
split delim [] = [] ∷ []
split delim (c ∷ s) = if c == delim then [] ∷ split delim s else onto_first c (split delim s)

abbrev pub drop_empty : List Bytes → List Bytes
drop_empty [] = []
drop_empty ([] ∷ fields) = drop_empty fields
drop_empty ((c ∷ s) ∷ fields) = (c ∷ s) ∷ drop_empty fields

-- The tokens of a text: its fields that are not empty.
unfoldable pub tokens : ℕ → Bytes → List Bytes
tokens delim s = drop_empty (split delim s)

-- `span` takes the first field, and leaves the tokens of the others.
span-split :
    (delim : ℕ) (s : Bytes)
    → (fields : List Bytes) × (split delim s ≡ (span delim s).0 ∷ fields)
      × (drop_empty fields ≡ tokens delim (span delim s).1)
unfolding span tokens
span-split delim [] = ([], refl, refl)
span-split delim (c ∷ s) = elim (Bool-cases (c == delim)) [
  | inl is ↦ (split delim s, rw (split, is) refl, rw is refl)
  | inr differs ↦
      let (fields, first, others) = span-split delim s in
      (fields, rw (split, differs, first) refl, rw differs others)
]

-- `strtok_r` finds nothing where there are no tokens, or takes the first of them.
pub strtok-cases :
    (delim : ℕ) (s : Bytes)
    → (strtok delim s ≡ none) × (tokens delim s ≡ [])
      ⊎ (c : ℕ) × (t : Bytes) × (r : Bytes) × (strtok delim s ≡ some (c ∷ t, r))
        × (tokens delim s ≡ (c ∷ t) ∷ tokens delim r)
unfolding strtok tokens span
strtok-cases delim [] = inl (refl, refl)
strtok-cases delim (c ∷ s) = elim (Bool-cases (c == delim)) [
  | inl is ↦
      let skips : strtok delim (c ∷ s) ≡ strtok delim s = rw (strtok, is) refl in
      let drops : tokens delim (c ∷ s) ≡ tokens delim s = rw (split, is) refl in
      elim (strtok-cases delim s) [
        | inl (a, b) ↦ inl (skips ∙ a, drops ∙ b)
        | inr (x, t, r, a, b) ↦ inr (x, t, r, skips ∙ a, drops ∙ b)
      ]
  | inr differs ↦
      let (fields, first, others) = span-split delim s in
      let takes : strtok delim (c ∷ s) ≡ some (c ∷ (span delim s).0, (span delim s).1) =
        rw (strtok, differs) refl in
      let keeps : tokens delim (c ∷ s) ≡ (c ∷ (span delim s).0) ∷ tokens delim (span delim s).1 =
        rw (split, differs, first) (ap (λ ts. (c ∷ (span delim s).0) ∷ ts) others) in
      inr (c, (span delim s).0, (span delim s).1, takes, keeps)
]

abbrev onto_ended : ℕ → List Bytes → List Bytes
onto_ended c [] = []
onto_ended c (field ∷ fields) = (c ∷ field) ∷ fields

-- The fields that a delimiter ends.
abbrev pub ended_fields : ℕ → Bytes → List Bytes
ended_fields delim [] = []
ended_fields delim (c ∷ s) =
    if c == delim then [] ∷ ended_fields delim s else onto_ended c (ended_fields delim s)

unfoldable pub ended_tokens : ℕ → Bytes → List Bytes
ended_tokens delim s = drop_empty (ended_fields delim s)

ended_fields-has :
    (delim : ℕ) (s : Bytes)
    → has delim s ≡ true
    → ended_fields delim s ≡ (span delim s).0 ∷ ended_fields delim (span delim s).1
unfolding has span
ended_fields-has delim [] h = cc
ended_fields-has delim (c ∷ s) h = elim (Bool-cases (c == delim)) [
  | inl is ↦ rw (ended_fields, is) refl
  | inr differs ↦
      let later : has delim s ≡ true = rw differs at h in
      rw (ended_fields, differs, ended_fields-has delim s later) refl
]

ended_fields-lacks : (delim : ℕ) (s : Bytes) → has delim s ≡ false → ended_fields delim s ≡ []
unfolding has
ended_fields-lacks delim [] h = refl
ended_fields-lacks delim (c ∷ s) h = elim (Bool-cases (c == delim)) [
  | inl is ↦ absurd (cc (h, is))
  | inr differs ↦
      let later : has delim s ≡ false = rw differs at h in
      rw (ended_fields, differs, ended_fields-lacks delim s later) refl
]

-- In a buffer without a NUL, the same holds of the tokens that a delimiter ends.
open_strtok-cases :
    (delim : ℕ) (s : Bytes)
    → (strtok_in false delim s ≡ none) × (ended_tokens delim s ≡ [])
      ⊎ (c : ℕ) × (t : Bytes) × (r : Bytes) × (strtok_in false delim s ≡ some (some (c ∷ t, r)))
        × (ended_tokens delim s ≡ (c ∷ t) ∷ ended_tokens delim r)
unfolding strtok_in token_ends strtok span ended_tokens
open_strtok-cases delim [] = inl (refl, refl)
open_strtok-cases delim (c ∷ s) = elim (Bool-cases (c == delim)) [
  | inl is ↦
      let skips : strtok_in false delim (c ∷ s) ≡ strtok_in false delim s =
        rw (strtok_in, token_ends, strtok, is) refl in
      let drops : ended_tokens delim (c ∷ s) ≡ ended_tokens delim s = rw (ended_fields, is) refl in
      elim (open_strtok-cases delim s) [
        | inl (a, b) ↦ inl (skips ∙ a, drops ∙ b)
        | inr (x, t, r, a, b) ↦ inr (x, t, r, skips ∙ a, drops ∙ b)
      ]
  | inr differs ↦ elim (Bool-cases (has delim s)) [
    | inl more ↦
        let takes : strtok_in false delim (c ∷ s)
            ≡ some (some (c ∷ (span delim s).0, (span delim s).1)) =
          rw (strtok_in, token_ends, strtok, differs, more) refl in
        let keeps : ended_tokens delim (c ∷ s)
            ≡ (c ∷ (span delim s).0) ∷ ended_tokens delim (span delim s).1 =
          rw (ended_fields, differs, ended_fields-has delim s more) refl in
        inr (c, (span delim s).0, (span delim s).1, takes, keeps)
    | inr last ↦
        let leaves : strtok_in false delim (c ∷ s) ≡ none =
          rw (strtok_in, token_ends, differs, last) refl in
        let drops : ended_tokens delim (c ∷ s) ≡ [] =
          rw (ended_fields, differs, ended_fields-lacks delim s last) refl in
        inl (leaves, drops)
  ]
]

-- The tokens that a full buffer has: where no NUL ends it, those that a delimiter ends.
abbrev pub buffer_tokens : Bool → ℕ → Bytes → List Bytes
buffer_tokens true delim s = tokens delim s
buffer_tokens false delim s = ended_tokens delim s

-- Where there is no token, the search ends at the NUL or leaves the buffer.
abbrev pub no_token : {A : Type 0} → Bool → Option (Option A)
no_token true = some none
no_token false = none

-- `strtok_r` takes the tokens one after the other.
pub strtok_in-cases :
    (closed : Bool) (delim : ℕ) (s : Bytes)
    → (strtok_in closed delim s ≡ no_token closed) × (buffer_tokens closed delim s ≡ [])
      ⊎ (c : ℕ) × (t : Bytes) × (r : Bytes) × (strtok_in closed delim s ≡ some (some (c ∷ t, r)))
        × (buffer_tokens closed delim s ≡ (c ∷ t) ∷ buffer_tokens closed delim r)
unfolding strtok_in
strtok_in-cases true delim s = elim (strtok-cases delim s) [
  | inl (a, b) ↦ inl (ap some a, b)
  | inr (x, t, r, a, b) ↦ inr (x, t, r, ap some a, b)
]
strtok_in-cases false delim s = open_strtok-cases delim s
