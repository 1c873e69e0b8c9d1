-- ===== src/Libc.antt =====
-- The C library functions that the source calls on byte strings: `strtol`, `strtoul`, `strncmp`,
-- `strtok_r` and the conversions of `snprintf`. A byte string holds no NUL.
pub mod Numbers
pub mod Tokens
pub mod Split
pub mod Numerals
use switcher_c.Base.{
  ℕ, zero, suc, ◌+◌, ◌-◌, ◌*◌, ◌/◌, ◌%◌, Bool, true, false, ◌&&◌, ◌||◌, not, Option, none, some, [],
  ◌∷◌, map, ltb, leb, ◌==◌, if◌then◌else◌,
}
use switcher_c.Base.Int.{ℤ, pos, negsuc}
use switcher_c.Base.Lists.{length, take, equal}
use switcher_c.Base.Text.{Bytes}

-- `strncmp(a, b, n) == 0`.
unfoldable pub strncmp_eq : Bytes → Bytes → ℕ → Bool
unfolding equal
strncmp_eq a b n = equal (take n a) (take n b)

unfoldable pub is_space : ℕ → Bool
is_space c = c == 32 || (leb 9 c && leb c 13)

-- The value of a digit in the given base, up to 36.
unfoldable pub digit_value : ℕ → ℕ → Option ℕ
digit_value base c =
    let v =
      if leb b'0' c && leb c b'9'
      then c - b'0'
      else if leb b'a' c && leb c b'z'
      then c - b'a' + 10
      else if leb b'A' c && leb c b'Z'
      then c - b'A' + 10
      else 36 in
    if ltb v base then some v else none

unfoldable pub skip_space : Bytes → Bytes
skip_space [] = []
skip_space (c ∷ s) = if is_space c then skip_space s else c ∷ s

-- A number and the bytes behind it.
pub record Parsed (A : Type 0) : Type 0 where
  pub number : A
  pub endptr : Bytes

-- `*endptr == '\0'`.
abbrev pub at_end : Bytes → Bool
at_end [] = true
at_end (_ ∷ _) = false

abbrev pub parsed : {A : Type 0} → A → Bytes → Parsed A
parsed n s = record { number = n; endptr = s }

-- Reads digits as long as there are any.
unfoldable pub digits_from : ℕ → ℕ → Bytes → Parsed ℕ
digits_from base acc [] = parsed acc []
digits_from base acc (c ∷ s) = elim (digit_value base c) [
  | none ↦ parsed acc (c ∷ s)
  | some d ↦ digits_from base (acc * base + d) s
]

-- Whether a digit stands first.
unfoldable pub starts_digit : ℕ → Bytes → Bool
starts_digit base [] = false
starts_digit base (c ∷ s) = elim (digit_value base c) [ none ↦ false | some _ ↦ true ]

-- Skips `0x` in base 16, if a digit follows it.
unfoldable pub skip_prefix : ℕ → Bytes → Bytes
skip_prefix base (z ∷ x ∷ s) =
    if base == 16 && z == b'0' && (x == b'x' || x == b'X') && starts_digit 16 s
    then s
    else z ∷ x ∷ s
skip_prefix base s = s

pub record Signed : Type 0 where
  pub negative : Bool
  pub digits : Bytes

unfoldable pub take_sign : Bytes → Signed
take_sign [] = record { negative = false; digits = [] }
take_sign (c ∷ s) =
    if c == b'-'
    then record { negative = true; digits = s }
    else if c == b'+'
    then record { negative = false; digits = s }
    else record { negative = false; digits = c ∷ s }

abbrev pub long_max : ℕ
long_max = 9223372036854775807

-- `strtol` on a 64-bit `long`: saturates, and returns 0 at the start of the text if there are no
-- digits.
unfoldable pub strtol : Bytes → ℕ → Parsed ℤ
strtol s base =
    let signed = take_sign (skip_space s) in
    let start = skip_prefix base signed.digits in
    let r = digits_from base 0 start in
    if not (starts_digit base start)
    then parsed (pos 0) s
    else if signed.negative
    then parsed
        (if r.number == 0
          then pos 0
          else if ltb long_max r.number
          then negsuc long_max
          else negsuc (r.number - 1))
        r.endptr
    else parsed (pos (if ltb long_max r.number then long_max else r.number)) r.endptr

abbrev pub ulong_max : ℕ
ulong_max = 18446744073709551615

-- `strtoul` on a 64-bit `unsigned long`: saturates; a sign negates modulo 2^64.
unfoldable pub strtoul : Bytes → ℕ → Parsed ℕ
strtoul s base =
    let signed = take_sign (skip_space s) in
    let start = skip_prefix base signed.digits in
    let r = digits_from base 0 start in
    if not (starts_digit base start)
    then parsed 0 s
    else if ltb ulong_max r.number
    then parsed ulong_max r.endptr
    else parsed (if signed.negative then (ulong_max + 1 - r.number) % (ulong_max + 1) else r.number)
        r.endptr

-- The bytes up to the first delimiter, and those behind it.
unfoldable pub span : ℕ → Bytes → Bytes × Bytes
span delim [] = ([], [])
span delim (c ∷ s) = if c == delim then ([], s) else (c ∷ (span delim s).0, (span delim s).1)

-- `strtok_r` with one delimiter: the next token, if there is one, and what is kept for the next call.
unfoldable pub strtok : ℕ → Bytes → Option (Bytes × Bytes)
strtok delim [] = none
strtok delim (c ∷ s) = if c == delim then strtok delim s else some (span delim (c ∷ s))

-- Whether a byte occurs.
unfoldable pub has : ℕ → Bytes → Bool
has delim [] = false
has delim (c ∷ s) = c == delim || has delim s

-- Whether a delimiter stands behind the first token.
unfoldable pub token_ends : ℕ → Bytes → Bool
unfolding has
token_ends delim [] = false
token_ends delim (c ∷ s) = if c == delim then token_ends delim s else has delim s

-- `strtok_r` on a buffer that is full, which a NUL ends only if it is `closed`: `none` where the
-- search for the token or for its end leaves the buffer.
unfoldable pub strtok_in : Bool → ℕ → Bytes → Option (Option (Bytes × Bytes))
unfolding token_ends
strtok_in closed delim s = if closed || token_ends delim s then some (strtok delim s) else none

-- One digit of `%d` or `%x`, and the digits of a number, on fuel for the number of digits.
unfoldable pub print_digit : ℕ → ℕ
print_digit d = if ltb d 10 then b'0' + d else b'a' + (d - 10)

unfoldable pub print_onto : ℕ → ℕ → ℕ → Bytes → Bytes
print_onto base zero n acc = acc
print_onto base (suc fuel) n acc =
    let rest = print_onto base fuel (n / base) (print_digit (n % base) ∷ acc) in
    if ltb n base then print_digit n ∷ acc else rest

-- A 32-bit number has at most 32 digits in any base, so 33 rounds print all of it.
unfoldable pub print_ℕ : ℕ → ℕ → Bytes
print_ℕ base n = print_onto base 33 n []

-- `%d` and `%x`.
unfoldable pub format_d : ℤ → Bytes
unfolding print_ℕ
format_d (pos n) = print_ℕ 10 n
format_d (negsuc n) = b'-' ∷ print_ℕ 10 (n + 1)

unfoldable pub format_x : ℕ → Bytes
unfolding print_ℕ
format_x n = print_ℕ 16 n

unfoldable pub to_upper : ℕ → ℕ
to_upper c = if leb b'a' c && leb c b'z' then c - 32 else c

-- `%02X`.
unfoldable pub format_02x : ℕ → Bytes
unfolding format_x to_upper
format_02x n = let s = map to_upper (format_x n) in if ltb (length s) 2 then b'0' ∷ s else s

-- What `snprintf` leaves in a buffer of the given size.
abbrev pub snprintf : ℕ → Bytes → Bytes
snprintf size s = take (size - 1) s
