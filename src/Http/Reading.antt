-- ===== src/Http/Reading.antt =====
-- src/http.c: what the tokens of a URI ask for, read without the loop of `parse_uri`.
use switcher_c.Base.{◌%◌, Bool, Option, none, some, List, [], ◌∷◌, if◌then◌else◌}
use switcher_c.Base.Int.{ℤ, to_int32, u32_mod}
use switcher_c.Base.Text.{Bytes}
use switcher_c.Config.{IoData, init_io_data}
use switcher_c.Http.{RequestT, request_err, request_get, request_set}
use switcher_c.Libc.Numerals.{Numeral, numeral, to_long, to_ulong}
use switcher_c.Libc.Split.{tokens}

-- What a URI asks for; `beyond` is undefined behaviour.
pub data Reading : Type 0 where
  beyond refused : Reading
  asks_get asks_set : IoData → Reading

-- The parts of a request that is refused are not looked at.
abbrev pub view : Option (RequestT × IoData) → Reading
view none = beyond
view (some (request_err, p)) = refused
view (some (request_get, p)) = asks_get p
view (some (request_set, p)) = asks_set p

-- A text that is to be a number.
abbrev pub number : Option Numeral → (Numeral → Reading) → Reading
number none k = refused
number (some n) k = k n

abbrev pub index : Numeral → ℤ
index n = to_int32 (to_long n)

-- The numbers of the device's text.
abbrev pub read_sub : List Bytes → IoData → (IoData → Reading) → Reading
read_sub [] p k = k p
read_sub (sub ∷ _) p k = number (numeral 10 sub) (λ n. k (record p { idx_sub_dev = index n }))

abbrev pub read_dev : List Bytes → IoData → (IoData → Reading) → Reading
read_dev [] p k = beyond
read_dev (dev ∷ rest) p k =
    number (numeral 10 dev) (λ n. read_sub rest (record p { idx_dev = index n }) k)

-- A search for a token that is not there leaves a buffer that no NUL ends.
abbrev pub missing : Bool → Reading → Reading
missing closed r = if closed then r else beyond

abbrev pub read_end : Bool → IoData → List Bytes → Reading
read_end closed p [] = missing closed (asks_set p)
read_end closed p (_ ∷ _) = asks_set p

abbrev pub read_value : Bool → IoData → List Bytes → Reading
read_value closed p [] = missing closed (asks_get p)
read_value closed p (value ∷ rest) =
    number (numeral 16 value)
      (λ n. read_end closed (record p { value = to_ulong n % u32_mod }) rest)

abbrev pub read_device : Bool → IoData → List Bytes → Reading
read_device closed p [] = missing closed refused
read_device closed p (dev ∷ rest) = read_dev (tokens b'.' dev) p (λ q. read_value closed q rest)

-- A URI as the list of its tokens.
abbrev pub read_tokens : Bool → List Bytes → Reading
read_tokens closed [] = missing closed refused
read_tokens closed (bus ∷ rest) =
    number (numeral 10 bus)
      (λ n. read_device closed (record init_io_data { idx_bus = index n }) rest)
