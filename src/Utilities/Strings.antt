-- ===== src/Utilities/Strings.antt =====
-- SplitString of code/Utilities/DMString.h, and what the dates use of the C++ library: numbers written
-- with `setw` and `setfill`, and `stoi`.
pub mod Numerals
pub mod Pieces
use azure_client_tools.Base.{
  ℕ, zero, suc, ◌+◌, ◌-◌, ◌*◌, ◌/◌, ◌%◌, ◌^◌, Bool, true, false, ◌&&◌, ◌||◌, List, [], ◌∷◌, ◌++◌,
  Text, codes, length, ltb, leb, ◌==◌, if◌then◌else◌, ℤ, pos, negsuc, Result, ok, err,
}
use azure_client_tools.Reporting.{Exception, std}

-- What follows the last delimiter is an item unless it is empty. `item` is what was read of the item.
unfoldable pub split_item : ℕ → Text → Text → List Text
split_item delim item [] = if length item == 0 then [] else item ∷ []
split_item delim item (c ∷ s) =
    if c == delim then item ∷ split_item delim [] s else split_item delim (item ++ c ∷ []) s

unfoldable pub split_string : ℕ → Text → List Text
unfolding split_item
split_string delim s = split_item delim [] s

-- `<<` of an unsigned number, which has at most one digit more than the fuel. A number of 32 bits has at
-- most ten.
unfoldable pub decimal_digits : ℕ → ℕ → Text
decimal_digits zero n = (b'0' + n % 10) ∷ []
decimal_digits (suc fuel) n =
    let rest = decimal_digits fuel (n / 10) in
    if ltb n 10 then (b'0' + n) ∷ [] else rest ++ (b'0' + n % 10) ∷ []

unfoldable pub zeros : ℕ → Text → Text
zeros zero s = s
zeros (suc k) s = b'0' ∷ zeros k s

-- `setw(width) << setfill('0') << n`.
unfoldable pub padded : ℕ → ℕ → Text
unfolding decimal_digits zeros
padded width n = let s = decimal_digits 9 n in zeros (width - length s) s

abbrev pub is_digit : ℕ → Bool
is_digit c = leb b'0' c && leb c b'9'

abbrev pub is_space : ℕ → Bool
is_space c = (c == b' ') || (leb 9 c && leb c 13)

unfoldable pub skip_spaces : Text → Text
skip_spaces [] = []
skip_spaces (c ∷ s) = let rest = skip_spaces s in if is_space c then rest else c ∷ s

unfoldable pub read_digits : ℕ → Text → ℕ
read_digits n [] = n
read_digits n (c ∷ s) =
    let rest = read_digits (n * 10 + (c - b'0')) s in if is_digit c then rest else n

abbrev pub invalid_stoi : Exception
invalid_stoi = std (codes "invalid stoi argument")

abbrev pub stoi_out_of_range : Exception
stoi_out_of_range = std (codes "stoi argument out of range")

abbrev pub negated : ℕ → ℤ
negated zero = pos zero
negated (suc n) = negsuc n

abbrev pub in_range : Bool → ℕ → Result Exception ℤ
in_range true n = if ltb (2 ^ 31) n then err stoi_out_of_range else ok (negated n)
in_range false n = if ltb (2 ^ 31 - 1) n then err stoi_out_of_range else ok (pos n)

abbrev pub read_number : Bool → Text → Result Exception ℤ
read_number negative [] = err invalid_stoi
read_number negative (c ∷ s) =
    if is_digit c then in_range negative (read_digits 0 (c ∷ s)) else err invalid_stoi

abbrev pub signed_number : Text → Result Exception ℤ
signed_number [] = err invalid_stoi
signed_number (c ∷ s) =
    if c == b'-'
    then read_number true s
    else if c == b'+'
    then read_number false s
    else read_number false (c ∷ s)

-- std::stoi.
unfoldable pub stoi : Text → Result Exception ℤ
unfolding skip_spaces read_digits
stoi s = signed_number (skip_spaces s)
