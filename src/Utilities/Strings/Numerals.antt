-- ===== src/Utilities/Strings/Numerals.antt =====
-- A number that is written is read back.
use azure_client_tools.Base.{
  ℕ, zero, suc, ◌+◌, ◌-◌, ◌*◌, ◌/◌, ◌%◌, ◌^◌, ◌<◌, ◌≡◌, refl, ◌∙◌, true, false, [], ◌∷◌, ◌++◌, Text,
  length, length-append, ltb, ◌==◌, pos, ok, arith, Bool-cases, inl, inr,
}
use azure_client_tools.Utilities.Strings.{
  decimal_digits, zeros, padded, is_digit, is_space, skip_spaces, read_digits, stoi, read_number,
}

abbrev pub AllDigits : Text → Type 0
AllDigits [] = Unit
AllDigits (c ∷ s) = (is_digit c ≡ true) × AllDigits s

pub append-AllDigits : (s t : Text) → AllDigits s → AllDigits t → AllDigits (s ++ t)
append-AllDigits [] t a b = b
append-AllDigits (c ∷ s) t a b = (a.0, append-AllDigits s t (a.1) b)

is_digit_lem : (n : ℕ) → n < 10 → is_digit (b'0' + n) ≡ true
is_digit_lem n h = ground arith

decimal_digits-AllDigits : (f n : ℕ) → AllDigits (decimal_digits f n)
unfolding decimal_digits
decimal_digits-AllDigits zero n = (is_digit_lem (n % 10) (omega arith), tt)
decimal_digits-AllDigits (suc f) n = elim (Bool-cases (ltb n 10)) [
  | inl h ↦ rw h (is_digit_lem n (ground arith), tt)
  | inr h ↦ rw h (
      append-AllDigits (decimal_digits f (n / 10)) _ (decimal_digits-AllDigits f (n / 10))
        (is_digit_lem (n % 10) (omega arith), tt))
]

-- Ten to the power of the number of digits.
abbrev ceiling : ℕ → ℕ
ceiling zero = 10
ceiling (suc f) = 10 * ceiling f

read_digits-append :
    (s : Text) (n d : ℕ)
    → AllDigits s
    → d < 10
    → read_digits n (s ++ (b'0' + d) ∷ []) ≡ read_digits n s * 10 + d
unfolding read_digits
read_digits-append [] n d a h = rw (is_digit_lem d h) (omega arith)
read_digits-append (c ∷ s) n d a h = rw (a.0) (read_digits-append s _ d (a.1) h)

read_digits-decimal_digits : (f n : ℕ) → n < ceiling f → read_digits 0 (decimal_digits f n) ≡ n
unfolding decimal_digits read_digits
read_digits-decimal_digits zero n h = rw (is_digit_lem (n % 10) (omega arith)) (omega arith)
read_digits-decimal_digits (suc f) n h = elim (Bool-cases (ltb n 10)) [
  | inl small ↦ rw small (rw (is_digit_lem n (ground arith)) (omega arith))
  | inr big ↦ rw big (
      read_digits-append (decimal_digits f (n / 10)) 0 (n % 10)
        (decimal_digits-AllDigits f (n / 10)) (omega arith)
      ∙ rw (read_digits-decimal_digits f (n / 10) (omega arith)) (omega arith))
]

read_digits-zeros : (k : ℕ) (s : Text) → read_digits 0 (zeros k s) ≡ read_digits 0 s
unfolding zeros read_digits
read_digits-zeros zero s = refl
read_digits-zeros (suc k) s = read_digits-zeros k s

zeros-AllDigits : (k : ℕ) (s : Text) → AllDigits s → AllDigits (zeros k s)
unfolding zeros
zeros-AllDigits zero s a = a
zeros-AllDigits (suc k) s a = (refl, zeros-AllDigits k s a)

pub padded-AllDigits : (w n : ℕ) → AllDigits (padded w n)
unfolding padded
padded-AllDigits w n = zeros-AllDigits _ _ (decimal_digits-AllDigits 9 n)

read_digits-padded : (w n : ℕ) → n < 10 ^ 10 → read_digits 0 (padded w n) ≡ n
unfolding padded
read_digits-padded w n h =
    read_digits-zeros _ (decimal_digits 9 n) ∙ read_digits-decimal_digits 9 n h

digit_starts :
    (c : ℕ)
    → is_digit c ≡ true
    → (is_space c ≡ false) × ((c == b'-') ≡ false) × ((c == b'+') ≡ false)
digit_starts c h = (ground arith, ground arith, ground arith)

read_number-digit :
    (c : ℕ) (s : Text) (n : ℕ)
    → is_digit c ≡ true
    → read_digits 0 (c ∷ s) ≡ n
    → n < 2 ^ 31
    → read_number false (c ∷ s) ≡ ok (pos n)
read_number-digit c s n d e small = rw (d, e) (ground arith)

-- A text of digits that is a number of 31 bits.
stoi-AllDigits :
    (s : Text) (n : ℕ)
    → AllDigits s
    → 0 < length s
    → read_digits 0 s ≡ n
    → n < 2 ^ 31
    → stoi s ≡ ok (pos n)
unfolding stoi skip_spaces
stoi-AllDigits [] n a some_digit e small = absurd (omega arith)
stoi-AllDigits (c ∷ s) n (d, a) some_digit e small =
    let (no_space, no_minus, no_plus) = digit_starts c d in
    rw (no_space, no_minus, no_plus) (read_number-digit c s n d e small)

length-decimal_digits : (f n : ℕ) → 0 < length (decimal_digits f n)
unfolding decimal_digits
length-decimal_digits zero n = omega arith
length-decimal_digits (suc f) n = elim (Bool-cases (ltb n 10)) [
  | inl h ↦ rw h (omega arith)
  | inr h ↦ rw h (omega (arith, length-append (decimal_digits f (n / 10)) ((b'0' + n % 10) ∷ [])))
]

length-zeros : (k : ℕ) (s : Text) → length (zeros k s) ≡ k + length s
unfolding zeros
length-zeros zero s = omega arith
length-zeros (suc k) s = omega (arith, length-zeros k s)

pub length-padded : (w n : ℕ) → 0 < length (padded w n)
unfolding padded
length-padded w n = omega (
  arith,
  length-zeros (w - length (decimal_digits 9 n)) (decimal_digits 9 n),
  length-decimal_digits 9 n,
)

-- A number of 31 bits is read back, whatever its width.
pub stoi-padded : (w n : ℕ) → n < 2 ^ 31 → stoi (padded w n) ≡ ok (pos n)
stoi-padded w n h =
    stoi-AllDigits (padded w n) n (padded-AllDigits w n) (length-padded w n)
      (read_digits-padded w n (omega arith)) h
