-- ===== src/Common/Words.antt =====
-- Go's int64 in two's complement, and strconv.Atoi.
use Prim.Native.Nat.{ℕ, ◌+◌, ◌-◌, ◌*◌, ◌%◌, ◌^◌}
use mathlib.Core.Bool.{Bool, ◌&&◌}
use mathlib.Core.Option.{Option, none, some}
use mathlib.Core.List.{[], ◌∷◌}
use native.Mathlib.Omega.{arith}
use mathlib.Core.Path.{◌≡◌}
use mathlib.Core.Logic.{inl, inr}
use mathlib.Core.Bool.{true}
use Prim.Native.Nat.{zero, suc, ◌/◌, ◌<◌, ◌≤◌, min}
use automation_agent.Common.Tests.{Bool-cases, none-some, ltb, leb, ◌==◌, if◌then◌else◌}
use automation_agent.Common.Texts.{Text}

-- `negsuc n` is -(n + 1).
pub data ℤ : Type 0 where
  pos : ℕ → ℤ
  negsuc : ℕ → ℤ

-- The int64 of a number, modulo 2 ^ 64.
abbrev pub signed_64 : ℕ → ℤ
signed_64 n =
    if ltb (n % 2 ^ 64) (2 ^ 63) then pos (n % 2 ^ 64) else negsuc (2 ^ 64 - 1 - n % 2 ^ 64)

abbrev pub is_digit : ℕ → Bool
is_digit c = leb b'0' c && leb c b'9'

-- The value of a text that holds digits alone.
unfoldable pub digits_from : ℕ → Text → Option ℕ
digits_from acc [] = some acc
digits_from acc (c ∷ s) =
    let rest = digits_from (acc * 10 + (c - b'0')) s in if is_digit c then rest else none

unfoldable pub digits : Text → Option ℕ
unfolding digits_from
digits [] = none
digits (c ∷ s) = digits_from 0 (c ∷ s)

-- The word of a magnitude within `limit`, by `word`.
abbrev in_range : ℕ → (ℕ → ℕ) → Option ℕ → Option ℕ
in_range limit word none = none
in_range limit word (some n) = if leb n limit then some (word n) else none

abbrev positive : Option ℕ → Option ℕ
positive = in_range (2 ^ 63 - 1) (λ n. n)

abbrev negative : Option ℕ → Option ℕ
negative = in_range (2 ^ 63) (λ n. (2 ^ 64 - n) % 2 ^ 64)

-- strconv.Atoi (and ParseInt at base 10): the word in two's complement, or `none` for an error.
unfoldable pub atoi : Text → Option ℕ
unfolding digits
atoi [] = none
atoi (c ∷ s) =
    if c == b'-'
    then negative (digits s)
    else if c == b'+'
    then positive (digits s)
    else positive (digits (c ∷ s))

abbrev clamp : Option ℕ → ℕ → ℕ
clamp none limit = 0
clamp (some n) limit = min n limit

-- The value as an unsigned word: from the digit on at which it runs over, the rest is not looked at.
unfoldable pub word_from : ℕ → Text → Option ℕ
word_from acc [] = some acc
word_from acc (c ∷ s) =
    let next = acc * 10 + (c - b'0') in
    let rest = word_from next s in
    if is_digit c then (if leb (2 ^ 64) next then some (2 ^ 64 - 1) else rest) else none

unfoldable pub word : Text → Option ℕ
unfolding word_from
word [] = none
word (c ∷ s) = word_from 0 (c ∷ s)

-- The number that Atoi returns beside its error: 0 for a syntax error, the nearest int64 for a
-- value out of range.
unfoldable pub atoi_value : Text → ℤ
unfolding word
atoi_value [] = pos 0
atoi_value (c ∷ s) =
    if c == b'-'
    then signed_64 (2 ^ 64 - clamp (word s) (2 ^ 63))
    else if c == b'+'
    then pos (clamp (word s) (2 ^ 63 - 1))
    else pos (clamp (word (c ∷ s)) (2 ^ 63 - 1))

-- `%d` of a number that is not negative. The digits of `n` in front of `rest`; `n` itself is fuel enough.
unfoldable pub decimal_from : ℕ → ℕ → Text → Text
decimal_from zero n rest = rest
decimal_from (suc fuel) n rest =
    let more = decimal_from fuel (n / 10) ((b'0' + n % 10) ∷ rest) in
    if ltb n 10 then (b'0' + n) ∷ rest else more

unfoldable pub decimal : ℕ → Text
unfolding decimal_from
decimal n = decimal_from (suc n) n []

-- `%d` of a number.
abbrev pub decimal_int : ℤ → Text
decimal_int (pos n) = decimal n
decimal_int (negsuc n) = b'-' ∷ decimal (n + 1)

digits_from-decimal_from :
    (fuel n : ℕ) (rest : Text)
    → n < fuel
    → digits_from 0 (decimal_from fuel n rest) ≡ digits_from n rest
unfolding digits_from decimal_from
digits_from-decimal_from zero n rest h = elim h [ ]
digits_from-decimal_from (suc fuel) n rest h =
    ground (arith, digits_from-decimal_from fuel (n / 10) ((b'0' + n % 10) ∷ rest))

-- The first character is a digit, so a printed number has no sign.
decimal_from-cons :
    (fuel n : ℕ) (rest : Text)
    → n < fuel
    → (c : ℕ) × (s : Text) × (decimal_from fuel n rest ≡ c ∷ s) × (is_digit c ≡ true)
unfolding decimal_from
decimal_from-cons zero n rest h = elim h [ ]
decimal_from-cons (suc fuel) n rest h = elim (Bool-cases (ltb n 10)) [
  | inl small ↦ (b'0' + n, rest, rw small, ground (arith, small))
  | inr large ↦
      let (c, s, e, d) =
        decimal_from-cons fuel (n / 10) ((b'0' + n % 10) ∷ rest) (ground (arith, large, h)) in
      (c, s, rw large e, d)
]

digits_from-grows : (acc n : ℕ) (s : Text) → digits_from acc s ≡ some n → acc ≤ n
unfolding digits_from
digits_from-grows acc n [] h = ground (arith, h)
digits_from-grows acc n (c ∷ s) h = elim (Bool-cases (is_digit c)) [
  | inl good ↦
      omega (arith, digits_from-grows (acc * 10 + (c - b'0')) n s (rw (good, digits_from) at h))
  | inr bad ↦ absurd (none-some (rw (bad, digits_from) at h))
]

-- A number that fits is read as the word that it is.
word_from-digits_from :
    (acc n : ℕ) (s : Text) → n < 2 ^ 64 → digits_from acc s ≡ some n → word_from acc s ≡ some n
unfolding digits_from word_from
word_from-digits_from acc n [] fits h = h
word_from-digits_from acc n (c ∷ s) fits h = elim (Bool-cases (is_digit c)) [
  | inl good ↦
      let next = acc * 10 + (c - b'0') in
      let more = rw (good, digits_from) at h in
      let small = digits_from-grows next n s more in
      rw (good, word_from) (ground (arith, small, fits, word_from-digits_from next n s fits more))
  | inr bad ↦ absurd (none-some (rw (bad, digits_from) at h))
]

pub atoi_value-decimal : (n : ℕ) → n < 2 ^ 63 → atoi_value (decimal n) ≡ pos n
unfolding atoi_value decimal digits_from
atoi_value-decimal n h =
    let (c, s, e, d) = decimal_from-cons (suc n) n [] (omega arith) in
    let v = digits_from-decimal_from (suc n) n [] (omega arith) in
    let u = word_from-digits_from 0 n (c ∷ s) (omega arith) (rw e at v) in
    rw (e, atoi_value) (rw (word, u) (ground (arith, d, h)))
