-- ===== src/Base/Whole.antt =====
-- Whole numbers as decimals, on which the tests run the definitions. A sign is read and dropped.
use Prim.Native.Char.{code}
use Prim.Native.String.{String, [], ◌∷◌, ◌++◌, slice}
use cryptotracker.Base.{
  ℕ, zero, suc, ◌+◌, ◌-◌, ◌*◌, ◌/◌, ◌%◌, min, max, ltb, leb, ◌==◌, refl, true, ◌&&◌, Option, none,
  some, if◌then◌else◌, sum,
}
use cryptotracker.Base.Decimals.{Decimals, Exact}

-- The digits that follow those read so far.
abbrev read : String → ℕ → Option ℕ
read [] n = some n
read (c ∷ text) n =
    if leb 48 (code c) && leb (code c) 57 then read text (10 * n + (code c - 48)) else none

abbrev parse : String → Option ℕ
parse [] = none
parse (c ∷ text) = if code c == 45 then read text 0 else read (c ∷ text) 0

abbrev digit : ℕ → String
digit n = slice "0123456789" n (suc n)

-- The digits of `n`, at most as many as the fuel; the tests use numbers of less than nine digits.
abbrev show_digits : ℕ → ℕ → String → String
show_digits zero n text = text
show_digits (suc fuel) n text =
    let digits = digit (n % 10) ++ text in
    if n / 10 == 0 then digits else show_digits fuel (n / 10) digits

abbrev pub whole : Decimals
whole = record {
  Decimal = ℕ;
  parse = parse;
  show = λ n. show_digits 9 n "";
  rounded_to = λ places n. n;
  of_ℕ = λ n. n;
  plus = λ a b. a + b;
  minus = λ a b. a - b;
  times = λ a b. a * b;
  divided_by = λ a b. a / b;
  abs = λ n. n;
  is_zero = λ n. n == 0;
  is_finite = λ n. true;
  equals = λ a b. a == b;
  greater_than = λ a b. ltb b a;
  at_least = λ a b. leb b a;
  at_most = λ a b. leb a b;
  lesser = λ a b. min a b;
  greater = λ a b. max a b;
  total = λ ns. sum ns;
}

abbrev pub whole_exact : Exact whole
whole_exact = record {
  IsQuantity = λ n. Unit;
  units = λ n. n;
  bound = 1000000;
  zero_exact = (tt, refl);
  lesser_exact = λ a b p q. (tt, refl);
  greater_exact = λ a b p q. (tt, refl);
  minus_exact = λ a b p q h. (tt, refl);
  plus_exact = λ a b p q h. (tt, refl);
  is_zero_exact = λ a p. refl;
  greater_than_exact = λ a b p q. refl;
}
