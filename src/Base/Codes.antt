-- ===== src/Base/Codes.antt =====
-- Texts that the program walks through, as lists of their UTF-16 code units, with the methods of JavaScript's strings.
use Prim.Native.Char.{code}
use Prim.Native.String.{String}
use mathlib.Core.Path.{◌≡◌, refl, sym, ap, ap₂, ◌∙◌}
use mathlib.Core.Logic.{◌↔◌, inl, inr}
use native.Mathlib.Omega.{arith}
use mathlib.Core.Bool.{Bool, true, false, ◌&&◌, ◌||◌, not}
use mathlib.Core.Option.{Option, none, some}
use mathlib.Core.List.{List, [], ◌∷◌, ◌++◌, reverse, nil≢cons}
use Prim.Native.Nat.{ℕ, ◌+◌, ◌-◌, ◌*◌}
use cryptotracker.Base.Tests.{leb, ◌==◌, ==_iff, Bool-cases, if◌then◌else◌}
use cryptotracker.Base.Lists.{all}

abbrev pub Text : Type 0
Text = List ℕ

-- The units of a text of ASCII characters.
abbrev pub codes : String → Text
codes String.[] = []
codes (String.◌∷◌ c s) = code c ∷ codes s

unfoldable pub same_codes : Text → Text → Bool
same_codes [] [] = true
same_codes (c ∷ s) (d ∷ t) = c == d && same_codes s t
same_codes _ _ = false

-- The white space and line terminators that `trim` removes.
unfoldable pub is_space : ℕ → Bool
is_space c =
    (leb 9 c && leb c 13)
    || c == 32
    || c == 160
    || c == 0x1680
    || (leb 0x2000 c && leb c 0x200a)
    || c == 0x2028
    || c == 0x2029
    || c == 0x202f
    || c == 0x205f
    || c == 0x3000
    || c == 0xfeff

unfoldable pub trim_start : Text → Text
unfolding is_space
trim_start [] = []
trim_start (c ∷ s) = if is_space c then trim_start s else c ∷ s

unfoldable pub trim : Text → Text
unfolding trim_start
trim s = reverse (trim_start (reverse (trim_start s)))

-- `toLowerCase` and `toUpperCase`, on ASCII letters.
unfoldable pub lower : ℕ → ℕ
lower c = if leb b'A' c && leb c b'Z' then c + 32 else c

unfoldable pub upper : ℕ → ℕ
upper c = if leb b'a' c && leb c b'z' then c - 32 else c

abbrev pub push_front : ℕ → List Text → List Text
push_front c [] = (c ∷ []) ∷ []
push_front c (s ∷ parts) = (c ∷ s) ∷ parts

-- `split(separator)` for one unit.
unfoldable pub split : ℕ → Text → List Text
split separator [] = [] ∷ []
split separator (c ∷ s) =
    let rest = split separator s in if c == separator then [] ∷ rest else push_front c rest

-- `split` by a unit written twice, such as `::`.
unfoldable pub split_twice : ℕ → Text → List Text
split_twice separator [] = [] ∷ []
split_twice separator (c ∷ []) = (c ∷ []) ∷ []
split_twice separator (c ∷ d ∷ s) =
    let after = split_twice separator s in
    let later = push_front c (split_twice separator (d ∷ s)) in
    if c == separator && d == separator then [] ∷ after else later

-- What stands before the first such unit: `slice(0, indexOf(unit))`, or all where there is none.
unfoldable pub before : ℕ → Text → Text
before unit [] = []
before unit (c ∷ s) = if c == unit then [] else c ∷ before unit s

-- The parts around the last such unit, at `lastIndexOf(unit)`.
unfoldable pub around_last : ℕ → Text → Option (Text × Text)
around_last unit [] = none
around_last unit (c ∷ s) = elim (around_last unit s) [
  | some (left, right) ↦ some (c ∷ left, right)
  | none ↦ if c == unit then some ([], s) else none
]

unfoldable pub starts_with_codes : Text → Text → Bool
starts_with_codes s [] = true
starts_with_codes [] (d ∷ t) = false
starts_with_codes (c ∷ s) (d ∷ t) = c == d && starts_with_codes s t

abbrev pub is_digit : ℕ → Bool
is_digit c = leb b'0' c && leb c b'9'

-- The number that digits of a base write, from a leading number on.
unfoldable pub number_from : ℕ → (ℕ → ℕ) → ℕ → Text → ℕ
number_from base digit n [] = n
number_from base digit n (c ∷ s) = number_from base digit (n * base + digit c) s

abbrev pub decimal_digit : ℕ → ℕ
decimal_digit c = c - b'0'

-- `Number` of decimal digits, where the number is small enough to be exact.
unfoldable pub decimal : Text → ℕ
unfolding number_from
decimal s = number_from 10 decimal_digit 0 s

pub same_codes_iff : (s t : Text) → (same_codes s t ≡ true) ↔ (s ≡ t)
unfolding same_codes
same_codes_iff [] [] = (λ _. refl, λ _. refl)
same_codes_iff [] (d ∷ t) = (λ e. absurd (cc), λ e. absurd (nil≢cons e))
same_codes_iff (c ∷ s) [] = (λ e. absurd (cc), λ e. absurd (nil≢cons (sym e)))
same_codes_iff (c ∷ s) (d ∷ t) = ground (arith, same_codes_iff s t)

abbrev pub lacks : ℕ → Text → Bool
lacks unit s = all (λ c. not (c == unit)) s

pub split-append :
    (unit : ℕ) (s t : Text) → lacks unit s ≡ true → split unit (s ++ unit ∷ t) ≡ s ∷ split unit t
unfolding split
split-append unit [] t h = ground arith
split-append unit (c ∷ s) t h = ground (arith, h, split-append unit s t)

pub split-lacks : (unit : ℕ) (s : Text) → lacks unit s ≡ true → split unit s ≡ s ∷ []
unfolding split
split-lacks unit [] h = refl
split-lacks unit (c ∷ s) h = ground (arith, h, split-lacks unit s)

-- The parts with the separator between them.
abbrev pub join : ℕ → List Text → Text
join separator [] = []
join separator (part ∷ []) = part
join separator (part ∷ other ∷ parts) = part ++ separator ∷ join separator (other ∷ parts)

abbrev pub is_nil : List Text → Bool
is_nil [] = true
is_nil _ = false

split-ne-nil : (unit : ℕ) (s : Text) → is_nil (split unit s) ≡ false
unfolding split
split-ne-nil unit [] = refl
split-ne-nil unit (c ∷ s) = elim (Bool-cases (c == unit)) [
  | inl e ↦ rw e refl
  | inr e ↦ rw e (pushed (split unit s))
]
  where
    pushed : (parts : List Text) → is_nil (push_front c parts) ≡ false
    pushed [] = refl
    pushed (part ∷ parts) = refl

join-push_front :
    (separator c : ℕ) (parts : List Text)
    → join separator (push_front c parts) ≡ c ∷ join separator parts
join-push_front separator c [] = refl
join-push_front separator c (part ∷ []) = refl
join-push_front separator c (part ∷ other ∷ parts) = refl

join_after :
    (separator : ℕ) (parts : List Text)
    → is_nil parts ≡ false
    → join separator ([] ∷ parts) ≡ separator ∷ join separator parts
join_after separator [] h = cc
join_after separator (part ∷ parts) h = refl

pub join-split : (separator : ℕ) (s : Text) → join separator (split separator s) ≡ s
unfolding split
join-split separator [] = refl
join-split separator (c ∷ s) = elim (Bool-cases (c == separator)) [
  | inl e ↦
      let same : separator ≡ c = sym ((==_iff c separator).0 e) in
      rw e (
        join_after separator (split separator s) (split-ne-nil separator s)
        ∙ ap₂ ◌∷◌ same (join-split separator s))
  | inr e ↦
      rw e
        (join-push_front separator c (split separator s) ∙ ap (λ t. c ∷ t) (join-split separator s))
]
