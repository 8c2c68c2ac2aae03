-- ===== src/Auth/Dotted.antt =====
-- The text of an IPv4 address is read back (api/src/auth/cidr.ts).

use cryptotracker.Base.{
  ℕ, ◌+◌, ◌*◌, ◌/◌, ◌%◌, ◌^◌, ◌<◌, ltb, ◌≡◌, refl, ap, ◌∙◌, true, some, List, [], ◌∷◌, ◌++◌, arith,
  if◌then◌else◌,
}
use cryptotracker.Base.Bits.{bit_or-shifted}
use cryptotracker.Base.Codes.{Text, split, lacks, split-append, split-lacks}
use cryptotracker.Auth.Cidr.{octet, octets, ipv4_value}

-- The decimal digits of an octet.
unfoldable pub show_octet : ℕ → Text
show_octet n =
    if ltb n 10
    then (b'0' + n) ∷ []
    else if ltb n 100
    then (b'0' + n / 10) ∷ (b'0' + n % 10) ∷ []
    else (b'0' + n / 100) ∷ (b'0' + n / 10 % 10) ∷ (b'0' + n % 10) ∷ []

abbrev pub dotted : ℕ → ℕ → ℕ → ℕ → Text
dotted a b c d =
    show_octet a ++ b'.' ∷ (show_octet b ++ b'.' ∷ (show_octet c ++ b'.' ∷ show_octet d))

octet-show_octet : (n : ℕ) → n < 256 → octet (show_octet n) ≡ some n
unfolding octet show_octet
octet-show_octet n h = ground (arith, h)

show_octet-lacks : (n : ℕ) → n < 256 → lacks b'.' (show_octet n) ≡ true
unfolding show_octet
show_octet-lacks n h = ground (arith, h)

octets-show_octet :
    (result n : ℕ) (parts : List Text)
    → n < 256
    → octets result (show_octet n ∷ parts) ≡ octets (result * 2 ^ 8 + n) parts
unfolding octets
octets-show_octet result n parts h = rw (octet-show_octet n h, bit_or-shifted 8 result n h) refl

-- The dotted text of four octets is read as the number whose base-256 digits they are.
pub ipv4_value-dotted :
    (a b c d : ℕ)
    → a < 256
    → b < 256
    → c < 256
    → d < 256
    → ipv4_value (dotted a b c d) ≡ some (a * 2 ^ 24 + b * 2 ^ 16 + c * 2 ^ 8 + d)
unfolding ipv4_value
ipv4_value-dotted a b c d ha hb hc hd =
    let parts : split b'.' (dotted a b c d)
        ≡ show_octet a ∷ show_octet b ∷ show_octet c ∷ show_octet d ∷ [] =
      rw
        (
          split-append b'.' (show_octet a)
              (show_octet b ++ b'.' ∷ (show_octet c ++ b'.' ∷ show_octet d))
              (show_octet-lacks a ha),
          split-append b'.' (show_octet b) (show_octet c ++ b'.' ∷ show_octet d)
              (show_octet-lacks b hb),
          split-append b'.' (show_octet c) (show_octet d) (show_octet-lacks c hc),
          split-lacks b'.' (show_octet d) (show_octet-lacks d hd),
        )
        refl in
    let value : octets 0 (show_octet a ∷ show_octet b ∷ show_octet c ∷ show_octet d ∷ [])
        ≡ octets (((0 * 2 ^ 8 + a) * 2 ^ 8 + b) * 2 ^ 8 + c) (show_octet d ∷ []) =
      octets-show_octet 0 a (show_octet b ∷ show_octet c ∷ show_octet d ∷ []) ha
      ∙ octets-show_octet (0 * 2 ^ 8 + a) b (show_octet c ∷ show_octet d ∷ []) hb
      ∙ octets-show_octet ((0 * 2 ^ 8 + a) * 2 ^ 8 + b) c (show_octet d ∷ []) hc in
    rw parts (
      value
      ∙ octets-show_octet (((0 * 2 ^ 8 + a) * 2 ^ 8 + b) * 2 ^ 8 + c) d [] hd
      ∙ ap some (omega arith))
