-- ===== src/Auth/Widths.antt =====
-- An address that parses fits the bits of its version (api/src/auth/cidr.ts).
use Prim.Native.Nat.{bit_or}
use native.Mathlib.Nat.{one-le-pow, pow-le-pow_right}
use cryptotracker.Base.{
  subst, ℕ, zero, suc, ◌+◌, ◌-◌, ◌*◌, ◌^◌, ◌≤◌, ◌<◌, ◌==◌, ◌≡◌, refl, inl, inr, true, some,
  some_injective, >>=-eq-some, Bool-cases, List, [], ◌∷◌, length, arith, all, map, ◌++◌,
  length-append,
}
use cryptotracker.Base.Bits.{pow-add, bit_or-shifted}
use cryptotracker.Base.Codes.{Text, split, split_twice, lower, number_from}
use cryptotracker.Auth.Cidr.{
  normalize_ip_address, ParsedIp, octet, octets, ipv4_value, segment, segments_value, ipv6_value,
  parse_ip, without_dots, segments_of, filled, hex_digit, is_hex, zeros, split_half,
}

-- Each step of the loops makes room for the bits of one more part.
shift_bound : (m k q r : ℕ) → q < 2 ^ m → r < 2 ^ k → bit_or (q * 2 ^ k) r < 2 ^ (m + k)
shift_bound m k q r h f = grind (arith, bit_or-shifted k q r f, pow-add m k, one-le-pow k 2)

octet-lt : (part : Text) (n : ℕ) → octet part ≡ some n → n < 2 ^ 8
unfolding octet
octet-lt part n h = ground (arith, h)

octets-lt :
    (m result : ℕ) (parts : List Text) (n : ℕ)
    → result < 2 ^ m
    → octets result parts ≡ some n
    → n < 2 ^ (m + 8 * length parts)
unfolding octets
octets-lt m result [] n h e = ground (arith, e)
octets-lt m result (part ∷ parts) n h e =
    let (o, read, rest) = >>=-eq-some (octet part) _ e in
    let more =
      octets-lt (m + 8) (bit_or (result * 2 ^ 8) o) parts n
        (shift_bound m 8 result o h (octet-lt part o read)) rest in
    let same : m + 8 + 8 * length parts ≡ m + 8 * length (part ∷ parts) = omega arith in
    rw same at more

ipv4_value-lt : (value : Text) (n : ℕ) → ipv4_value value ≡ some n → n < 2 ^ 32
unfolding ipv4_value
ipv4_value-lt value n h = elim (Bool-cases (length (split b'.' value) == 4)) [
  | inl four ↦
      let small = octets-lt 0 0 (split b'.' value) n (omega arith) (rw four at h) in
      let count : 0 + 8 * length (split b'.' value) ≡ 32 = ground (arith, four) in rw count at small
  | inr other ↦ absurd (ground (arith, rw other at h))
]

number_from-lt :
    (m n : ℕ) (s : Text)
    → n < 2 ^ m
    → all is_hex s ≡ true
    → number_from 16 hex_digit n s < 2 ^ (m + 4 * length s)
unfolding number_from
number_from-lt m n [] h a = ground (arith, h)
number_from-lt m n (c ∷ s) h a =
    let step : n * 16 + hex_digit c < 2 ^ (m + 4) = grind (arith, pow-add m 4) in
    let more = number_from-lt (m + 4) (n * 16 + hex_digit c) s step (ground (arith, a)) in
    let same : m + 4 + 4 * length s ≡ m + 4 * length (c ∷ s) = omega arith in rw same at more

segment-lt : (text : Text) (n : ℕ) → segment text ≡ some n → n < 2 ^ 16
unfolding segment
segment-lt text n h =
    let hex : all is_hex text ≡ true = ground (arith, h) in
    let short : length text ≤ 4 = ground (arith, h) in
    let value : number_from 16 hex_digit 0 text ≡ n = ground (arith, h) in
    let small = number_from-lt 0 0 text (omega arith) hex in
    let power : 2 ^ (0 + 4 * length text) ≤ 2 ^ 16 =
      pow-le-pow_right (omega arith) {j = 16} (omega arith) in
    omega (arith, small, power, value)

segments_value-lt :
    (m result : ℕ) (texts : List Text) (n : ℕ)
    → result < 2 ^ m
    → segments_value result texts ≡ some n
    → n < 2 ^ (m + 16 * length texts)
unfolding segments_value
segments_value-lt m result [] n h e = ground (arith, e)
segments_value-lt m result (text ∷ texts) n h e =
    let (o, read, rest) = >>=-eq-some (segment text) _ e in
    let more =
      segments_value-lt (m + 16) (bit_or (result * 2 ^ 16) o) texts n
        (shift_bound m 16 result o h (segment-lt text o read)) rest in
    let same : m + 16 + 16 * length texts ≡ m + 16 * length (text ∷ texts) = omega arith in
    rw same at more

length-zeros : (n : ℕ) → length (zeros n) ≡ n
length-zeros zero = refl
length-zeros (suc n) = omega (arith, length-zeros n)

filled-length :
    (left right segments : List Text) → filled left right ≡ some segments → length segments ≡ 8
unfolding filled
filled-length left right segments h = ground (
  arith,
  h,
  length-append left (zeros (8 - (length left + length right)) ++ right),
  length-append (zeros (8 - (length left + length right))) right,
  length-zeros (8 - (length left + length right)),
)

-- There are eight segments, whatever `::` stands for.
segments_of-length :
    (halves segments : List Text) → segments_of halves ≡ some segments → length segments ≡ 8
unfolding segments_of
segments_of-length [] segments h = absurd (ground (arith, h))
segments_of-length (half ∷ []) segments h = ground (arith, h)
segments_of-length (left ∷ right ∷ []) segments h =
    filled-length (split_half left) (split_half right) segments h
segments_of-length (left ∷ right ∷ other ∷ halves) segments h = absurd (ground (arith, h))

ipv6_value-lt : (value : Text) (n : ℕ) → ipv6_value value ≡ some n → n < 2 ^ 128
unfolding ipv6_value
ipv6_value-lt value n h =
    let (normalized, _, h₁) = >>=-eq-some (without_dots (map lower value)) _ h in
    let (segments, given, h₂) = >>=-eq-some (segments_of (split_twice b':' normalized)) _ h₁ in
    let small = segments_value-lt 0 0 segments n (omega arith) h₂ in
    let count : 0 + 16 * length segments ≡ 128 =
      omega (arith, segments_of-length (split_twice b':' normalized) segments given) in
    rw count at small

-- What an address is parsed to.
pub data IsParsed : ParsedIp → Type 0 where
  ipv4 : (n : ℕ) → n < 2 ^ 32 → IsParsed (record { version = 4; bits = 32; value = n })
  ipv6 : (n : ℕ) → n < 2 ^ 128 → IsParsed (record { version = 6; bits = 128; value = n })

pub parse_ip-IsParsed :
    (is_ip : Text → ℕ) (address : Text) (parsed : ParsedIp)
    → parse_ip is_ip address ≡ some parsed
    → IsParsed parsed
unfolding parse_ip
parse_ip-IsParsed is_ip address parsed h =
    elim (Bool-cases (is_ip (normalize_ip_address is_ip address) == 4)) [
      | inl four ↦
          let (n, value, e) =
            >>=-eq-some (ipv4_value (normalize_ip_address is_ip address)) _ (rw four at h) in
          subst IsParsed (some_injective e)
            (ipv4 n (ipv4_value-lt (normalize_ip_address is_ip address) n value))
      | inr other ↦ elim (Bool-cases (is_ip (normalize_ip_address is_ip address) == 6)) [
        | inl six ↦
            let (n, value, e) =
              >>=-eq-some (ipv6_value (normalize_ip_address is_ip address)) _
                (rw (other, six) at h) in
            subst IsParsed (some_injective e)
              (ipv6 n (ipv6_value-lt (normalize_ip_address is_ip address) n value))
        | inr neither ↦ absurd (ground (arith, rw (other, neither) at h))
      ]
    ]
