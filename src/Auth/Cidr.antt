-- ===== src/Auth/Cidr.antt =====
-- Addresses and rules of networks (api/src/auth/cidr.ts). `is_ip` is `isIP` of Node's `net`: 4, 6, or 0 for what is no
-- address. `number_of` is `Number` on a text that is neither blank nor decimal digits, where the result is a natural
-- number; none is every other number and NaN.
use Prim.Native.Nat.{bit_and, bit_or}
use cryptotracker.Base.{
  ℕ, zero, suc, ◌+◌, ◌-◌, ◌*◌, ◌/◌, ◌%◌, ◌^◌, ltb, leb, ◌==◌, Bool, true, false, ◌&&◌, ◌||◌, not,
  Option, none, some, ◌>>=◌, List, [], ◌∷◌, ◌++◌, map, length, all, any, drop, if◌then◌else◌,
}
use cryptotracker.Base.Codes.{
  Text, codes, trim, lower, split, split_twice, before, around_last, starts_with_codes, is_digit,
  number_from, decimal,
}

pub record ParsedIp : Type 0 where
  pub version : ℕ
  pub bits : ℕ
  pub value : ℕ

pub record CidrRule : Type 0 where
  pub version : ℕ
  pub mask : ℕ
  pub network : ℕ
  pub prefix_length : ℕ
  pub raw : Text

-- `replace(/^\[|\]$/g, '')`
abbrev pub without_first : Text → Text
without_first [] = []
without_first (c ∷ s) = if c == b'[' then s else c ∷ s

abbrev pub without_last : Text → Text
without_last [] = []
without_last (c ∷ []) = if c == b']' then [] else c ∷ []
without_last (c ∷ d ∷ s) = c ∷ without_last (d ∷ s)

abbrev pub is_empty : Text → Bool
is_empty [] = true
is_empty _ = false

-- The octet that a part writes.
unfoldable pub octet : Text → Option ℕ
unfolding decimal
octet part =
    if is_empty part || not (all is_digit part)
    then none
    else if ltb 255 (decimal part)
    then none
    else some (decimal part)

-- The loop over the parts: `result = (result << 8n) | BigInt(octet)`.
unfoldable pub octets : ℕ → List Text → Option ℕ
unfolding octet
octets result [] = some result
octets result (part ∷ parts) = octet part >>= λ n. octets (bit_or (result * 2 ^ 8) n) parts

unfoldable pub ipv4_value : Text → Option ℕ
unfolding octets split
ipv4_value value =
    let parts = split b'.' value in if length parts == 4 then octets 0 parts else none

abbrev pub is_hex : ℕ → Bool
is_hex c = is_digit c || (leb b'a' c && leb c b'f')

abbrev pub hex_digit : ℕ → ℕ
hex_digit c = if is_digit c then c - b'0' else c - b'a' + 10

abbrev pub hex_code : ℕ → ℕ
hex_code n = if ltb n 10 then b'0' + n else b'a' + (n - 10)

-- `toString(16)` of a number below `16 ^ fuel`.
unfoldable pub show_hex : ℕ → ℕ → Text → Text
show_hex zero n text = text
show_hex (suc fuel) n text =
    let more = show_hex fuel (n / 16) (hex_code (n % 16) ∷ text) in
    if ltb n 16 then hex_code n ∷ text else more

-- A trailing IPv4 address, written as two segments.
unfoldable pub without_dots : Text → Option Text
unfolding around_last ipv4_value show_hex
without_dots value =
    if any (λ c. c == b'.') value
    then (do
      (left, right) ← around_last b':' value
      ipv4 ← ipv4_value right
      some (
          left
          ++ b':'
            ∷ (show_hex 4 (ipv4 / 2 ^ 16 % 2 ^ 16) [] ++ b':' ∷ show_hex 4 (ipv4 % 2 ^ 16) [])))
    else some value

unfoldable pub segment : Text → Option ℕ
unfolding number_from
segment text =
    if is_empty text || ltb 4 (length text) || not (all is_hex text)
    then none
    else some (number_from 16 hex_digit 0 text)

unfoldable pub segments_value : ℕ → List Text → Option ℕ
unfolding segment
segments_value result [] = some result
segments_value result (text ∷ texts) =
    segment text >>= λ n. segments_value (bit_or (result * 2 ^ 16) n) texts

-- `half ? half.split(':') : []`
abbrev pub split_half : Text → List Text
split_half half = if is_empty half then [] else split b':' half

abbrev pub zeros : ℕ → List Text
zeros zero = []
zeros (suc n) = (b'0' ∷ []) ∷ zeros n

-- The segments on both sides of `::` with those that it stands for.
unfoldable pub filled : List Text → List Text → Option (List Text)
filled left right =
    let given = length left + length right in
    if ltb 8 given then none else some (left ++ (zeros (8 - given) ++ right))

unfoldable pub segments_of : List Text → Option (List Text)
unfolding split filled
segments_of (half ∷ []) = if length (split_half half) == 8 then some (split_half half) else none
segments_of (left ∷ right ∷ []) = filled (split_half left) (split_half right)
segments_of _ = none

unfoldable pub ipv6_value : Text → Option ℕ
unfolding without_dots segments_of segments_value split_twice lower
ipv6_value value = do
  normalized ← without_dots (map lower value)
  segments ← segments_of (split_twice b':' normalized)
  segments_value 0 segments

module _ (is_ip : Text → ℕ) where
  unfoldable pub normalize_ip_address : Text → Text
  unfolding trim before starts_with_codes lower
  normalize_ip_address value =
      let normalized = before b'%' (without_last (without_first (trim value))) in
      let mapped = drop 7 normalized in
      if starts_with_codes (map lower normalized) (codes "::ffff:") && is_ip mapped == 4
      then mapped
      else normalized

  unfoldable pub parse_ip : Text → Option ParsedIp
  unfolding normalize_ip_address ipv4_value ipv6_value
  parse_ip value =
      let normalized = normalize_ip_address value in
      if is_ip normalized == 4
      then (do
        parsed ← ipv4_value normalized
        some (record { version = 4; bits = 32; value = parsed }))
      else if is_ip normalized == 6
      then (do
        parsed ← ipv6_value normalized
        some (record { version = 6; bits = 128; value = parsed }))
      else none

-- `Number(text)`: 0 for a blank text.
unfoldable pub number : (Text → Option ℕ) → Text → Option ℕ
unfolding trim decimal
number number_of text =
    if is_empty (trim text)
    then some 0
    else if all is_digit (trim text)
    then some (decimal (trim text))
    else number_of text

abbrev pub mask_of : ℕ → ℕ → ℕ
mask_of bits prefix_length =
    if prefix_length == 0 then 0 else (2 ^ prefix_length - 1) * 2 ^ (bits - prefix_length)

unfoldable pub rule_of : Text → ParsedIp → ℕ → Option CidrRule
rule_of raw parsed prefix_length =
    if ltb parsed.bits prefix_length
    then none
    else some (record {
      version = parsed.version;
      mask = mask_of parsed.bits prefix_length;
      network = bit_and parsed.value (mask_of parsed.bits prefix_length);
      prefix_length = prefix_length;
      raw = raw;
    })

abbrev pub matches : ParsedIp → CidrRule → Bool
matches parsed cidr =
    cidr.version == parsed.version && bit_and parsed.value cidr.mask == cidr.network

module _ (is_ip : Text → ℕ) (number_of : Text → Option ℕ) where
  -- The parts around the slash; none is the error `Invalid CIDR`.
  unfoldable pub rule_of_parts : Text → List Text → Option CidrRule
  unfolding parse_ip number rule_of
  rule_of_parts raw (address ∷ []) =
      if is_empty address
      then none
      else parse_ip is_ip address >>= λ parsed. rule_of raw parsed parsed.bits
  rule_of_parts raw (address ∷ prefix_input ∷ []) = if is_empty address then none else do
    parsed ← parse_ip is_ip address
    n ← number number_of prefix_input
    rule_of raw parsed n
  rule_of_parts raw _ = none

  unfoldable pub parse_cidr : Text → Option CidrRule
  unfolding rule_of_parts split trim
  parse_cidr value = rule_of_parts value (split b'/' (trim value))

unfoldable pub is_ip_in_cidrs : (Text → ℕ) → Text → List CidrRule → Bool
unfolding parse_ip
is_ip_in_cidrs is_ip address cidrs = elim (parse_ip is_ip address) [
  | none ↦ false
  | some parsed ↦ any (matches parsed) cidrs
]
