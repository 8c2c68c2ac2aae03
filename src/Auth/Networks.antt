-- ===== src/Auth/Networks.antt =====
-- What the rules of networks match (api/src/auth/cidr.ts).
use Prim.Native.Nat.{bit_and}
use native.Mathlib.Nat.{one-le-pow}
use cryptotracker.Base.{
  ℕ, zero, suc, ◌+◌, ◌-◌, ◌*◌, ◌/◌, ◌^◌, ◌≤◌, ◌<◌, ltb, lt→ltb, ◌==◌, ==_iff, ◌≡◌, refl, sym, ◌∙◌,
  ◌↔◌, Bool, true, false, Option, none, some, [], ◌∷◌, arith, ◌||◌,
}
use cryptotracker.Base.Bits.{bit_and-zero, bit_and-prefix}
use cryptotracker.Base.Codes.{Text, split, trim}
use cryptotracker.Auth.Cidr.{
  ParsedIp, CidrRule, is_empty, parse_ip, number, rule_of, mask_of, rule_of_parts, parse_cidr,
  is_ip_in_cidrs, matches,
}
use cryptotracker.Auth.Widths.{IsParsed, ipv4, ipv6, parse_ip-IsParsed}

-- The mask keeps the bits of the prefix.
bit_and-mask_of :
    (bits n v : ℕ)
    → n ≤ bits
    → v < 2 ^ bits
    → bit_and v (mask_of bits n) ≡ v / 2 ^ (bits - n) * 2 ^ (bits - n)
bit_and-mask_of bits zero v h small =
    let none_left : v / 2 ^ (bits - 0) ≡ 0 = grind arith in
    ground (arith, bit_and-zero v, none_left)
bit_and-mask_of bits (suc n) v h small =
    let width : suc n + (bits - suc n) ≡ bits = omega arith in
    let e = bit_and-prefix (bits - suc n) (suc n) v (rw width small) in ground (arith, e)

same_prefix : (k v w : ℕ) → (v / 2 ^ k * 2 ^ k ≡ w / 2 ^ k * 2 ^ k) ↔ (v / 2 ^ k ≡ w / 2 ^ k)
same_prefix k v w = (λ h. grind (arith, one-le-pow k 2), λ h. rw h refl)

agree_iff :
    (bits n v w : ℕ)
    → n ≤ bits
    → v < 2 ^ bits
    → w < 2 ^ bits
    → ((bit_and v (mask_of bits n) == bit_and w (mask_of bits n)) ≡ true)
      ↔ (v / 2 ^ (bits - n) ≡ w / 2 ^ (bits - n))
agree_iff bits n v w h hv hw =
    rw (bit_and-mask_of bits n v h hv, bit_and-mask_of bits n w h hw)
      (
        λ e. (same_prefix (bits - n) v w).0 ((==_iff _ _).0 e),
        λ e. (==_iff _ _).1 ((same_prefix (bits - n) v w).1 e),
      )

abbrev pub made_rule : Text → ParsedIp → ℕ → CidrRule
made_rule raw w n = record {
  version = w.version;
  mask = mask_of w.bits n;
  network = bit_and w.value (mask_of w.bits n);
  prefix_length = n;
  raw = raw;
}

abbrev pub SamePrefix : ParsedIp → ParsedIp → ℕ → Type 0
SamePrefix v w n =
    (w.version ≡ v.version) × (v.value / 2 ^ (w.bits - n) ≡ w.value / 2 ^ (w.bits - n))

matches_iff :
    (raw : Text) (v w : ParsedIp) (n : ℕ)
    → IsParsed v
    → IsParsed w
    → n ≤ w.bits
    → (matches v (made_rule raw w n) ≡ true) ↔ SamePrefix v w n
matches_iff raw _ _ n (ipv4 x hx) (ipv4 y hy) h =
    let i = agree_iff 32 n x y h hx hy in (λ e. (refl, i.0 e), λ (_, e). i.1 e)
matches_iff raw _ _ n (ipv6 x hx) (ipv6 y hy) h =
    let i = agree_iff 128 n x y h hx hy in (λ e. (refl, i.0 e), λ (_, e). i.1 e)
matches_iff raw _ _ n (ipv4 x hx) (ipv6 y hy) h = (λ e. absurd (cc), λ (e, _). absurd (omega arith))
matches_iff raw _ _ n (ipv6 x hx) (ipv4 y hy) h = (λ e. absurd (cc), λ (e, _). absurd (omega arith))

quotient-zero :
    (v w : ParsedIp)
    → IsParsed v
    → IsParsed w
    → v.version ≡ w.version
    → v.value / 2 ^ (w.bits - 0) ≡ 0
quotient-zero _ _ (ipv4 x hx) (ipv4 y hy) e = omega (arith, hx)
quotient-zero _ _ (ipv6 x hx) (ipv6 y hy) e = omega (arith, hx)
quotient-zero _ _ (ipv4 x hx) (ipv6 y hy) e = absurd (omega arith)
quotient-zero _ _ (ipv6 x hx) (ipv4 y hy) e = absurd (omega arith)

not_ltb : (a b : ℕ) → b ≤ a → ltb a b ≡ false
not_ltb a b h = ground (arith, h)

or_false : (b : Bool) → (b || false) ≡ b
or_false true = refl
or_false false = refl

module _ (is_ip : Text → ℕ) (number_of : Text → Option ℕ) (text address network prefix : Text)
    (v w : ParsedIp) (n : ℕ) (parts : split b'/' (trim text) ≡ network ∷ prefix ∷ [])
    (given : is_empty network ≡ false) (parsed_address : parse_ip is_ip address ≡ some v)
    (parsed_network : parse_ip is_ip network ≡ some w)
    (prefix_number : number number_of prefix ≡ some n) where
  parse_cidr-rule_of : parse_cidr is_ip number_of text ≡ rule_of text w n
  unfolding parse_cidr rule_of_parts
  parse_cidr-rule_of = rw (parts, given, parsed_network, prefix_number) refl

  -- A rule `network/n` whose network and number are read, with n at most the bits of the version, is read; and it
  -- matches an address that is read exactly when both are of one version and agree on their first n bits.
  pub parse_cidr-SamePrefix :
      n ≤ w.bits
      → (rule : CidrRule) × (parse_cidr is_ip number_of text ≡ some rule)
        × ((is_ip_in_cidrs is_ip address (rule ∷ []) ≡ true) ↔ SamePrefix v w n)
  unfolding rule_of is_ip_in_cidrs
  parse_cidr-SamePrefix h =
      let within = not_ltb w.bits n h in
      let i =
        matches_iff text v w n (parse_ip-IsParsed is_ip address v parsed_address)
          (parse_ip-IsParsed is_ip network w parsed_network) h in
      (
        made_rule text w n,
        parse_cidr-rule_of ∙ rw within refl,
        rw (parsed_address, is_ip_in_cidrs)
            (
              λ e. i.0 (sym (or_false (matches v (made_rule text w n))) ∙ e),
              λ e. or_false (matches v (made_rule text w n)) ∙ i.1 e,
            ),
      )

  -- A blank number counts as 0: a rule `network/` whose network is read is read too, and matches
  -- every address of its version that is read.
  pub parse_cidr_blank :
      is_empty (trim prefix) ≡ true
      → v.version ≡ w.version
      → (rule : CidrRule) × (parse_cidr is_ip number_of text ≡ some rule)
        × (is_ip_in_cidrs is_ip address (rule ∷ []) ≡ true)
  unfolding number
  parse_cidr_blank blank same =
      let e : n ≡ 0 = ground (arith, blank, prefix_number) in
      let (rule, read, matched) = parse_cidr-SamePrefix (omega (arith, e)) in
      let small_v : v.value / 2 ^ (w.bits - 0) ≡ 0 =
        quotient-zero v w (parse_ip-IsParsed is_ip address v parsed_address)
          (parse_ip-IsParsed is_ip network w parsed_network) same in
      let small_w : w.value / 2 ^ (w.bits - 0) ≡ 0 =
        quotient-zero w w (parse_ip-IsParsed is_ip network w parsed_network)
          (parse_ip-IsParsed is_ip network w parsed_network) refl in
      (rule, read, matched.1 (sym same, rw e (small_v ∙ sym small_w)))

  -- A number beyond the bits of the version is refused.
  parse_cidr_beyond : w.bits < n → parse_cidr is_ip number_of text ≡ none
  unfolding rule_of
  parse_cidr_beyond h = let beyond = lt→ltb w.bits n h in parse_cidr-rule_of ∙ rw beyond refl
