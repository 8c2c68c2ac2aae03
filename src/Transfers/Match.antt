-- ===== src/Transfers/Match.antt =====
-- `reconcileTransfer` and `classifyOwnedTransfer` (api/src/domain/reconciliation.ts). Numbers are texts, read
-- by decimal.js; `none` is where the source throws. `to_lower` is JavaScript's `toLowerCase`.
use cryptotracker.Base.{
  is_truthy, same_text, ℕ, ◌+◌, ◌-◌, ◌*◌, leb, String, Bool, true, false, ◌&&◌, ◌||◌, not, Option,
  none, some, ◌>>=◌, if◌then◌else◌, str_eq, get_or_else,
}
use cryptotracker.Base.Decimals.{Decimals}

pub data Source : Type 0 where
  kraken chain : Source

pub data Direction : Type 0 where
  incoming outgoing : Direction  -- 'in' and 'out'

pub record TransferCandidate : Type 0 where
  pub id : String
  pub source : Source
  pub asset_id : String
  pub direction : Direction
  pub quantity : String
  pub occurred_at_ms : ℕ
  pub transaction_id : Option String
  pub network : Option String
  pub fee_quantity : Option String

pub data Confidence : Type 0 where
  exact likely unmatched : Confidence

-- The shapes of `evidence`.
pub data Evidence : Type 0 where
  source_asset_or_direction_mismatch : Evidence
  identifier :
      (transaction_id : Option String) (network : Option String) (asset_id : String)
      (amount_difference_percent : String)
      → Evidence
  identifier_amount_mismatch :
      (transaction_id : Option String) (amount_difference_percent : String) → Evidence
  amount_after_fee : (fee_quantity : String) (time_delta_ms : ℕ) → Evidence
  amount_and_time : (amount_difference_percent : String) (time_delta_ms : ℕ) → Evidence

pub record TransferMatch : Type 0 where
  pub left_id : String
  pub right_id : String
  pub confidence : Confidence
  pub evidence : Evidence

abbrev pub is_kraken : Source → Bool
is_kraken kraken = true
is_kraken chain = false

abbrev pub opposite_direction : Direction → Direction → Bool
opposite_direction incoming outgoing = true
opposite_direction outgoing incoming = true
opposite_direction _ _ = false

abbrev pub or_else : Option String → Option String → Option String
or_else none other = other
or_else (some text) other = some text

-- `Math.abs(left - right)` of two times.
abbrev pub time_delta : ℕ → ℕ → ℕ
time_delta left right = (left - right) + (right - left)

abbrev pub default_window_ms : ℕ
default_window_ms = 6 * 60 * 60 * 1000

-- The guard of the first branch.
unfoldable pub is_comparable : TransferCandidate → TransferCandidate → Bool
is_comparable k c =
    is_kraken k.source
    && not (is_kraken c.source)
    && str_eq k.asset_id c.asset_id
    && opposite_direction k.direction c.direction

unfoldable pub identifier_match : (String → String) → TransferCandidate → TransferCandidate → Bool
identifier_match to_lower k c =
    is_truthy k.transaction_id
    && is_truthy c.transaction_id
    && str_eq (to_lower (get_or_else k.transaction_id ""))
        (to_lower (get_or_else c.transaction_id ""))
    && (not (is_truthy k.network) || not (is_truthy c.network) || same_text k.network c.network)

unfoldable pub within_window : ℕ → TransferCandidate → TransferCandidate → Bool
within_window window_ms k c = leb (time_delta k.occurred_at_ms c.occurred_at_ms) window_ms

module _ (decimals : Decimals) where
  open decimals use {
    Decimal, parse, show, of_ℕ, minus, times, divided_by, abs, is_zero, equals, at_most, greater,
  }

  -- The two quantities and the fee.
  pub record Amounts : Type 0 where
    pub kraken_quantity : Decimal
    pub chain_quantity : Decimal
    pub fee : Decimal

  unfoldable pub read_amounts : TransferCandidate → TransferCandidate → Option Amounts
  read_amounts k c = do
    kraken_quantity ← parse k.quantity
    chain_quantity ← parse c.quantity
    fee ← parse (get_or_else (or_else k.fee_quantity c.fee_quantity) "0")
    some (record {
      kraken_quantity = abs kraken_quantity;
      chain_quantity = abs chain_quantity;
      fee = abs fee;
    })

  unfoldable pub exact_after_fee : Amounts → Bool
  exact_after_fee a =
      equals (minus a.kraken_quantity a.fee) a.chain_quantity
      || equals (minus a.chain_quantity a.fee) a.kraken_quantity

  unfoldable pub difference_percent : Amounts → Decimal
  difference_percent a =
      let larger = greater a.kraken_quantity a.chain_quantity in
      if is_zero larger
      then of_ℕ 0
      else times (divided_by (abs (minus a.kraken_quantity a.chain_quantity)) larger) (of_ℕ 100)

  unfoldable pub amount_matches : Decimal → Amounts → Bool
  unfolding exact_after_fee difference_percent
  amount_matches tolerance a =
      equals a.kraken_quantity a.chain_quantity
      || exact_after_fee a
      || at_most (difference_percent a) tolerance

  -- The branches after the numbers are read. `tolerance` is `amountTolerancePercent`, which every caller
  -- leaves at its default of 0.5.
  unfoldable pub match_of :
      (String → String)
      → ℕ
      → Decimal
      → TransferCandidate
      → TransferCandidate
      → Amounts
      → TransferMatch
  unfolding identifier_match amount_matches within_window exact_after_fee difference_percent
  match_of to_lower window_ms tolerance k c a =
      let difference = difference_percent a in
      let delta = time_delta k.occurred_at_ms c.occurred_at_ms in
      let answer : Confidence → Evidence → TransferMatch = λ confidence evidence. record {
        left_id = k.id;
        right_id = c.id;
        confidence = confidence;
        evidence = evidence;
      } in
      if identifier_match to_lower k c && amount_matches tolerance a
      then answer exact
          (identifier k.transaction_id (or_else k.network c.network) k.asset_id (show difference))
      else if identifier_match to_lower k c
      then answer unmatched (identifier_amount_mismatch k.transaction_id (show difference))
      else if exact_after_fee a && within_window window_ms k c
      then answer exact (amount_after_fee (show a.fee) delta)
      else if within_window window_ms k c && at_most difference tolerance
      then answer likely (amount_and_time (show difference) delta)
      else answer unmatched (amount_and_time (show difference) delta)

  unfoldable pub reconcile_transfer :
      (String → String) → ℕ → Decimal → TransferCandidate → TransferCandidate → Option TransferMatch
  unfolding is_comparable read_amounts match_of
  reconcile_transfer to_lower window_ms tolerance k c = elim (is_comparable k c) [
    | false ↦ some (record {
      left_id = k.id;
      right_id = c.id;
      confidence = unmatched;
      evidence = source_asset_or_direction_mismatch;
    })
    | true ↦ elim (read_amounts k c) [
      | none ↦ none
      | some a ↦ some (match_of to_lower window_ms tolerance k c a)
    ]
  ]

pub record Classification : Type 0 where
  pub is_internal_transfer : Bool
  pub affects_realised_pnl : Bool
  pub carries_basis : Bool
  pub requires_inspection : Bool

abbrev pub is_exact : Confidence → Bool
is_exact exact = true
is_exact _ = false

abbrev pub is_likely : Confidence → Bool
is_likely likely = true
is_likely _ = false

unfoldable pub classify_owned_transfer : TransferMatch → Classification
classify_owned_transfer m = record {
  is_internal_transfer = is_exact m.confidence;
  affects_realised_pnl = not (is_exact m.confidence);
  carries_basis = is_exact m.confidence;
  requires_inspection = is_likely m.confidence;
}
