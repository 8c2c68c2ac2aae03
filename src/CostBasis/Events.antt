-- ===== src/CostBasis/Events.antt =====
-- The events, the results and the parts that the methods share (api/src/domain/cost-basis.ts).
-- Numbers of the JSON payload stay texts, as in the source; `none` is a text that decimal.js rejects.
use cryptotracker.Base.{
  ℕ, String, Bool, true, false, Option, none, some, List, ◌>>=◌, if◌then◌else◌,
}
use cryptotracker.Base.Decimals.{Decimals}

pub data CostBasisMethod : Type 0 where
  acb fifo lifo : CostBasisMethod

pub data EventType : Type 0 where
  acquisition disposition reward internal_in internal_out : EventType

pub record BasisEvent : Type 0 where
  pub id : String
  pub asset_id : String
  pub occurred_at_ms : ℕ
  pub type : EventType
  pub quantity : String
  pub value_cad : Option String
  pub fee_cad : Option String

-- `['acquisition', 'reward', 'internal_in'].includes(event.type)`
abbrev pub is_incoming : EventType → Bool
is_incoming acquisition = true
is_incoming reward = true
is_incoming internal_in = true
is_incoming _ = false

pub record ConsumedLot : Type 0 where
  pub lot_id : String
  pub quantity : String
  pub basis_cad : Option String

pub record DispositionResult : Type 0 where
  pub event_id : String
  pub quantity : String
  pub proceeds_cad : Option String
  pub known_basis_cad : String
  pub unknown_quantity : String
  pub realised_pnl_cad : Option String
  pub consumed_lots : List ConsumedLot

pub record OpenLot : Type 0 where
  pub id : String
  pub asset_id : String
  pub remaining_quantity : String
  pub basis_cad : Option String
  pub basis_known : Bool

pub record CostBasis : Type 0 where
  pub method : CostBasisMethod
  pub dispositions : List DispositionResult
  pub lots : List OpenLot
  pub basis_coverage_percent : String

module _ (decimals : Decimals) where
  open decimals use {Decimal, parse, show, of_ℕ, plus, minus, times, divided_by, abs, is_zero}

  -- An event with its numbers read.
  pub record Read : Type 0 where
    pub quantity : Decimal
    pub fee : Decimal
    pub value : Option Decimal

  -- `new Decimal(text)` of a text that may be null.
  unfoldable pub parse_value : Option String → Option (Option Decimal)
  parse_value none = some none
  parse_value (some text) = do value ← parse text; some (some value)

  abbrev pub text_or_zero : Option String → String
  text_or_zero none = "0"
  text_or_zero (some text) = text

  -- The numbers of an event. The source reads `valueCad` after the other two and in every branch.
  unfoldable pub read_event : BasisEvent → Option Read
  unfolding parse_value
  read_event event = do
    quantity ← parse event.quantity
    fee ← parse (text_or_zero event.fee_cad)
    value ← parse_value event.value_cad
    some (record { quantity = abs quantity; fee = fee; value = value })

  unfoldable pub calculate_coverage : Decimal → Decimal → String
  calculate_coverage known_quantity total_quantity =
      if is_zero total_quantity
      then "100"
      else show
          (decimals.rounded_to 8 (times (divided_by known_quantity total_quantity) (of_ℕ 100)))

  -- `proceeds`, and its part in the realised profit.
  abbrev pub proceeds_of : Read → Option Decimal
  proceeds_of r = elim r.value [ none ↦ none | some value ↦ some (minus value r.fee) ]

  abbrev pub pnl_of : Option Decimal → Decimal → Decimal → Option String
  pnl_of none basis unknown = none
  pnl_of (some proceeds) basis unknown =
      if is_zero unknown then some (show (minus proceeds basis)) else none

  abbrev pub show_option : Option Decimal → Option String
  show_option none = none
  show_option (some value) = some (show value)
