-- ===== src/Balances/Order.antt =====
-- The order of the events and the times up to which they count (api/src/domain/addresses.ts).
use cryptotracker.Base.{
  ℕ, leb, ◌≤◌, Ordering, String, ◌≡◌, Bool, true, false, List, [], ◌∷◌, ◌++◌, arith, All, AllPairs,
}
use cryptotracker.Base.Sorting.{sort, sort-AllPairs_by}
use cryptotracker.Balances.Reconstruct.{BalanceEvent, event_le}

abbrev pub by_time : ℕ → BalanceEvent → Bool
by_time time event = leb event.occurred_at_ms time

abbrev pub Earlier : BalanceEvent → BalanceEvent → Type 0
Earlier e f = e.occurred_at_ms ≤ f.occurred_at_ms

event_le-Earlier :
    (locale : String → String → Ordering) (e f : BalanceEvent)
    → event_le locale e f ≡ true
    → Earlier e f
unfolding event_le
event_le-Earlier locale e f h = ground (arith, h)

event_le-Later :
    (locale : String → String → Ordering) (e f : BalanceEvent)
    → event_le locale e f ≡ false
    → Earlier f e
unfolding event_le
event_le-Later locale e f h = ground (arith, h)

pub ordered-AllPairs :
    (locale : String → String → Ordering) (events : List BalanceEvent)
    → AllPairs Earlier (sort (event_le locale) events)
ordered-AllPairs locale events =
    sort-AllPairs_by Earlier (event_le locale) (event_le-Earlier locale) (event_le-Later locale)
      (λ x y z h k. omega arith) events

pub AllPairs-suffix {ℓ κ} :
    {A : Type ℓ} (R : A → A → Type κ) (xs ys : List A) → AllPairs R (xs ++ ys) → AllPairs R ys
AllPairs-suffix R [] ys h = h
AllPairs-suffix R (x ∷ xs) ys h = AllPairs-suffix R xs ys h.1

pub later_all :
    (time : ℕ) (event : BalanceEvent) (events : List BalanceEvent)
    → by_time time event ≡ false
    → All (Earlier event) events
    → All (λ e. by_time time e ≡ false) events
later_all time event [] h k = tt
later_all time event (e ∷ events) h k = (ground (arith, h, k), later_all time event events h k.1)

pub sooner_all :
    (time later : ℕ) (events : List BalanceEvent)
    → time ≤ later
    → All (λ e. by_time time e ≡ true) events
    → All (λ e. by_time later e ≡ true) events
sooner_all time later [] h k = tt
sooner_all time later (e ∷ events) h k = (ground (arith, h, k), sooner_all time later events h k.1)
