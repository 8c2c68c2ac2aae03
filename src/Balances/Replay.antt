-- ===== src/Balances/Replay.antt =====
-- The single pass over the events gives what a replay from the start would, for each bucket
-- (api/src/domain/addresses.ts).
use cryptotracker.Base.{
  filter_of_true, append_assoc, append_nil, ℕ, zero, suc, leb, ◌≤◌, ◌<◌, Ordering, compare, String,
  ◌≡◌, refl, sym, ap, ap₂, subst, ◌∙◌, Bool, true, false, Option, none, some, List, [], ◌∷◌, ◌++◌,
  arith, All, All-append, AllPairs, filter, filter-append, filter_of_false, inl, inr, Bool-cases,
  Option-cases, if◌then◌else◌, >>=-eq-some,
}
use cryptotracker.Base.Sorting.{sort, sort-AllPairs_by}
use cryptotracker.Base.Decimals.{Decimals}
use cryptotracker.Balances.Reconstruct.{
  BalanceEvent, BalancePoint, event_le, asset_ids_of, Balances, apply_event, advance, points_at,
  run_buckets, no_balances, reconstruct_balance,
}
use cryptotracker.Balances.Order.{
  by_time, Earlier, ordered-AllPairs, AllPairs-suffix, later_all, sooner_all,
}

module _ (decimals : Decimals) where
  -- The events one after the other.
  unfoldable pub replay : List BalanceEvent → Balances decimals → Option (Balances decimals)
  unfolding apply_event
  replay [] balances = some balances
  replay (event ∷ events) balances = elim (apply_event decimals event balances) [
    | none ↦ none
    | some next ↦ replay events next
  ]

  -- The specification: for each time, the events up to it are replayed from the start.
  unfoldable pub replay_buckets :
      List ℕ → List String → List BalanceEvent → Balances decimals → Option (List BalancePoint)
  unfolding replay points_at
  replay_buckets [] assets events balances = some []
  replay_buckets (time ∷ times) assets events balances =
      elim (replay (filter (by_time time) events) balances) [
        | none ↦ none
        | some now ↦ elim (replay_buckets times assets events balances) [
          | none ↦ none
          | some points ↦ some (points_at decimals time assets now ++ points)
        ]
      ]

  replay-append :
      (xs ys : List BalanceEvent) (b b' : Balances decimals)
      → replay xs b ≡ some b'
      → replay (xs ++ ys) b ≡ replay ys b'
  unfolding replay
  replay-append [] ys b b' h = ap (replay ys) (some_inj h)
    where
      some_inj : some b ≡ some b' → b ≡ b'
      some_inj e = cryptotracker.Base.some_injective e
  replay-append (x ∷ xs) ys b b' h = elim (Option-cases (apply_event decimals x b)) [
    | inl e ↦ absurd (ground (arith, h, e))
    | inr (next, e) ↦ rw (e, replay) (replay-append xs ys next b' (rw (e, replay) at h))
  ]

  -- What `advance` does to events in order.
  record Advanced (time : ℕ) (events : List BalanceEvent) (b : Balances decimals) : Type 0 where
    now : List BalanceEvent
    rest : List BalanceEvent
    parts : events ≡ now ++ rest
    sooner : All (λ e. by_time time e ≡ true) now
    later : All (λ e. by_time time e ≡ false) rest
    step :
        advance decimals time events b
        ≡ elim (replay now b) as (λ o. Option (List BalanceEvent × Balances decimals)) [
          | none ↦ none
          | some b' ↦ some (rest, b')
        ]

  Advanced-of :
      (time : ℕ) (events : List BalanceEvent) (b : Balances decimals)
      → AllPairs Earlier events
      → Advanced time events b
  unfolding advance replay
  Advanced-of time [] b h = record {
    now = [];
    rest = [];
    parts = refl;
    sooner = tt;
    later = tt;
    step = refl;
  }
  Advanced-of time (event ∷ events) b h = elim (Bool-cases (by_time time event)) [
    | inr e ↦ record {
      now = [];
      rest = event ∷ events;
      parts = refl;
      sooner = tt;
      later = (e, later_all time event events e h.0);
      step = rw (e, advance) refl;
    }
    | inl e ↦ elim (Option-cases (apply_event decimals event b)) [
      | inl f ↦
          let a = Advanced-of time events b h.1 in
          record {
            now = event ∷ a.now;
            rest = a.rest;
            parts = ap (λ t. event ∷ t) a.parts;
            sooner = (e, a.sooner);
            later = a.later;
            step = rw (e, f, advance, replay) refl;
          }
      | inr (next, f) ↦
          let a = Advanced-of time events next h.1 in
          record {
            now = event ∷ a.now;
            rest = a.rest;
            parts = ap (λ t. event ∷ t) a.parts;
            sooner = (e, a.sooner);
            later = a.later;
            step = rw (e, f, advance, replay) a.step;
          }
    ]
  ]

  filter-done :
      (time : ℕ) (done rest now rest' : List BalanceEvent)
      → All (λ e. by_time time e ≡ true) done
      → rest ≡ now ++ rest'
      → All (λ e. by_time time e ≡ true) now
      → All (λ e. by_time time e ≡ false) rest'
      → filter (by_time time) (done ++ rest) ≡ done ++ now
  filter-done time done rest now rest' d parts sooner later =
      let split : filter (by_time time) rest ≡ now =
        ap (filter (by_time time)) parts
        ∙ filter-append (by_time time) now rest'
        ∙ ap₂ ◌++◌ (filter_of_true (by_time time) now sooner)
            (filter_of_false (by_time time) rest' later)
        ∙ append_nil now in
      filter-append (by_time time) done rest ∙ ap₂ ◌++◌ (filter_of_true (by_time time) done d) split

  -- The events that were applied are up to every time that is still to come.
  Applied : List ℕ → List BalanceEvent → Type 0
  Applied times done = All (λ time. All (λ e. by_time time e ≡ true) done) times

  Applied-more :
      (time : ℕ) (times : List ℕ) (done now : List BalanceEvent)
      → All (λ later. time ≤ later) times
      → Applied times done
      → All (λ e. by_time time e ≡ true) now
      → Applied times (done ++ now)
  unfolding Applied
  Applied-more time [] done now h d n = tt
  Applied-more time (later ∷ times) done now h d n = (
    All-append _ done now d.0 (sooner_all time later now h.0 n),
    Applied-more time times done now h.1 d.1 n,
  )

  Applied-nil : (times : List ℕ) → Applied times []
  unfolding Applied
  Applied-nil [] = tt
  Applied-nil (time ∷ times) = (tt, Applied-nil times)

  run_buckets-replay :
      (times : List ℕ) (assets : List String) (done rest : List BalanceEvent)
      (b₀ b : Balances decimals)
      → AllPairs (λ s t. s ≤ t) times
      → AllPairs Earlier rest
      → Applied times done
      → replay done b₀ ≡ some b
      → run_buckets decimals times assets rest b ≡ replay_buckets times assets (done ++ rest) b₀
  unfolding run_buckets replay_buckets Applied
  run_buckets-replay [] assets done rest b₀ b times-in_order in_order applied before = refl
  run_buckets-replay (time ∷ times) assets done rest b₀ b times-in_order in_order applied before =
      let a = Advanced-of time rest b in_order in
      let events : filter (by_time time) (done ++ rest) ≡ done ++ a.now =
        filter-done time done rest a.now a.rest applied.0 a.parts a.sooner a.later in
      let replayed : replay (filter (by_time time) (done ++ rest)) b₀ ≡ replay a.now b =
        ap (λ es. replay es b₀) events ∙ replay-append done a.now b₀ b before in
      elim (Option-cases (replay a.now b)) [
        | inl e ↦
            let left : advance decimals time rest b ≡ none = a.step ∙ rw e refl in
            rw (left, replayed ∙ e, run_buckets, replay_buckets) refl
        | inr (b', e) ↦
            let left : advance decimals time rest b ≡ some (a.rest, b') = a.step ∙ rw e refl in
            let whole : (done ++ a.now) ++ a.rest ≡ done ++ rest =
              append_assoc done a.now a.rest ∙ ap (λ es. done ++ es) (sym a.parts) in
            let more : run_buckets decimals times assets a.rest b'
                ≡ replay_buckets times assets (done ++ rest) b₀ =
              run_buckets-replay times assets (done ++ a.now) a.rest b₀ b' times-in_order.1
                (AllPairs-suffix Earlier a.now a.rest (subst (AllPairs Earlier) a.parts in_order))
                (Applied-more time times done a.now times-in_order.0 applied.1 a.sooner)
                (replay-append done a.now b₀ b before ∙ e)
              ∙ ap (λ es. replay_buckets times assets es b₀) whole in
            rw (left, replayed ∙ e, more, run_buckets, replay_buckets) refl
      ]

  -- The balances at each time are those of a replay of all events up to it, whatever the order of the events
  -- and of the times: the single pass drops none, and applies none twice. Both fail on the same quantities.
  pub reconstruct_balance-replay :
      (locale : String → String → Ordering) (events : List BalanceEvent) (buckets : List ℕ)
      → let ordered = sort (event_le locale) events in
        let assets = asset_ids_of ordered in
        reconstruct_balance decimals locale events buckets
        ≡ replay_buckets (sort leb buckets) assets ordered (no_balances decimals assets)
  unfolding reconstruct_balance
  reconstruct_balance-replay locale events buckets =
      run_buckets-replay (sort leb buckets) _ [] (sort (event_le locale) events) _ _
        (sort-AllPairs_by (λ s t. s ≤ t) leb (λ x y h. ground (arith, h))
          (λ x y h. ground (arith, h)) (λ x y z h k. omega arith) buckets)
        (ordered-AllPairs locale events) (Applied-nil (sort leb buckets)) (unfold replay in refl)
