-- ===== src/Transfers/Best.antt =====
-- The best candidate for a ledger row is taken (api/src/services/transfers.ts).
use mathlib.Core.Logic.{◌≢◌}
use cryptotracker.Base.{
  ◌≤◌, ◌<◌, String, ◌≡◌, ◌⊎◌, inl, inr, refl, sym, subst, ◌∙◌, true, false, Option, none, some,
  List, [], ◌∷◌, arith, All, AllPairs, filter, filter-All, eq_iff, some_injective, >>=-eq-some,
}
use cryptotracker.Base.Sorting.{sort, sort-All, sort-IsSorted, All-sort}
use cryptotracker.Base.Decimals.{Decimals}
use cryptotracker.Transfers.Match.{
  Confidence, exact, likely, unmatched, time_delta, default_window_ms, reconcile_transfer,
}
use cryptotracker.Transfers.Service.{
  KrakenLedgerRow, ChainEventRow, Candidate, kraken_candidate, chain_candidate, rank, is_used,
  not_after, is_eligible, matched, match_all, best_of,
}

not_after_refl : (ledger : KrakenLedgerRow) (c : Candidate) → not_after ledger c c ≡ true
unfolding not_after
not_after_refl ledger c = ground arith

not_after_total :
    (ledger : KrakenLedgerRow) (c d : Candidate)
    → not_after ledger c d ≡ false
    → not_after ledger d c ≡ true
unfolding not_after
not_after_total ledger c d h = ground arith

not_after_trans :
    (ledger : KrakenLedgerRow) (c d e : Candidate)
    → not_after ledger c d ≡ true
    → not_after ledger d e ≡ true
    → not_after ledger c e ≡ true
unfolding not_after
not_after_trans ledger c d e h k = ground arith

Confidence-cases : (c : Confidence) → (c ≡ exact) ⊎ (c ≡ likely) ⊎ (c ≡ unmatched)
Confidence-cases exact = inl refl
Confidence-cases likely = inr (inl refl)
Confidence-cases unmatched = inr (inr refl)

matched-first :
    (c : Candidate) (cs : List Candidate)
    → (c.1.confidence ≡ exact) ⊎ (c.1.confidence ≡ likely)
    → matched (c ∷ cs) ≡ some c
matched-first c cs h = ground (arith, h)

matched-nothing :
    (c : Candidate) (cs : List Candidate) → c.1.confidence ≡ unmatched → matched (c ∷ cs) ≡ none
matched-nothing c cs h = ground (arith, h)

module _ (ledger : KrakenLedgerRow) where
  -- The chosen candidate has its rank before every other, or the same rank and a time at most as far.
  abbrev pub Precedes : Candidate → Candidate → Type 0
  Precedes c d =
      (rank c.1.confidence < rank d.1.confidence)
      ⊎ ((rank c.1.confidence ≡ rank d.1.confidence)
          × (time_delta c.0.occurred_at_ms ledger.occurred_at_ms
              ≤ time_delta d.0.occurred_at_ms ledger.occurred_at_ms))

  not_after-Precedes : (c d : Candidate) → not_after ledger c d ≡ true → Precedes c d
  unfolding not_after
  not_after-Precedes c d h = ground arith

  All-Precedes :
      (c : Candidate) (ds : List Candidate)
      → All (λ d. not_after ledger c d ≡ true) ds
      → All (Precedes c) ds
  All-Precedes c [] h = tt
  All-Precedes c (d ∷ ds) h = (not_after-Precedes c d h.0, All-Precedes c ds h.1)

  -- What `matched` finds in the sorted candidates.
  abbrev pub IsBest : List Candidate → Option Candidate → Type 0
  IsBest candidates none = All (λ d. d.1.confidence ≡ unmatched) candidates
  IsBest candidates (some c) = (c.1.confidence ≢ unmatched) × All (Precedes c) candidates

  Precedes-self : (c : Candidate) → Precedes c c
  Precedes-self c = inr (refl, omega arith)

  head_chosen :
      (c : Candidate) (cs : List Candidate)
      → All (λ d. not_after ledger c d ≡ true) cs
      → c.1.confidence ≢ unmatched
      → IsBest (c ∷ cs) (some c)
  head_chosen c cs h ne = (ne, (Precedes-self c, All-Precedes c cs h))

  unmatched_after :
      (c d : Candidate)
      → c.1.confidence ≡ unmatched
      → not_after ledger c d ≡ true
      → d.1.confidence ≡ unmatched
  unfolding not_after
  unmatched_after c d e h = ground arith

  All-unmatched :
      (c : Candidate) (ds : List Candidate)
      → c.1.confidence ≡ unmatched
      → All (λ d. not_after ledger c d ≡ true) ds
      → All (λ d. d.1.confidence ≡ unmatched) ds
  All-unmatched c [] e h = tt
  All-unmatched c (d ∷ ds) e h = (unmatched_after c d e h.0, All-unmatched c ds e h.1)

  IsBest-sort :
      (cs : List Candidate) (o : Option Candidate)
      → IsBest (sort (not_after ledger) cs) o
      → IsBest cs o
  IsBest-sort cs none h = sort-All _ (not_after ledger) cs h
  IsBest-sort cs (some c) h = (h.0, sort-All _ (not_after ledger) cs h.1)

  head-IsBest :
      (cs : List Candidate)
      → AllPairs (λ c d. not_after ledger c d ≡ true) cs
      → IsBest cs (matched cs)
  head-IsBest [] h = tt
  head-IsBest (c ∷ cs) h = elim (Confidence-cases c.1.confidence) [
    | inl e ↦
        subst (IsBest (c ∷ cs)) (sym (matched-first c cs (inl e)))
          (head_chosen c cs h.0 (ground (arith, e)))
    | inr (inl e) ↦
        subst (IsBest (c ∷ cs)) (sym (matched-first c cs (inr e)))
          (head_chosen c cs h.0 (ground (arith, e)))
    | inr (inr e) ↦
        subst (IsBest (c ∷ cs)) (sym (matched-nothing c cs e)) (e, All-unmatched c cs e h.0)
  ]

  -- The best of the eligible events is found in any order of the rows.
  pub sort-IsBest : (cs : List Candidate) → IsBest cs (matched (sort (not_after ledger) cs))
  sort-IsBest cs = IsBest-sort cs (matched (sort (not_after ledger) cs)) (
      head-IsBest (sort (not_after ledger) cs)
        (sort-IsSorted (not_after ledger) (not_after_total ledger) (not_after_trans ledger) cs))

pub matched-All {κ} :
    (P : Candidate → Type κ) (cs : List Candidate) (c : Candidate)
    → All P cs
    → matched cs ≡ some c
    → P c
matched-All P [] c h e = absurd (grind arith)
matched-All P (d ∷ cs) c h e = elim (Confidence-cases d.1.confidence) [
  | inl f ↦ subst P (some_injective (sym (matched-first d cs (inl f)) ∙ e)) h.0
  | inr (inl f) ↦ subst P (some_injective (sym (matched-first d cs (inr f)) ∙ e)) h.0
  | inr (inr f) ↦ absurd (ground (arith, e, matched-nothing d cs f))
]

-- An event that is not in use has another id than those that are.
unused_ids :
    (used : List String) (id : String) → is_used used id ≡ false → All (λ other. other ≢ id) used
unused_ids [] id h = tt
unused_ids (other ∷ used) id h =
    (ground (arith, eq_iff other id, h), unused_ids used id (ground (arith, h)))

is_eligible-unused :
    (ledger : KrakenLedgerRow) (used : List String) (event : ChainEventRow)
    → is_eligible ledger used event ≡ true
    → is_used used event.id ≡ false
unfolding is_eligible
is_eligible-unused ledger used event h = ground (arith, h)

module _ (decimals : Decimals) (to_lower : String → String) (tolerance : decimals.Decimal) where
  pub match_all-All {κ} :
      (P : ChainEventRow → Type κ) (ledger : KrakenLedgerRow) (events : List ChainEventRow)
      (cs : List Candidate)
      → All P events
      → match_all decimals to_lower tolerance ledger events ≡ some cs
      → All (λ c. P c.0) cs
  unfolding match_all
  match_all-All P ledger [] cs h e = subst (All (λ c. P c.0)) (some_injective e) tt
  match_all-All P ledger (event ∷ events) cs h e =
      let (m, _, e1) =
        >>=-eq-some
          (reconcile_transfer decimals to_lower default_window_ms tolerance
            (kraken_candidate ledger) (chain_candidate event))
          _ e in
      let (ms, e2, e3) = >>=-eq-some (match_all decimals to_lower tolerance ledger events) _ e1 in
      subst (All (λ c. P c.0)) (some_injective e3) (h.0, match_all-All P ledger events ms h.1 e2)

  pub best_of-IsBest :
      (ledger : KrakenLedgerRow) (used : List String) (events : List ChainEventRow)
      (o : Option Candidate)
      → best_of decimals to_lower tolerance ledger used events ≡ some o
      → (candidates : List Candidate) × (match_all decimals to_lower tolerance ledger
            (filter (is_eligible ledger used) events)
          ≡ some candidates)
        × IsBest ledger candidates o
  unfolding best_of
  best_of-IsBest ledger used events o h =
      let (cs, e, f) =
        >>=-eq-some
          (match_all decimals to_lower tolerance ledger (filter (is_eligible ledger used) events)) _
          h in
      (cs, e, subst (IsBest ledger cs) (some_injective f) (sort-IsBest ledger cs))

  pub best_of-unused :
      (ledger : KrakenLedgerRow) (used : List String) (events : List ChainEventRow) (c : Candidate)
      → best_of decimals to_lower tolerance ledger used events ≡ some (some c)
      → All (λ other. other ≢ c.0.id) used
  unfolding best_of
  best_of-unused ledger used events c h =
      let (cs, e, f) =
        >>=-eq-some
          (match_all decimals to_lower tolerance ledger (filter (is_eligible ledger used) events)) _
          h in
      let eligible =
        match_all-All _ ledger (filter (is_eligible ledger used) events) cs
          (filter-All (is_eligible ledger used) events) e in
      let ok =
        matched-All (λ d. is_eligible ledger used d.0 ≡ true) (sort (not_after ledger) cs) c
          (All-sort _ (not_after ledger) cs eligible) (some_injective f) in
      unused_ids used c.0.id (is_eligible-unused ledger used c.0 ok)
