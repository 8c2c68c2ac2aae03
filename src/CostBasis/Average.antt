-- ===== src/CostBasis/Average.antt =====
-- The average cost of an asset depends on the events of that asset only (api/src/domain/cost-basis.ts).
use cryptotracker.Base.{
  String, subst, ◌≡◌, refl, sym, ap, ◌∙◌, Bool, true, false, some, List, [], ◌∷◌, ◌++◌, arith,
  str_eq, eq_iff, filter, Bool-cases, Option-cases, inl, inr, if◌then◌else◌,
}
use cryptotracker.Base.Maps
use cryptotracker.Base.Decimals.{Decimals}
use cryptotracker.CostBasis.Events.{BasisEvent, DispositionResult, Read, read_event}
use cryptotracker.CostBasis.Acb.{Holding, Holdings, holding_of, acb_event, run_acb}

abbrev pub concerns : String → BasisEvent → Bool
concerns asset event = str_eq event.asset_id asset

module _ (decimals : Decimals) where
  holding_of-set :
      (k j : String) (h : Holding decimals) (m : Holdings decimals)
      → holding_of decimals j (Maps.set k h m) ≡ (if str_eq k j then h else holding_of decimals j m)
  unfolding holding_of
  holding_of-set k j h m = ground (arith, Maps.get-set k j h m)

  step_same :
      (asset : String) (event : BasisEvent) (r : Read decimals) (m n : Holdings decimals)
      → concerns asset event ≡ true
      → holding_of decimals asset m ≡ holding_of decimals asset n
      → holding_of decimals asset (
          Maps.set event.asset_id
            (acb_event decimals event r (holding_of decimals event.asset_id m)).0
            m)
        ≡ holding_of decimals asset (
            Maps.set event.asset_id
              (acb_event decimals event r (holding_of decimals event.asset_id n)).0
              n)
  step_same asset event r m n c same =
      let here : event.asset_id ≡ asset = (eq_iff event.asset_id asset).0 c in
      let own : holding_of decimals event.asset_id m ≡ holding_of decimals event.asset_id n =
        subst (λ k. holding_of decimals k m ≡ holding_of decimals k n) (sym here) same in
      let after : (acb_event decimals event r (holding_of decimals event.asset_id m)).0
          ≡ (acb_event decimals event r (holding_of decimals event.asset_id n)).0 =
        ap (λ h. (acb_event decimals event r h).0) own in
      let set_n : holding_of decimals asset (
            Maps.set event.asset_id
              (acb_event decimals event r (holding_of decimals event.asset_id n)).0 n)
          ≡ (if str_eq event.asset_id asset
              then (acb_event decimals event r (holding_of decimals event.asset_id n)).0
              else holding_of decimals asset n) =
        holding_of-set event.asset_id asset _ n in
      holding_of-set event.asset_id asset _ m ∙ rw (c, after) (sym (rw c at set_n))

  step_other :
      (asset : String) (event : BasisEvent) (h : Holding decimals) (m : Holdings decimals)
      → concerns asset event ≡ false
      → holding_of decimals asset (Maps.set event.asset_id h m) ≡ holding_of decimals asset m
  step_other asset event h m c = holding_of-set event.asset_id asset h m ∙ rw c refl

  run_acb-read :
      (event : BasisEvent) (events : List BasisEvent) (r : Read decimals) (m : Holdings decimals)
      (done : List DispositionResult)
      → read_event decimals event ≡ some r
      → run_acb decimals (event ∷ events) m done
        ≡ run_acb decimals events
            (Maps.set event.asset_id
              (acb_event decimals event r (holding_of decimals event.asset_id m)).0
              m)
            (done ++ (acb_event decimals event r (holding_of decimals event.asset_id m)).1)
  unfolding run_acb
  run_acb-read event events r m done e = rw (e, run_acb) refl

  -- After a run over all events, an asset holds what a run over its own events alone leaves it, and that
  -- run succeeds too.
  pub run_acb-independent :
      (asset : String) (events : List BasisEvent) (m m' n : Holdings decimals)
      (done done' others : List DispositionResult)
      → run_acb decimals events m done ≡ some (m', done')
      → holding_of decimals asset m ≡ holding_of decimals asset n
      → (n' : Holdings decimals) × (others' : List DispositionResult) × (run_acb decimals
            (filter (concerns asset) events)
            n
            others
          ≡ some (n', others'))
        × (holding_of decimals asset m' ≡ holding_of decimals asset n')
  unfolding run_acb
  run_acb-independent asset [] m m' n done done' others h same =
      (n, others, refl, ap (holding_of decimals asset) (ground arith) ∙ same)
  run_acb-independent asset (event ∷ events) m m' n done done' others h same =
      elim (Option-cases (read_event decimals event)) [
        | inl e ↦ absurd (ground arith)
        | inr (r, e) ↦ elim (Bool-cases (concerns asset event)) [
          | inl c ↦
              let (n', others', run, eq) =
                run_acb-independent asset events _ m'
                  (Maps.set event.asset_id
                    (acb_event decimals event r (holding_of decimals event.asset_id n)).0 n)
                  _ done'
                  (others ++ (acb_event decimals event r (holding_of decimals event.asset_id n)).1)
                  (rw (e, run_acb) at h) (step_same asset event r m n c same) in
              (
                n',
                others',
                rw c (run_acb-read event (filter (concerns asset) events) r n others e ∙ run),
                eq,
              )
          | inr c ↦
              let (n', others', run, eq) =
                run_acb-independent asset events _ m' n _ done' others (rw (e, run_acb) at h)
                  (step_other asset event _ m c ∙ same) in
              (n', others', rw c run, eq)
        ]
      ]
