-- ===== src/Scheduler/Spacing.antt =====
-- How far apart the runs of a key are (api/src/scheduler.ts).
use cryptotracker.Base.{
  ℕ, ◌+◌, ◌*◌, ◌≤◌, ◌≡◌, refl, subst, false, ◌&&◌, String, str_eq, eq_iff, Option, none, some, List,
  [], ◌∷◌, Bool-cases, inl, inr, arith, if◌then◌else◌,
}
use cryptotracker.Base.Maps.{get, set, get-set}
use cryptotracker.Scheduler.Cycle.{Schedule, is_soon, due}

-- A check of a key, with the interval that the settings give at its time.
pub record Check : Type 0 where
  pub key : String
  pub interval_minutes : ℕ
  pub now : ℕ

-- The checks of a key that find it due, in a sequence of checks of any keys.
unfoldable pub triggers : String → List Check → Schedule → List Check
unfolding due
triggers key [] last = []
triggers key (c ∷ checks) last =
    let (is_due, marked) = due c.key c.interval_minutes c.now last in
    let rest = triggers key checks marked in if is_due && str_eq c.key key then c ∷ rest else rest

abbrev pub IsSpaced : Option ℕ → List Check → Type 0
IsSpaced previous [] = Unit
IsSpaced none (c ∷ checks) = IsSpaced (some c.now) checks
IsSpaced (some time) (c ∷ checks) =
    (time + c.interval_minutes * 60000 ≤ c.now)
    × (time + 5 * 60000 ≤ c.now)
    × IsSpaced (some c.now) checks

first-IsSpaced :
    (previous : Option ℕ) (c : Check) (checks : List Check)
    → is_soon c.interval_minutes c.now previous ≡ false
    → IsSpaced (some c.now) checks
    → IsSpaced previous (c ∷ checks)
first-IsSpaced none c checks free h = h
first-IsSpaced (some time) c checks free h = (ground (arith, free), ground (arith, free), h)

-- In any sequence of checks, each time a key is found due after the last one is later by at least the minutes that
-- are set at that time, and by at least five minutes whatever is set.
pub triggers-IsSpaced :
    (key : String) (checks : List Check) (last : Schedule)
    → IsSpaced (get key last) (triggers key checks last)
unfolding triggers
triggers-IsSpaced key [] last = tt
triggers-IsSpaced key (c ∷ checks) last =
    elim (Bool-cases (is_soon c.interval_minutes c.now (get c.key last))) [
      | inl soon ↦ rw (soon, due) (triggers-IsSpaced key checks last)
      | inr free ↦ elim (Bool-cases (str_eq c.key key)) [
        | inl e ↦
            let same : c.key ≡ key = (eq_iff c.key key).0 e in
            let marked : get key (set c.key c.now last) ≡ some c.now =
              rw (get-set c.key key c.now last, e) refl in
            let rest =
              subst (λ p. IsSpaced p (triggers key checks (set c.key c.now last))) marked
                (triggers-IsSpaced key checks (set c.key c.now last)) in
            let open_now =
              subst (λ k. is_soon c.interval_minutes c.now (get k last) ≡ false) same free in
            rw (free, e, due)
              (first-IsSpaced (get key last) c (triggers key checks (set c.key c.now last)) open_now
                rest)
        | inr e ↦
            let kept : get key (set c.key c.now last) ≡ get key last =
              rw (get-set c.key key c.now last, e) refl in
            rw (free, e, due)
              (subst (λ p. IsSpaced p (triggers key checks (set c.key c.now last))) kept
                (triggers-IsSpaced key checks (set c.key c.now last)))
      ]
    ]
