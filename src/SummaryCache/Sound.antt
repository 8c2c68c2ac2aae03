-- ===== src/SummaryCache/Sound.antt =====
-- What is known of the loads of the summary cache (api/src/services/summary-cache.ts).
use mathlib.Core.List.{Memᴰ}
use native.Mathlib.Nat.{le_trans}
use cryptotracker.Base.{
  ℕ, ◌≤◌, ◌==◌, ==_iff, ◌≡◌, refl, sym, some_injective, subst, true, false, Option, none, some,
  List, length, Bool-cases, inl, inr,
}
use cryptotracker.SummaryCache.Fills.{
  CacheEntry, Phase, waiting, sharing, versioning, checking, calling, loading, storing, unlocking,
  finished,
}
use cryptotracker.SummaryCache.History.{CacheWorld, put_fill}

abbrev pub IsKnown : List ℕ → Option ℕ → Type 0
IsKnown issued none = Unit
IsKnown issued (some g) = Memᴰ g issued

-- A load under a generation that is still the present one began after every change.
abbrev pub IsDated : Option ℕ → List ℕ → Option ℕ → ℕ → Type 0
IsDated present issued none seen = Unit
IsDated present issued (some g) seen = Memᴰ g issued × (present ≡ some g → seen ≡ length issued)

-- How many changes there were when the load of the stored result began.
abbrev pub seen_of : Option CacheEntry → ℕ
seen_of none = 0
seen_of (some entry) = entry.seen

-- A load under a lock that is still the own one began no earlier than the one of the stored result.
abbrev pub IsLater : CacheWorld → ℕ → Option ℕ → ℕ → Type 0
IsLater w owner generation seen =
    IsDated w.redis.generation w.issued generation seen
    × (w.redis.lock ≡ some owner → seen_of w.redis.result ≤ seen)
    × (seen ≤ length w.issued)

abbrev pub PhaseIsSound : CacheWorld → ℕ → Phase → Type 0
PhaseIsSound w owner (waiting _) = Unit
PhaseIsSound w owner (sharing _) = Unit
PhaseIsSound w owner versioning = Unit
PhaseIsSound w owner (checking generation) = IsKnown w.issued generation
PhaseIsSound w owner (calling locked generation) = IsKnown w.issued generation
PhaseIsSound w owner (loading true generation seen) = IsLater w owner generation seen
PhaseIsSound w owner (loading false generation seen) = Unit
PhaseIsSound w owner (storing generation seen summary) = IsLater w owner generation seen
PhaseIsSound w owner (unlocking _) = Unit
PhaseIsSound w owner (finished _) = Unit

abbrev pub ResultIsDated : Option ℕ → List ℕ → Option CacheEntry → Type 0
ResultIsDated present issued none = Unit
ResultIsDated present issued (some entry) = IsDated present issued entry.generation entry.seen

pub record IsCoherent (w : CacheWorld) : Type 0 where
  pub known : IsKnown w.issued w.redis.generation
  pub stored : ResultIsDated w.redis.generation w.issued w.redis.result
  pub seen_le : seen_of w.redis.result ≤ length w.issued
  pub sound : (owner : ℕ) (phase : Phase) → w.fills owner ≡ some phase → PhaseIsSound w owner phase

pub IsKnown-IsDated :
    (present : Option ℕ) (issued : List ℕ) (g : Option ℕ)
    → IsKnown issued g
    → IsDated present issued g (length issued)
IsKnown-IsDated present issued none h = tt
IsKnown-IsDated present issued (some g) h = (h, λ _. refl)

IsLater-frame :
    (v w : CacheWorld) (owner : ℕ) (g : Option ℕ) (seen : ℕ)
    → v.redis.generation ≡ w.redis.generation
    → v.issued ≡ w.issued
    → (v.redis.lock ≡ some owner
        → (w.redis.lock ≡ some owner) × (seen_of v.redis.result ≤ seen_of w.redis.result))
    → IsLater w owner g seen
    → IsLater v owner g seen
IsLater-frame v w owner g seen same i l (dated, later, le) = (
  subst (λ p. IsDated p v.issued g seen) (sym same)
      (subst (λ j. IsDated w.redis.generation j g seen) (sym i) dated),
  λ mine. le_trans (l mine).1 (later (l mine).0),
  subst (λ j. seen ≤ length j) (sym i) le,
)

pub PhaseIsSound-map :
    (v w : CacheWorld) (owner : ℕ)
    → ((g : Option ℕ) → IsKnown w.issued g → IsKnown v.issued g)
    → ((g : Option ℕ) (seen : ℕ) → IsLater w owner g seen → IsLater v owner g seen)
    → (phase : Phase) → PhaseIsSound w owner phase
    → PhaseIsSound v owner phase
PhaseIsSound-map v w owner k l (waiting _) h = tt
PhaseIsSound-map v w owner k l (sharing _) h = tt
PhaseIsSound-map v w owner k l versioning h = tt
PhaseIsSound-map v w owner k l (checking generation) h = k generation h
PhaseIsSound-map v w owner k l (calling locked generation) h = k generation h
PhaseIsSound-map v w owner k l (loading true generation seen) h = l generation seen h
PhaseIsSound-map v w owner k l (loading false generation seen) h = tt
PhaseIsSound-map v w owner k l (storing generation seen summary) h = l generation seen h
PhaseIsSound-map v w owner k l (unlocking _) h = tt
PhaseIsSound-map v w owner k l (finished _) h = tt

-- A phase stays sound where the lock is lost, or kept with the stored result.
pub PhaseIsSound-frame :
    (v w : CacheWorld) (owner : ℕ) (phase : Phase)
    → v.redis.generation ≡ w.redis.generation
    → v.issued ≡ w.issued
    → (v.redis.lock ≡ some owner
        → (w.redis.lock ≡ some owner) × (seen_of v.redis.result ≤ seen_of w.redis.result))
    → PhaseIsSound w owner phase
    → PhaseIsSound v owner phase
PhaseIsSound-frame v w owner phase g i l =
    PhaseIsSound-map v w owner (λ h. subst (λ j. IsKnown j h) (sym i))
      (λ h seen. IsLater-frame v w owner h seen g i l) phase

pub put_fill-IsCoherent :
    (w : CacheWorld) (owner : ℕ) (phase : Phase)
    → PhaseIsSound w owner phase
    → IsCoherent w
    → IsCoherent (put_fill owner phase w)
put_fill-IsCoherent w owner phase h c = record {
  known = c.known;
  stored = c.stored;
  seen_le = c.seen_le;
  sound = λ o p e. elim (Bool-cases (o == owner)) [
    | inl own ↦
        let same : phase ≡ p = some_injective (rw own at e) in
        subst (λ i. PhaseIsSound w i p) (sym ((==_iff o owner).0 own))
          (subst (PhaseIsSound w owner) same h)
    | inr other ↦ c.sound o p (rw other at e)
  ];
}
