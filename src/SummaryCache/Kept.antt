-- ===== src/SummaryCache/Kept.antt =====
-- Every step of a fill keeps what is known of the loads (api/src/services/summary-cache.ts).

use cryptotracker.Base.{
  ℕ, ◌≤◌, leb, ◌==◌, ==_iff, ◌≡◌, refl, sym, ap, some_injective, ◌∙◌, subst, true, false, String,
  Option, none, some, length, arith, Bool-cases, Option-cases, inl, inr,
}
use cryptotracker.SummaryCache.Fills.{
  CacheEntry, Phase, waiting, sharing, versioning, checking, calling, loading, storing, unlocking,
  finished, holds, effect, next, failed, load_ended, fresh,
}
use cryptotracker.SummaryCache.History.{CacheWorld, take_effect}
use cryptotracker.SummaryCache.Sound.{
  PhaseIsSound, seen_of, ResultIsDated, IsCoherent, IsKnown-IsDated, PhaseIsSound-frame,
}

-- Another lock and result, and the fill of one owner accounted for: the others lose the lock, or keep it.
redis-IsCoherent :
    (w : CacheWorld) (lock : Option ℕ) (result : Option CacheEntry) (owner : ℕ) (own : Phase)
    → w.fills owner ≡ some own
    → ResultIsDated w.redis.generation w.issued result
    → seen_of result ≤ length w.issued
    → ((o : ℕ)
        → (o == owner) ≡ false
        → lock ≡ some o
        → (w.redis.lock ≡ some o) × (seen_of result ≤ seen_of w.redis.result))
    → PhaseIsSound (record w { redis = record w.redis { lock = lock; result = result } }) owner own
    → IsCoherent w
    → IsCoherent (record w { redis = record w.redis { lock = lock; result = result } })
redis-IsCoherent w lock result owner own f dated le others mine c =
    let v : CacheWorld = record w { redis = record w.redis { lock = lock; result = result } } in
    record {
      known = c.known;
      stored = dated;
      seen_le = le;
      sound = λ o p e. elim (Bool-cases (o == owner)) [
        | inl is_own ↦
            let i : owner ≡ o = sym ((==_iff o owner).0 is_own) in
            let same : own ≡ p = some_injective (sym f ∙ ap w.fills i ∙ e) in
            subst (λ j. PhaseIsSound v j p) i (subst (PhaseIsSound v owner) same mine)
        | inr other ↦ PhaseIsSound-frame v w o p refl refl (others o other) (c.sound o p e)
      ];
    }

pub holds_some :
    (owner : ℕ) (lock : Option ℕ)
    → elim lock [ none ↦ false | some other ↦ other == owner ] ≡ true
    → lock ≡ some owner
holds_some owner none h = absurd (cc h)
holds_some owner (some other) h = ap some ((==_iff other owner).0 h)

take_lock-IsCoherent :
    (w : CacheWorld) (owner deadline : ℕ)
    → w.fills owner ≡ some (waiting deadline)
    → IsCoherent w
    → IsCoherent (record w { redis = record w.redis { lock = some owner } })
take_lock-IsCoherent w owner deadline f c =
    redis-IsCoherent w (some owner) w.redis.result owner (waiting deadline) f c.stored c.seen_le
      (λ o other mine.
        let e : owner ≡ o = some_injective mine in
        absurd (ground (arith, e, other, ==_iff o owner)))
      tt c

store-IsCoherent :
    (w : CacheWorld) (now owner : ℕ) (generation : Option ℕ) (seen : ℕ) (summary : String)
    → w.fills owner ≡ some (storing generation seen summary)
    → w.redis.lock ≡ some owner
    → IsCoherent w
    → IsCoherent (record w {
      redis = record w.redis {
        result = some (record {
          summary = summary;
          generation = generation;
          calculated_at_ms = now;
          seen = seen;
        });
      };
    })
store-IsCoherent w now owner generation seen summary f held c =
    let (dated, later, le) = c.sound owner (storing generation seen summary) f in
    redis-IsCoherent w w.redis.lock
      (some (record {
        summary = summary;
        generation = generation;
        calculated_at_ms = now;
        seen = seen;
      }))
      owner (storing generation seen summary) f dated le
      (λ o other mine.
        let e : owner ≡ o = some_injective (sym held ∙ mine) in
        absurd (ground (arith, e, other, ==_iff o owner)))
      (dated, (λ _. omega arith), le) c

pub drop_lock-IsCoherent :
    (w : CacheWorld)
    → IsCoherent w
    → IsCoherent (record w { redis = record w.redis { lock = none } })
drop_lock-IsCoherent w c =
    let v : CacheWorld = record w { redis = record w.redis { lock = none } } in
    record {
      known = c.known;
      stored = c.stored;
      seen_le = c.seen_le;
      sound =
          λ o p e. PhaseIsSound-frame v w o p refl refl (λ mine. absurd (cc mine)) (c.sound o p e);
    }

-- What a command does keeps all of it, for its own fill and the others.
pub take_effect-IsCoherent :
    (now owner : ℕ) (phase : Phase) (w : CacheWorld)
    → w.fills owner ≡ some phase
    → IsCoherent w
    → IsCoherent (take_effect now owner phase w)
unfolding effect
take_effect-IsCoherent now owner (waiting deadline) w f c = elim (Option-cases w.redis.lock) [
  | inl free ↦ rw free (take_lock-IsCoherent w owner deadline f c)
  | inr (other, taken) ↦
      subst
        (λ l. IsCoherent (record w {
          redis = elim l [ none ↦ record w.redis { lock = some owner } | some _ ↦ w.redis ];
        }))
        (sym taken) c
]
take_effect-IsCoherent now owner (sharing _) w f c = c
take_effect-IsCoherent now owner versioning w f c = c
take_effect-IsCoherent now owner (checking _) w f c = c
take_effect-IsCoherent now owner (calling _ _) w f c = c
take_effect-IsCoherent now owner (loading _ _ _) w f c = c
take_effect-IsCoherent now owner (storing generation seen summary) w f c =
    elim (Bool-cases (holds owner w.redis)) [
      | inl held ↦ rw held (
          store-IsCoherent w now owner generation seen summary f
            (holds_some owner w.redis.lock held) c)
      | inr lost ↦ rw lost c
    ]
take_effect-IsCoherent now owner (unlocking _) w f c = elim (Bool-cases (holds owner w.redis)) [
  | inl held ↦ rw held (drop_lock-IsCoherent w c)
  | inr lost ↦ rw lost c
]
take_effect-IsCoherent now owner (finished _) w f c = c

pub next-PhaseIsSound :
    (now owner : ℕ) (phase : Phase) (w : CacheWorld)
    → w.fills owner ≡ some phase
    → IsCoherent w
    → PhaseIsSound
        (take_effect now owner phase w)
        owner
        (next now owner (length w.issued) w.redis phase)
unfolding next effect
next-PhaseIsSound now owner (waiting deadline) w f c = elim (Option-cases w.redis.lock) [
  | inl free ↦ rw free tt
  | inr (other, taken) ↦ rw taken tt
]
next-PhaseIsSound now owner (sharing deadline) w f c = elim (Option-cases w.redis.result) [
  | inl empty_result ↦
      rw empty_result
        (elim (Bool-cases (leb deadline now)) [ inl late ↦ rw late tt | inr early ↦ rw early tt ])
  | inr (shared, found) ↦ rw found tt
]
next-PhaseIsSound now owner versioning w f c = c.known
next-PhaseIsSound now owner (checking generation) w f c = elim (Option-cases w.redis.result) [
  | inl empty_result ↦ rw empty_result (c.sound owner (checking generation) f)
  | inr (current, found) ↦ rw found (elim (Bool-cases (fresh now current generation)) [
    | inl e ↦ rw e tt
    | inr e ↦ rw e (c.sound owner (checking generation) f)
  ])
]
next-PhaseIsSound now owner (calling true generation) w f c = (
  IsKnown-IsDated w.redis.generation w.issued generation
      (c.sound owner (calling true generation) f),
  (λ _. c.seen_le),
  omega arith,
)
next-PhaseIsSound now owner (calling false generation) w f c = tt
next-PhaseIsSound now owner (loading true generation seen) w f c =
    c.sound owner (loading true generation seen) f
next-PhaseIsSound now owner (loading false generation seen) w f c = tt
next-PhaseIsSound now owner (storing generation seen summary) w f c = tt
next-PhaseIsSound now owner (unlocking _) w f c = tt
next-PhaseIsSound now owner (finished _) w f c = tt

pub failed-PhaseIsSound :
    (owner : ℕ) (phase : Phase) (w : CacheWorld)
    → w.fills owner ≡ some phase
    → IsCoherent w
    → PhaseIsSound w owner (failed phase)
unfolding failed
failed-PhaseIsSound owner (waiting _) w f c = tt
failed-PhaseIsSound owner (sharing _) w f c = tt
failed-PhaseIsSound owner versioning w f c = tt
failed-PhaseIsSound owner (checking generation) w f c = c.sound owner (checking generation) f
failed-PhaseIsSound owner (calling locked generation) w f c =
    c.sound owner (calling locked generation) f
failed-PhaseIsSound owner (loading locked generation seen) w f c =
    c.sound owner (loading locked generation seen) f
failed-PhaseIsSound owner (storing _ _ _) w f c = tt
failed-PhaseIsSound owner (unlocking _) w f c = tt
failed-PhaseIsSound owner (finished _) w f c = tt

pub load_ended-PhaseIsSound :
    (owner : ℕ) (phase : Phase) (w : CacheWorld) (summary : Option String)
    → w.fills owner ≡ some phase
    → IsCoherent w
    → PhaseIsSound w owner (load_ended summary phase)
unfolding load_ended
load_ended-PhaseIsSound owner (waiting _) w summary f c = tt
load_ended-PhaseIsSound owner (sharing _) w summary f c = tt
load_ended-PhaseIsSound owner versioning w summary f c = tt
load_ended-PhaseIsSound owner (checking g) w summary f c = c.sound owner (checking g) f
load_ended-PhaseIsSound owner (calling locked g) w summary f c = c.sound owner (calling locked g) f
load_ended-PhaseIsSound owner (loading true g seen) w none f c = tt
load_ended-PhaseIsSound owner (loading true g seen) w (some _) f c =
    c.sound owner (loading true g seen) f
load_ended-PhaseIsSound owner (loading false g seen) w summary f c = tt
load_ended-PhaseIsSound owner (storing g seen text) w summary f c =
    c.sound owner (storing g seen text) f
load_ended-PhaseIsSound owner (unlocking _) w summary f c = tt
load_ended-PhaseIsSound owner (finished _) w summary f c = tt
