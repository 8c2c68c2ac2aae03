-- ===== src/SummaryCache/Current.antt =====
-- What the summary cache stores is no older than it says (api/src/services/summary-cache.ts).

use cryptotracker.Base.{
  ℕ, ◌+◌, ◌≤◌, ==_iff, ◌≡◌, ap, subst, Bool, true, false, Option, none, some, length, arith,
  Bool-cases, Option-cases, inl, inr,
}
use cryptotracker.SummaryCache.Fills.{
  CacheEntry, Phase, waiting, sharing, versioning, checking, calling, loading, storing, unlocking,
  finished, holds, effect, next, failed, load_ended, fresh, same_generation, lock_for_ms,
}
use cryptotracker.SummaryCache.History.{
  CacheWorld, take_effect, fail, Reach, start, started, advanced, thrown, loaded, announced,
  expired,
}
use cryptotracker.SummaryCache.Sound.{
  IsDated, seen_of, ResultIsDated, IsCoherent, put_fill-IsCoherent,
}
use cryptotracker.SummaryCache.Kept.{
  holds_some, take_effect-IsCoherent, next-PhaseIsSound, failed-PhaseIsSound,
  load_ended-PhaseIsSound,
}
use cryptotracker.SummaryCache.Outdated.{announce-IsCoherent, expire-IsCoherent}

fail-IsCoherent :
    (effective : Bool) (now owner : ℕ) (phase : Phase) (w : CacheWorld)
    → w.fills owner ≡ some phase
    → IsCoherent w
    → IsCoherent (fail effective now owner phase w)
fail-IsCoherent true now owner phase w f c =
    let after = take_effect-IsCoherent now owner phase w f c in
    put_fill-IsCoherent (take_effect now owner phase w) owner (failed phase)
      (failed-PhaseIsSound owner phase (take_effect now owner phase w) f after) after
fail-IsCoherent false now owner phase w f c =
    put_fill-IsCoherent w owner (failed phase) (failed-PhaseIsSound owner phase w f c) c

Reach-IsCoherent : {w : CacheWorld} → Reach w → IsCoherent w
Reach-IsCoherent start = record {
  known = tt;
  stored = tt;
  seen_le = omega arith;
  sound = λ o p e. absurd (cc e);
}
Reach-IsCoherent (started {w} r now owner free) =
    put_fill-IsCoherent w owner (waiting (now + lock_for_ms)) tt (Reach-IsCoherent r)
Reach-IsCoherent (advanced {w} r now owner phase f) =
    let c = Reach-IsCoherent r in
    put_fill-IsCoherent (take_effect now owner phase w) owner
      (next now owner (length w.issued) w.redis phase) (next-PhaseIsSound now owner phase w f c)
      (take_effect-IsCoherent now owner phase w f c)
Reach-IsCoherent (thrown {w} r effective now owner phase f) =
    fail-IsCoherent effective now owner phase w f (Reach-IsCoherent r)
Reach-IsCoherent (loaded {w} r owner phase summary f) =
    let c = Reach-IsCoherent r in
    put_fill-IsCoherent w owner (load_ended summary phase)
      (load_ended-PhaseIsSound owner phase w summary f c) c
Reach-IsCoherent (announced {w} r generation new) =
    announce-IsCoherent generation w new (Reach-IsCoherent r)
Reach-IsCoherent (expired {w} r key) = expire-IsCoherent key w (Reach-IsCoherent r)

same_generation_lem : (a : Option ℕ) (g : ℕ) → same_generation a (some g) ≡ true → a ≡ some g
same_generation_lem none g h = absurd (cc h)
same_generation_lem (some a) g h = ap some ((==_iff a g).0 h)

-- After any history of fills by any replicas, of errors, of changes and of keys that expire: where the stored result
-- counts as fresh under a generation that was announced, its load began after the last change that was announced.
pub Reach-IsCurrent :
    {w : CacheWorld}
    → Reach w
    → (now g : ℕ) (entry : CacheEntry) → w.redis.generation ≡ some g
    → w.redis.result ≡ some entry
    → fresh now entry w.redis.generation ≡ true
    → entry.seen ≡ length w.issued
unfolding fresh
Reach-IsCurrent {w} r now g entry present stored is_fresh =
    let same : entry.generation ≡ some g =
      same_generation_lem entry.generation g (ground (arith, rw present at is_fresh)) in
    let dated : ResultIsDated w.redis.generation w.issued (some entry) =
      subst (ResultIsDated w.redis.generation w.issued) stored (Reach-IsCoherent r).stored in
    let known : IsDated w.redis.generation w.issued (some g) entry.seen =
      subst (λ h. IsDated w.redis.generation w.issued h entry.seen) same dated in
    known.1 present

-- After any such history, a command of a fill, also of one that has outlived its lock, leaves a result in Redis whose
-- load began after no fewer changes than the load of the result before it.
pub effect-seen_le :
    {w : CacheWorld}
    → Reach w
    → (now owner : ℕ) (phase : Phase) → w.fills owner ≡ some phase
    → seen_of w.redis.result ≤ seen_of (effect now owner w.redis phase).result
unfolding effect
effect-seen_le {w} r now owner (storing generation seen summary) f =
    elim (Bool-cases (holds owner w.redis)) [
      | inl held ↦
          let (_, later, _) =
            (Reach-IsCoherent r).sound owner (storing generation seen summary) f in
          rw held (later (holds_some owner w.redis.lock held))
      | inr lost ↦ rw lost (omega arith)
    ]
effect-seen_le {w} r now owner (waiting _) f = elim (Option-cases w.redis.lock) [
  | inl free ↦ rw free (omega arith)
  | inr (other, taken) ↦ rw taken (omega arith)
]
effect-seen_le r now owner (sharing _) f = omega arith
effect-seen_le r now owner versioning f = omega arith
effect-seen_le r now owner (checking _) f = omega arith
effect-seen_le r now owner (calling _ _) f = omega arith
effect-seen_le r now owner (loading _ _ _) f = omega arith
effect-seen_le {w} r now owner (unlocking _) f = elim (Bool-cases (holds owner w.redis)) [
  | inl held ↦ rw held (omega arith)
  | inr lost ↦ rw lost (omega arith)
]
effect-seen_le r now owner (finished _) f = omega arith
