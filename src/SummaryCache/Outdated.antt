-- ===== src/SummaryCache/Outdated.antt =====
-- Changes and keys that expire keep what is known of the loads (api/src/services/summary-cache.ts).
use mathlib.Core.List.{Memᴰ}
use cryptotracker.Base.{ℕ, refl, sym, some_injective, subst, Option, none, some, List, ◌∷◌, arith}
use cryptotracker.SummaryCache.Fills.{CacheEntry}
use cryptotracker.SummaryCache.History.{
  CacheWorld, announce, Key, lock_key, generation_key, result_key, expire,
}
use cryptotracker.SummaryCache.Sound.{IsKnown, IsDated, ResultIsDated, IsCoherent, PhaseIsSound-map}
use cryptotracker.SummaryCache.Kept.{drop_lock-IsCoherent}

-- A new generation leaves nothing dated by it.
IsKnown-announce :
    (g : ℕ) (issued : List ℕ) (h : Option ℕ) → IsKnown issued h → IsKnown (g ∷ issued) h
IsKnown-announce g issued none known = tt
IsKnown-announce g issued (some h) known = Memᴰ.tail known

IsDated-announce :
    (g : ℕ) (issued : List ℕ) (present h : Option ℕ) (seen : ℕ)
    → ¬ Memᴰ g issued
    → IsDated present issued h seen
    → IsDated (some g) (g ∷ issued) h seen
IsDated-announce g issued present none seen new dated = tt
IsDated-announce g issued present (some h) seen new (known, _) =
    (Memᴰ.tail known, λ e. absurd (new (subst (λ i. Memᴰ i issued) (sym (some_injective e)) known)))

ResultIsDated-announce :
    (g : ℕ) (issued : List ℕ) (present : Option ℕ) (result : Option CacheEntry)
    → ¬ Memᴰ g issued
    → ResultIsDated present issued result
    → ResultIsDated (some g) (g ∷ issued) result
ResultIsDated-announce g issued present none new dated = tt
ResultIsDated-announce g issued present (some entry) new dated =
    IsDated-announce g issued present entry.generation entry.seen new dated

pub announce-IsCoherent :
    (g : ℕ) (w : CacheWorld) → ¬ Memᴰ g w.issued → IsCoherent w → IsCoherent (announce g w)
announce-IsCoherent g w new c = record {
  known = Memᴰ.head refl;
  stored = ResultIsDated-announce g w.issued w.redis.generation w.redis.result new c.stored;
  seen_le = let le = c.seen_le in omega (arith, le);
  sound = λ o p e.
      PhaseIsSound-map (announce g w) w o (IsKnown-announce g w.issued)
        (λ h seen (dated, later, le). (
          IsDated-announce g w.issued w.redis.generation h seen new dated,
          later,
          omega (arith, le),
        ))
        p (c.sound o p e);
}

-- Without a present generation nothing is dated by it.
IsDated-forget :
    (present : Option ℕ) (issued : List ℕ) (g : Option ℕ) (seen : ℕ)
    → IsDated present issued g seen
    → IsDated none issued g seen
IsDated-forget present issued none seen h = tt
IsDated-forget present issued (some g) seen (known, _) = (known, λ e. absurd (cc e))

ResultIsDated-forget :
    (present : Option ℕ) (issued : List ℕ) (result : Option CacheEntry)
    → ResultIsDated present issued result
    → ResultIsDated none issued result
ResultIsDated-forget present issued none h = tt
ResultIsDated-forget present issued (some entry) h =
    IsDated-forget present issued entry.generation entry.seen h

pub expire-IsCoherent :
    (key : Key) (w : CacheWorld)
    → IsCoherent w
    → IsCoherent (record w { redis = expire key w.redis })
expire-IsCoherent lock_key w c = drop_lock-IsCoherent w c
expire-IsCoherent generation_key w c = record {
  known = tt;
  stored = ResultIsDated-forget w.redis.generation w.issued w.redis.result c.stored;
  seen_le = c.seen_le;
  sound = λ o p e.
      PhaseIsSound-map (record w { redis = expire generation_key w.redis }) w o (λ h known. known)
        (λ h seen (dated, later, le).
          (IsDated-forget w.redis.generation w.issued h seen dated, later, le))
        p (c.sound o p e);
}
expire-IsCoherent result_key w c = record {
  known = c.known;
  stored = tt;
  seen_le = omega arith;
  sound = λ o p e.
      PhaseIsSound-map (record w { redis = expire result_key w.redis }) w o (λ h known. known)
        (λ h seen (dated, later, le). (dated, (λ _. omega arith), le)) p (c.sound o p e);
}
