-- ===== src/SingleFlight/Shared.antt =====
-- At most one load of a key runs at a time, and calls meanwhile share it (api/src/utils/single-flight.ts).
use mathlib.Core.List.{Memᴰ}
use cryptotracker.Base.{
  ℕ, ◌≤◌, ◌≡◌, refl, sym, ap, ◌∙◌, ◌==◌, String, Bool, true, not, none, some, List, [], ◌∷◌, ◌++◌,
  arith, str_eq, eq_iff, filter, count, count-append, ◌⊎◌, inl, inr, Option-cases, Bool-cases, ap₂,
  subst,
}
use cryptotracker.Base.Maps.{get, set, delete}
use cryptotracker.SingleFlight.Flights.{SingleFlight, no_flights, run, is_load, end_load}

-- The states that calls and ends of running loads lead to.
pub data Run : SingleFlight → Type 0 where
  start : Run no_flights
  called : {s : SingleFlight} → Run s → (key : String) → Run (run key s).1
  settled :
      {s : SingleFlight}
      → Run s
      → (key : String) (pending : ℕ) → Memᴰ (key, pending) s.loading
      → Run (end_load key pending s)

abbrev pub of_key : String → String × ℕ → Bool
of_key key load = str_eq load.0 key

set-append :
    (k : String) (v : ℕ) (m : List (String × ℕ)) → get k m ≡ none → set k v m ≡ m ++ (k, v) ∷ []
unfolding get set
set-append k v [] h = refl
set-append k v ((j, w) ∷ m) h = ground (arith, h, set-append k v m)

get-none : (k : String) (m : List (String × ℕ)) → get k m ≡ none → count (of_key k) m ≡ 0
unfolding get
get-none k [] h = refl
get-none k ((j, w) ∷ m) h = ground (arith, h, get-none k m)

of_key-Memᴰ : (k : String) (p : ℕ) (m : List (String × ℕ)) → Memᴰ (k, p) m → 1 ≤ count (of_key k) m
of_key-Memᴰ k p [] mem = elim mem [ ]
of_key-Memᴰ k p ((j, w) ∷ m) (Memᴰ.head e) =
    let same : k ≡ j = ap (λ load. load.0) e in ground (arith, same, eq_iff j k)
of_key-Memᴰ k p ((j, w) ∷ m) (Memᴰ.tail mem) = ground (arith, of_key-Memᴰ k p m mem)

get-of_Memᴰ :
    (k : String) (p : ℕ) (m : List (String × ℕ))
    → count (of_key k) m ≤ 1
    → Memᴰ (k, p) m
    → get k m ≡ some p
unfolding get
get-of_Memᴰ k p [] h mem = elim mem [ ]
get-of_Memᴰ k p ((j, w) ∷ m) h (Memᴰ.head e) =
    let same : k ≡ j = ap (λ load. load.0) e in
    let promise : p ≡ w = ap (λ load. load.1) e in ground (arith, same, promise, eq_iff j k)
get-of_Memᴰ k p ((j, w) ∷ m) h (Memᴰ.tail mem) =
    ground (arith, h, eq_iff j k, of_key-Memᴰ k p m mem, get-of_Memᴰ k p m (ground (arith, h)) mem)

get-Memᴰ : (k : String) (p : ℕ) (m : List (String × ℕ)) → get k m ≡ some p → Memᴰ (k, p) m
unfolding get
get-Memᴰ k p [] h = absurd (grind arith)
get-Memᴰ k p ((j, w) ∷ m) h = elim (Bool-cases (str_eq j k)) [
  | inl e ↦
      let same : k ≡ j = ground (arith, e, eq_iff j k) in
      let promise : w ≡ p = ground (arith, e, h) in
      Memᴰ.head (ap₂ (λ x y. (x, y)) same (sym promise))
  | inr e ↦ Memᴰ.tail (get-Memᴰ k p m (ground (arith, e, h)))
]

delete_absent :
    (k : String) (p : ℕ) (m : List (String × ℕ))
    → count (of_key k) m ≡ 0
    → (delete k m ≡ m) × (filter (λ load. not (is_load k p load)) m ≡ m)
unfolding delete
delete_absent k p [] h = (refl, refl)
delete_absent k p ((j, w) ∷ m) h =
    let rest = delete_absent k p m (ground (arith, h)) in
    (ground (arith, h, rest.0), ground (arith, h, rest.1))

delete-filter :
    (k : String) (p : ℕ) (m : List (String × ℕ))
    → count (of_key k) m ≤ 1
    → get k m ≡ some p
    → delete k m ≡ filter (λ load. not (is_load k p load)) m
unfolding get delete
delete-filter k p [] h e = refl
delete-filter k p ((j, w) ∷ m) h e = elim (Bool-cases (str_eq j k)) [
  | inl f ↦
      let rest = delete_absent k p m (ground (arith, h, f)) in
      let promise : w ≡ p = ground (arith, e, f) in ground (arith, f, rest.0, rest.1, promise)
  | inr f ↦ ground (arith, f, delete-filter k p m (ground (arith, h, f)) (ground (arith, e, f)))
]

count-filter_le :
    (test other : String × ℕ → Bool) (m : List (String × ℕ))
    → count test (filter other m) ≤ count test m
count-filter_le test other [] = omega arith
count-filter_le test other (load ∷ m) = ground (arith, count-filter_le test other m)

-- The map of active promises is the list of the loads that run, and no key has two of them.
pub record IsSingle (s : SingleFlight) : Type 0 where
  pub same : s.active ≡ s.loading
  pub single : (key : String) → count (of_key key) s.loading ≤ 1

run-IsSingle : (key : String) (s : SingleFlight) → IsSingle s → IsSingle (run key s).1
unfolding run
run-IsSingle key s i = elim (Option-cases (get key s.active)) [
  | inl e ↦
      let same : set key s.next s.active ≡ s.loading ++ (key, s.next) ∷ [] =
        set-append key s.next s.active e ∙ ap (λ m. m ++ (key, s.next) ∷ []) i.same in
      let absent = get-none key s.loading (subst (λ m. get key m ≡ none) i.same e) in
      let single : (k : String) → count (of_key k) (s.loading ++ (key, s.next) ∷ []) ≤ 1 = λ k.
        ground (
          arith,
          count-append (of_key k) s.loading ((key, s.next) ∷ []),
          i.single k,
          absent,
          eq_iff key k,
        ) in
      rw (e, run) (record { same = same; single = single })
  | inr (p, e) ↦ rw (e, run) i
]

end_load-IsSingle :
    (key : String) (pending : ℕ) (s : SingleFlight)
    → Memᴰ (key, pending) s.loading
    → IsSingle s
    → IsSingle (end_load key pending s)
unfolding end_load
end_load-IsSingle key pending s mem i =
    let present = get-of_Memᴰ key pending s.loading (i.single key) mem in
    let active : get key s.active ≡ some pending = ap (get key) i.same ∙ present in
    let same : delete key s.active ≡ filter (λ load. not (is_load key pending load)) s.loading =
      ap (delete key) i.same ∙ delete-filter key pending s.loading (i.single key) present in
    let single : (k : String)
        → count (of_key k) (filter (λ load. not (is_load key pending load)) s.loading) ≤ 1 =
      λ k. omega (
        arith,
        count-filter_le (of_key k) (λ load. not (is_load key pending load)) s.loading,
        i.single k,
      ) in
    let own : (pending == pending) ≡ true = ground arith in
    rw (end_load, active, own) (record { same = same; single = single })

-- At any time the active promises are exactly the loads that run, in the order in which they were started, and no
-- key has two loads that run.
pub Run-IsSingle : {s : SingleFlight} → Run s → IsSingle s
Run-IsSingle Run.start = record { same = refl; single = λ key. omega arith }
Run-IsSingle (Run.called {s} r key) = run-IsSingle key s (Run-IsSingle r)
Run-IsSingle (Run.settled {s} r key pending mem) =
    end_load-IsSingle key pending s mem (Run-IsSingle r)

-- A call gets the promise of the load of its key that runs, and changes nothing; or no load of its key runs, and the
-- call starts one.
run-shares :
    {s : SingleFlight}
    → Run s
    → (key : String)
    → (Memᴰ (key, (run key s).0) s.loading × ((run key s).1 ≡ s))
      ⊎ ((count (of_key key) s.loading ≡ 0)
          × ((run key s).0 ≡ s.next)
          × ((run key s).1.loading ≡ s.loading ++ (key, s.next) ∷ []))
unfolding run
run-shares {s} r key =
    let i = Run-IsSingle r in
    elim (Option-cases (get key s.active)) [
      | inl e ↦
          let absent = get-none key s.loading (subst (λ m. get key m ≡ none) i.same e) in
          rw (e, run) (inr (absent, refl, refl))
      | inr (p, e) ↦
          let running = get-Memᴰ key p s.loading (subst (λ m. get key m ≡ some p) i.same e) in
          rw (e, run) (inl (running, refl))
    ]
