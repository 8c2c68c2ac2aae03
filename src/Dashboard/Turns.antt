-- ===== src/Dashboard/Turns.antt =====
-- The loads run in turn, and as many at once as allowed (wui/src/lib/dashboard-load-queue.ts).
use cryptotracker.Base.{
  push_append, append_assoc, length-push, ℕ, suc, ◌+◌, ◌-◌, ◌≤◌, ◌<◌, ltb, ◌≡◌, refl, sym, ap, ◌∙◌,
  List, [], ◌∷◌, ◌++◌, arith, length, inl, inr, Bool-cases,
}
use cryptotracker.Dashboard.LoadQueue.{
  LoadQueue, empty_queue, concurrency_of, start_pending, start_next, queue_load, finish_load,
}

-- What has happened to the queue: the loads in the order in which they came, and how many have ended.
pub data Run (maximum : ℕ) : List ℕ → ℕ → LoadQueue → Type 0 where
  start : Run maximum [] 0 empty_queue
  queued :
      {loads : List ℕ} {ended : ℕ} {q : LoadQueue}
      → Run maximum loads ended q
      → (load : ℕ) → Run maximum (loads ++ load ∷ []) ended (queue_load maximum load q)
  finished :
      {loads : List ℕ} {ended : ℕ} {q : LoadQueue}
      → Run maximum loads ended q
      → 0 < q.active
      → Run maximum loads (suc ended) (finish_load maximum q)

pub record IsFair (maximum : ℕ) (loads : List ℕ) (ended : ℕ) (q : LoadQueue) : Type 0 where
  pub in_turn : q.started ++ q.pending ≡ loads
  pub within : q.active ≤ concurrency_of maximum
  pub busy : 0 < length q.pending → q.active ≡ concurrency_of maximum
  pub counted : length q.started ≡ q.active + ended

start_pending-IsFair :
    (maximum : ℕ) (pending : List ℕ) (active : ℕ) (started : List ℕ) (loads : List ℕ) (ended : ℕ)
    → started ++ pending ≡ loads
    → active ≤ concurrency_of maximum
    → length started ≡ active + ended
    → IsFair maximum loads ended (start_pending (concurrency_of maximum) pending active started)
unfolding start_pending
start_pending-IsFair maximum [] active started loads ended turn within count = record {
  in_turn = turn;
  within = within;
  busy = λ h. absurd (omega arith);
  counted = count;
}
start_pending-IsFair maximum (next ∷ pending) active started loads ended turn within count =
    elim (Bool-cases (ltb active (concurrency_of maximum))) [
      | inl free ↦
          let later : IsFair maximum loads ended
              (start_pending (concurrency_of maximum) pending (suc active) (started ++ next ∷ [])) =
            start_pending-IsFair maximum pending (suc active) (started ++ next ∷ []) loads ended
              (push_append started next pending ∙ turn) (ground (arith, free))
              (length-push started next ∙ omega (arith, count)) in
          rw free later
      | inr full ↦ rw full (record {
        in_turn = turn;
        within = within;
        busy = λ h. ground (arith, full, within);
        counted = count;
      })
    ]

-- At any time the loads that were started are the first ones that came; at most the allowed number run at once,
-- exactly that number while one waits; and all that started run or have ended.
pub Run-IsFair :
    (maximum : ℕ) {loads : List ℕ} {ended : ℕ} {q : LoadQueue}
    → Run maximum loads ended q
    → IsFair maximum loads ended q
unfolding queue_load finish_load start_next
Run-IsFair maximum Run.start = record {
  in_turn = refl;
  within = omega arith;
  busy = λ h. absurd (omega arith);
  counted = refl;
}
Run-IsFair maximum (Run.queued {loads} {ended} {q} r load) =
    let f = Run-IsFair maximum r in
    start_pending-IsFair maximum (q.pending ++ load ∷ []) q.active q.started (loads ++ load ∷ [])
      ended
      (sym (append_assoc q.started q.pending (load ∷ [])) ∙ ap (λ xs. xs ++ load ∷ []) f.in_turn)
      f.within f.counted
Run-IsFair maximum (Run.finished {loads} {ended} {q} r some_active) =
    let f = Run-IsFair maximum r in
    let within = f.within in
    let counted = f.counted in
    start_pending-IsFair maximum q.pending (q.active - 1) q.started loads (suc ended) f.in_turn
      (omega (arith, within)) (omega (arith, counted, some_active))
