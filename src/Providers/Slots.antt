-- ===== src/Providers/Slots.antt =====
-- The slots of a provider (api/src/providers/rate-limiter.ts). A call of `acquire` that finds no slot waits; a
-- `release` resolves the first waiting call, which goes on in a later microtask: until then it is `resumed`.
use cryptotracker.Base.{ℕ, suc, ◌-◌, leb, Option, none, some, List, [], ◌∷◌, ◌++◌, if◌then◌else◌}

pub record Slots : Type 0 where
  pub active : ℕ
  pub waiting : List ℕ
  pub resumed : List ℕ

-- `acquire` up to its first wait, by the call `id`.
unfoldable pub acquire : ℕ → ℕ → Slots → Slots
acquire concurrency id s =
    if leb concurrency s.active
    then record s { waiting = s.waiting ++ id ∷ [] }
    else record s { active = suc s.active }

-- A resolved call goes on after its wait.
unfoldable pub resume : Slots → Option Slots
resume s = elim s.resumed [
  | [] ↦ none
  | id ∷ rest ↦ some (record s { active = suc s.active; resumed = rest })
]

unfoldable pub release : Slots → Slots
release s = elim s.waiting [
  | [] ↦ record s { active = s.active - 1 }
  | id ∷ rest ↦ record { active = s.active - 1; waiting = rest; resumed = s.resumed ++ id ∷ [] }
]
