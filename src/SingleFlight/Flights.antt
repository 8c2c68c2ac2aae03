-- ===== src/SingleFlight/Flights.antt =====
-- The class `SingleFlight` (api/src/utils/single-flight.ts). A promise is named by a number, `next` is the name of the
-- next one, and `loading` lists the keys and promises whose `load` runs: `run` starts one with each new promise.
use cryptotracker.Base.{
  ℕ, suc, ◌==◌, String, Bool, ◌&&◌, not, none, some, List, [], ◌∷◌, ◌++◌, str_eq, filter,
  if◌then◌else◌,
}
use cryptotracker.Base.Maps.{get, set, delete}

pub record SingleFlight : Type 0 where
  pub active : List (String × ℕ)
  pub loading : List (String × ℕ)
  pub next : ℕ

abbrev pub no_flights : SingleFlight
no_flights = record { active = []; loading = []; next = 0 }

-- A call: the promise that it returns, and the state after it.
unfoldable pub run : String → SingleFlight → ℕ × SingleFlight
unfolding get set
run key s = elim (get key s.active) [
  | some existing ↦ (existing, s)
  | none ↦ (
    s.next,
    record {
      active = set key s.next s.active;
      loading = s.loading ++ (key, s.next) ∷ [];
      next = suc s.next;
    },
  )
]

abbrev pub is_load : String → ℕ → String × ℕ → Bool
is_load key pending load = str_eq load.0 key && load.1 == pending

-- A load ends, with a value or an error, and the callback of `finally` runs.
unfoldable pub end_load : String → ℕ → SingleFlight → SingleFlight
unfolding get delete
end_load key pending s =
    let is_own : Bool = elim (get key s.active) [
      | none ↦ Bool.false
      | some promise ↦ promise == pending
    ] in
    record s {
      active = if is_own then delete key s.active else s.active;
      loading = filter (λ load. not (is_load key pending load)) s.loading;
    }
