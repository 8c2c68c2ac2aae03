-- ===== src/Auth/Throttle.antt =====
-- Wrong passwords are throttled (api/src/auth/service.ts).

use cryptotracker.Base.{
  ℕ, suc, max, ◌/◌, ltb, true, ◌+◌, ◌-◌, ◌≤◌, ◌<◌, leb, ◌==◌, ==_iff, ◌≡◌, refl, sym, ap, ◌∙◌,
  subst, false, Option, none, some, arith, Option-cases, Bool-cases, inl, inr, if◌then◌else◌,
}
use cryptotracker.Base.Codes.{Text, same_codes_iff}
use cryptotracker.Base.TextMaps.{get}
use cryptotracker.Auth.Records.{
  LoginFailureState, AuthConfig, Request, AuthState, normalize_username,
}
use cryptotracker.Auth.Login.{
  next_entry, failures_of, failure_key, blocked_for, count_failure, denied_login, begin_login,
  end_login,
}
use cryptotracker.Auth.Failures.{get-forget_block_own, get-count_failure}

-- An entry blocks exactly from the limit on.
abbrev pub IsCounted : Option LoginFailureState → Type 0
IsCounted none = Unit
IsCounted (some entry) =
    (entry.blocked_until_ms ≡ 0 → entry.failures < 10)
    × ((entry.blocked_until_ms == 0) ≡ false → 10 ≤ entry.failures)

pub next_entry-IsCounted : (now failures : ℕ) → IsCounted (some (next_entry now failures))
next_entry-IsCounted now failures = (λ h. ground (arith, h), λ h. ground (arith, h))

-- How many wrong attempts may still be counted before a time until every further one is refused.
abbrev budget : ℕ → Option LoginFailureState → ℕ
budget end none = 10
budget end (some entry) =
    if entry.blocked_until_ms == 0
    then 10 - entry.failures
    else if leb end entry.blocked_until_ms
    then 0
    else 10

budget-le : (end : ℕ) (entry : Option LoginFailureState) → budget end entry ≤ 10
budget-le end none = omega arith
budget-le end (some entry) = ground arith

budget_count :
    (start now : ℕ) (entry : Option LoginFailureState)
    → IsCounted entry
    → start ≤ now
    → budget (start + 10000) (some (next_entry now (failures_of entry)))
      ≤ budget (start + 10000) entry - 1
budget_count start now none c lo = ground (arith, lo)
budget_count start now (some entry) c lo = elim (Bool-cases (entry.blocked_until_ms == 0)) [
  | inl e ↦ let few = c.0 ((==_iff entry.blocked_until_ms 0).0 e) in rw e (ground (arith, few, lo))
  | inr e ↦ let many = c.1 e in rw e (ground (arith, many, lo))
]

budget_forget :
    (start now : ℕ) (entry : Option LoginFailureState)
    → now < start + 10000
    → blocked_for now entry ≡ none
    → budget (start + 10000) (elim entry [
      | none ↦ none
      | some previous ↦ if previous.blocked_until_ms == 0 then some previous else none
    ])
      ≡ budget (start + 10000) entry
unfolding blocked_for
budget_forget start now none hi free = refl
budget_forget start now (some entry) hi free = elim (Bool-cases (entry.blocked_until_ms == 0)) [
  | inl e ↦
      let same : (if entry.blocked_until_ms == 0 then some entry else none) ≡ some entry =
        rw e refl in
      ap (budget (start + 10000)) same
  | inr e ↦
      let past : leb (start + 10000) entry.blocked_until_ms ≡ false = ground (arith, free, hi) in
      rw (e, past) refl
]

budget-blocked :
    (start now : ℕ) (entry : Option LoginFailureState)
    → IsCounted entry
    → now < start + 10000
    → budget (start + 10000) entry ≡ 0
    → (seconds : ℕ) × (blocked_for now entry ≡ some seconds)
unfolding blocked_for
budget-blocked start now none c hi spent = absurd (omega (arith, spent))
budget-blocked start now (some entry) c hi spent = elim (Bool-cases (entry.blocked_until_ms == 0)) [
  | inl e ↦
      let few = c.0 ((==_iff entry.blocked_until_ms 0).0 e) in
      absurd (ground (arith, e, few, spent))
  | inr e ↦
      let blocks : ltb now entry.blocked_until_ms ≡ true = ground (arith, e, spent, hi) in
      (max 1 ((entry.blocked_until_ms - now + 999) / 1000), rw blocks refl)
]

module _ (config : AuthConfig) (is_ip : Text → ℕ) where
  abbrev pub key_of : Request → Text → Text
  key_of req username = failure_key is_ip req (normalize_username username)

  abbrev pub entry_of : Text → AuthState → Option LoginFailureState
  entry_of key s = get key s.login_failures

  -- What happens to the attempts of one key within ten seconds: they begin and end in any order, none with the right
  -- password, and everything else leaves their entry. `counted` of them have ended.
  pub data Window (key : Text) (start : ℕ) (s : AuthState)
      : (counted : ℕ) → AuthState → Type 0 where
    opened : Window key start s 0 s
    began :
        {counted : ℕ} {t : AuthState}
        → Window key start s counted t
        → (now : ℕ) (req : Request) (username : Text) → key_of req username ≡ key
        → start ≤ now
        → now < start + 10000
        → Window key start s counted (begin_login is_ip now req username t).1
    ended :
        {counted : ℕ} {t : AuthState}
        → Window key start s counted t
        → (now : ℕ) (req : Request) (username id csrf : Text) → key_of req username ≡ key
        → start ≤ now
        → now < start + 10000
        → Window key start s
            (suc counted)
            (end_login config is_ip id csrf now req username none t).1
    aside :
        {counted : ℕ} {t : AuthState}
        → Window key start s counted t
        → (u : AuthState) → entry_of key u ≡ entry_of key t
        → Window key start s counted u

  record IsSpent (start counted : ℕ) (entry : Option LoginFailureState) : Type 0 where
    limited : IsCounted entry
    left : budget (start + 10000) entry ≤ 10 - counted

  begun-IsSpent :
      (start counted now : ℕ) (req : Request) (username : Text) (t : AuthState)
      → now < start + 10000
      → IsSpent start counted (entry_of (key_of req username) t)
      → IsSpent start counted
          (entry_of (key_of req username) (begin_login is_ip now req username t).1)
  unfolding begin_login
  begun-IsSpent start counted now req username t hi spent =
      let key = key_of req username in
      elim (Option-cases (blocked_for now (get key t.login_failures))) [
        | inr (seconds, e) ↦ rw (e, begin_login) spent
        | inl free ↦
            let left = spent.left in
            let same = budget_forget start now (get key t.login_failures) hi free in
            rw (free, begin_login)
              (subst (IsSpent start counted) (sym (get-forget_block_own key t.login_failures))
                (record {
                  limited = forgotten (get key t.login_failures) spent.limited;
                  left = omega (arith, left, same);
                }))
      ]
    where
      forgotten :
          (entry : Option LoginFailureState)
          → IsCounted entry
          → IsCounted (elim entry [
            | none ↦ none
            | some previous ↦ if previous.blocked_until_ms == 0 then some previous else none
          ])
      forgotten none c = tt
      forgotten (some entry) c = elim (Bool-cases (entry.blocked_until_ms == 0)) [
        | inl e ↦ rw e c
        | inr e ↦ rw e tt
      ]

  ended-IsSpent :
      (start counted now : ℕ) (req : Request) (username id csrf : Text) (t : AuthState)
      → start ≤ now
      → IsSpent start counted (entry_of (key_of req username) t)
      → IsSpent start (suc counted) (
          entry_of (key_of req username) (end_login config is_ip id csrf now req username none t).1)
  unfolding end_login denied_login
  ended-IsSpent start counted now req username id csrf t lo spent =
      let key = key_of req username in
      let entry = get key t.login_failures in
      let left = spent.left in
      let counted_entry : get key (count_failure now key t.login_failures)
          ≡ some (next_entry now (failures_of entry)) =
        get-count_failure key t.login_failures now key
        ∙ rw ((same_codes_iff key key).1 refl) refl in
      subst (IsSpent start (suc counted)) (sym counted_entry) (record {
        limited = next_entry-IsCounted now (failures_of entry);
        left = omega (arith, left, budget_count start now entry spent.limited lo);
      })

  Window-IsSpent :
      (key : Text) (start : ℕ) (s : AuthState)
      → IsCounted (entry_of key s)
      → {counted : ℕ} {t : AuthState} → Window key start s counted t
      → IsSpent start counted (entry_of key t)
  Window-IsSpent key start s c opened = record {
    limited = c;
    left = budget-le (start + 10000) (entry_of key s);
  }
  Window-IsSpent key start s c (began {counted} {t} w now req username own lo hi) =
      let spent =
        subst (λ k. IsSpent start counted (entry_of k t)) (sym own)
          (Window-IsSpent key start s c w) in
      subst (λ k. IsSpent start counted (entry_of k (begin_login is_ip now req username t).1)) own
        (begun-IsSpent start counted now req username t hi spent)
  Window-IsSpent key start s c (ended {counted} {t} w now req username id csrf own lo hi) =
      let spent =
        subst (λ k. IsSpent start counted (entry_of k t)) (sym own)
          (Window-IsSpent key start s c w) in
      subst
        (λ k.
          IsSpent start (suc counted)
            (entry_of k (end_login config is_ip id csrf now req username none t).1))
        own (ended-IsSpent start counted now req username id csrf t lo spent)
  Window-IsSpent key start s c (aside {counted} w u same) =
      subst (IsSpent start counted) (sym same) (Window-IsSpent key start s c w)

  pub Window-refused :
      (key : Text) (start : ℕ) (s : AuthState)
      → IsCounted (entry_of key s)
      → {counted : ℕ} {t : AuthState} → Window key start s counted t
      → 10 ≤ counted
      → (now : ℕ) (req : Request) (username : Text) → key_of req username ≡ key
      → now < start + 10000
      → (seconds : ℕ) × (begin_login is_ip now req username t ≡ (some seconds, t))
  unfolding begin_login
  Window-refused key start s c {counted} {t} w many now req username own hi =
      let spent =
        subst (λ k. IsSpent start counted (entry_of k t)) (sym own)
          (Window-IsSpent key start s c w) in
      let left = spent.left in
      let (seconds, e) =
        budget-blocked start now (entry_of (key_of req username) t) spent.limited hi
          (omega (arith, left, many)) in
      (seconds, rw (e, begin_login) refl)
