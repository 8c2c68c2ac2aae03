-- ===== src/Auth/Failures.antt =====
-- How a failed login changes the failures that are remembered (api/src/auth/service.ts).
use cryptotracker.Base.{
  ℕ, ◌==◌, ◌≡◌, refl, ◌∙◌, false, none, some, List, Option-cases, Bool-cases, inl, inr,
  if◌then◌else◌,
}
use cryptotracker.Base.Codes.{Text, same_codes, same_codes_iff}
use cryptotracker.Base.TextMaps.{get, get-set, get-delete}
use cryptotracker.Auth.Records.{LoginFailureState}
use cryptotracker.Auth.Login.{failures_of, next_entry, forget_block, count_failure}

module _ (key : Text) (known : List (Text × LoginFailureState)) where
  pub get-forget_block :
      (j : Text) → same_codes key j ≡ false → get j (forget_block key known) ≡ get j known
  unfolding forget_block
  get-forget_block j other = elim (Option-cases (get key known)) [
    | inl e ↦ rw (e, forget_block) refl
    | inr (previous, e) ↦ elim (Bool-cases (previous.blocked_until_ms == 0)) [
      | inl f ↦ rw (e, f, forget_block) refl
      | inr f ↦ rw (e, f, forget_block) (get-delete key j known ∙ rw other refl)
    ]
  ]

  -- What is left of an entry, when a block that is over is forgotten.
  pub get-forget_block_own : get key (forget_block key known) ≡ elim (get key known) [
    | none ↦ none
    | some previous ↦ if previous.blocked_until_ms == 0 then some previous else none
  ]
  unfolding forget_block
  get-forget_block_own = elim (Option-cases (get key known)) [
    | inl e ↦ rw (e, forget_block) e
    | inr (previous, e) ↦ elim (Bool-cases (previous.blocked_until_ms == 0)) [
      | inl f ↦ rw (e, f, forget_block) e
      | inr f ↦
          rw (e, f, forget_block)
            (get-delete key key known ∙ rw ((same_codes_iff key key).1 refl) refl)
    ]
  ]

  -- The entries after one more failure of a key: its own is counted on, the others stay.
  pub get-count_failure :
      (now : ℕ) (j : Text)
      → get j (count_failure now key known) ≡ (
          if same_codes key j
          then some (next_entry now (failures_of (get key known)))
          else get j known)
  unfolding count_failure
  get-count_failure now j = get-set key j (next_entry now (failures_of (get key known))) known
