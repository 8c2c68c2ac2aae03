-- ===== src/Mcp/Bounded.antt =====
-- What the history holds after any number of calls (mcp/src/history.ts).
use cryptotracker.Base.{
  push_append, append_nil, ℕ, zero, suc, ◌+◌, ◌-◌, ◌≤◌, ◌<◌, ◌≡◌, refl, sym, ap, subst, ◌∙◌, true,
  some, List, [], ◌∷◌, ◌++◌, arith, length, drop, length-append,
}
use cryptotracker.Mcp.History.{HistoryEntry, HistoryConfig, File, slice_last, read_entries, append}

module _ {ℓ} {A : Type ℓ} where
  drop-append : (k : ℕ) (xs ys : List A) → k ≤ length xs → drop k (xs ++ ys) ≡ drop k xs ++ ys
  drop-append zero xs ys h = refl
  drop-append (suc k) [] ys h = absurd (omega arith)
  drop-append (suc k) (x ∷ xs) ys h = drop-append k xs ys (omega arith)

  abbrev nothing : List A
  nothing = []

  drop-nil : (k : ℕ) → drop k nothing ≡ nothing
  drop-nil zero = refl
  drop-nil (suc k) = refl

  drop-drop : (j k : ℕ) (xs : List A) → drop j (drop k xs) ≡ drop (j + k) xs
  drop-drop j zero xs = ap (λ n. drop n xs) (omega arith)
  drop-drop j (suc k) [] = drop-nil j ∙ sym (drop-nil (j + suc k))
  drop-drop j (suc k) (x ∷ xs) =
      let shifted : suc (j + k) ≡ j + suc k = omega arith in
      subst (λ n. drop j (drop k xs) ≡ drop n (x ∷ xs)) shifted (drop-drop j k xs)

  length-drop : (k : ℕ) (xs : List A) → length (drop k xs) ≡ length xs - k
  length-drop zero xs = omega arith
  length-drop (suc k) [] = omega arith
  length-drop (suc k) (x ∷ xs) = length-drop k xs ∙ omega arith

  slice_last-drop : (n : ℕ) (xs : List A) → 0 < n → slice_last n xs ≡ drop (length xs - n) xs
  slice_last-drop n xs h = ground (arith, h)

  -- To cut before an element is added changes nothing.
  slice_last-push :
      (n : ℕ) (xs : List A) (x : A)
      → 0 < n
      → slice_last n (slice_last n xs ++ x ∷ []) ≡ slice_last n (xs ++ x ∷ [])
  slice_last-push n xs x h =
      let inner : slice_last n xs ++ x ∷ [] ≡ drop (length xs - n) (xs ++ x ∷ []) =
        ap (λ ys. ys ++ x ∷ []) (slice_last-drop n xs h)
        ∙ sym (drop-append (length xs - n) xs (x ∷ []) (omega arith)) in
      let size = length-append xs (x ∷ []) in
      let rest = length-drop (length xs - n) (xs ++ x ∷ []) in
      slice_last-drop n _ h
      ∙ ap (λ ys. drop (length ys - n) ys) inner
      ∙ drop-drop (length (drop (length xs - n) (xs ++ x ∷ [])) - n) (length xs - n) (xs ++ x ∷ [])
      ∙ ap (λ k. drop k (xs ++ x ∷ [])) (omega (arith, size, rest))
      ∙ sym (slice_last-drop n (xs ++ x ∷ []) h)

-- The entries are appended one after the other, and every write succeeds.
unfoldable pub append_all : HistoryConfig → List HistoryEntry → File → File
unfolding append
append_all config [] file = file
append_all config (entry ∷ entries) file = append_all config entries (append config true entry file)

append-read :
    (config : HistoryConfig) (entry : HistoryEntry) (file : File)
    → config.enabled ≡ true
    → append config true entry file
      ≡ some (slice_last config.max_entries (read_entries config file ++ entry ∷ []))
unfolding append
append-read config entry file on = rw on refl

read_some :
    (config : HistoryConfig) (entries : List HistoryEntry)
    → config.enabled ≡ true
    → read_entries config (some entries) ≡ entries
unfolding read_entries
read_some config entries on = rw on refl

slice_last-prefix :
    (config : HistoryConfig) (xs : List HistoryEntry) (entries : List HistoryEntry)
    → 0 < config.max_entries
    → config.enabled ≡ true
    → read_entries config (append_all config entries (some (slice_last config.max_entries xs)))
      ≡ slice_last config.max_entries (xs ++ entries)
unfolding append_all
slice_last-prefix config xs [] h on =
    read_some config _ on ∙ ap (slice_last config.max_entries) (sym (append_nil xs))
slice_last-prefix config xs (entry ∷ entries) h on =
    ap (λ file. read_entries config (append_all config entries file))
      (append-read config entry (some (slice_last config.max_entries xs)) on
        ∙ ap (λ es. some (slice_last config.max_entries (es ++ entry ∷ []))) (read_some config _ on)
        ∙ ap some (slice_last-push config.max_entries xs entry h))
    ∙ slice_last-prefix config (xs ++ entry ∷ []) entries h on
    ∙ ap (slice_last config.max_entries) (push_append xs entry entries)

-- After entries are appended, an enabled history holds the last `max_entries` of what it held and of them, in
-- the order in which they came.
pub append_all-last :
    (config : HistoryConfig) (entry : HistoryEntry) (entries : List HistoryEntry) (file : File)
    → config.enabled ≡ true
    → 0 < config.max_entries
    → read_entries config (append_all config (entry ∷ entries) file)
      ≡ slice_last config.max_entries (read_entries config file ++ entry ∷ entries)
unfolding append_all
append_all-last config entry entries file on h =
    ap (λ f. read_entries config (append_all config entries f)) (append-read config entry file on)
    ∙ slice_last-prefix config (read_entries config file ++ entry ∷ []) entries h on
    ∙ ap (slice_last config.max_entries) (push_append (read_entries config file) entry entries)
