-- ===== src/Mcp/History.antt =====
-- `HistoryStore` (mcp/src/history.ts). The file is the list of entries that it holds, or nothing readable; the
-- writes are in sequence, as the promise chain `writeQueue` makes them, and a write that fails changes nothing.
use cryptotracker.Base.{
  ℕ, ◌-◌, ◌==◌, String, Bool, true, ◌&&◌, ◌||◌, Option, none, some, List, [], ◌∷◌, ◌++◌, reverse,
  if◌then◌else◌, str_eq, filter, length, drop, get_or_else,
}

pub record HistoryEntry : Type 0 where
  pub timestamp : String
  pub request_id : String
  pub identity_name : String
  pub role : String
  pub tool_name : String
  pub action : String
  pub applied : Bool
  pub result : String
  pub source_ip : Option String
  pub arguments : String

pub record HistoryConfig : Type 0 where
  pub enabled : Bool
  pub max_entries : ℕ

-- `xs.slice(-n)`, which is the whole list for 0.
abbrev pub slice_last {ℓ} : {A : Type ℓ} → ℕ → List A → List A
slice_last n xs = if n == 0 then xs else drop (length xs - n) xs

abbrev pub File : Type 0
File = Option (List HistoryEntry)

unfoldable pub read_entries : HistoryConfig → File → List HistoryEntry
read_entries config file = if config.enabled then get_or_else file [] else []

-- `written` is whether the new file could be written and renamed.
unfoldable pub append : HistoryConfig → Bool → HistoryEntry → File → File
unfolding read_entries
append config written entry file =
    if config.enabled && written
    then some (slice_last config.max_entries (read_entries config file ++ entry ∷ []))
    else file

-- A criterion that is missing or empty takes every entry.
abbrev pub fits : Option String → String → Bool
fits none text = true
fits (some wanted) text = str_eq wanted "" || str_eq text wanted

unfoldable pub search :
    HistoryConfig → ℕ → Option String → Option String → Option String → File → List HistoryEntry
unfolding read_entries
search config limit identity_name tool_name result file = reverse (
    slice_last limit (
      filter (λ entry. fits result entry.result)
        (filter (λ entry. fits tool_name entry.tool_name)
          (filter (λ entry. fits identity_name entry.identity_name) (read_entries config file)))))
