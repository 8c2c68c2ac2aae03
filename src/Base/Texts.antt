-- ===== src/Base/Texts.antt =====
-- Texts that may be null in the positions where JavaScript tests, compares and collects them.
use mathlib.Core.Bool.{Bool, true, false, not}
use mathlib.Core.Option.{Option, none, some}
use mathlib.Core.List.{List, [], ◌∷◌, ◌++◌}
use Prim.Native.String.{String}
use text.Mathlib.Text.{◌==◌ as str_eq}
use cryptotracker.Base.Tests.{if◌then◌else◌}
use cryptotracker.Base.Lists.{any}

-- A text in a Boolean position: null and the empty text are false.
abbrev pub is_truthy : Option String → Bool
is_truthy none = false
is_truthy (some text) = not (str_eq text "")

-- `a === b`
abbrev pub same_text : Option String → Option String → Bool
same_text (some a) (some b) = str_eq a b
same_text none none = true
same_text _ _ = false

-- `[...new Set(texts)]`, from what was seen.
unfoldable pub unique : List String → List String → List String
unique [] seen = seen
unique (text ∷ texts) seen =
    unique texts (if any (λ other. str_eq other text) seen then seen else seen ++ text ∷ [])
