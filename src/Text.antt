-- ===== src/Text.antt =====
-- The text handling that sync_service.py and search_service.py share. `unicodedata.normalize("NFKD",
-- …)` and `str.casefold` read the Unicode tables and are parameters; `str.split()`, `str.strip()` and
-- `" ".join(…)` are written out, over Python's whitespace.
use transaction_aggregator.Prelude.{
  ℕ, zero, suc, ◌≡◌, refl, Bool, true, false, ◌||◌, ◌&&◌, Option, none, some, List, [], ◌∷◌, leb,
  ◌==◌, if◌then◌else◌, any_where,
}
use Prim.Native.Char.{code}
use Prim.Native.String.{String, ◌++◌ as text_append}
use text.Mathlib.Text.{◌==◌ as str_eq}

pub record Unicode : Type 0 where
  pub nfkd : String → String
  pub casefold : String → String

abbrev pub is_space : ℕ → Bool
is_space c =
    (leb 9 c && leb c 13)
    || ((leb 28 c && leb c 32)
        || ((leb 8192 c && leb c 8202)
            || any_where (λ k. k == c) (133 ∷ 160 ∷ 5760 ∷ 8232 ∷ 8233 ∷ 8239 ∷ 8287 ∷ 12288 ∷ [])))

-- `code in CODES`; None is in no set of texts.
abbrev pub code_in : List String → Option String → Bool
code_in codes none = false
code_in codes (some code) = any_where (λ c. str_eq c code) codes

abbrev pub is_nonempty : String → Bool
is_nonempty String.[] = false
is_nonempty (String.◌∷◌ c s) = true

-- `value or default` on a text that may be None: the empty text is falsy too.
abbrev pub or_text : Option String → String → String
or_text none d = d
or_text (some s) d = if is_nonempty s then s else d

-- A word that ended, before the words after it; an empty word is dropped.
abbrev pub flush : String → List String → List String
flush String.[] ws = ws
flush (String.◌∷◌ c w) ws = String.◌∷◌ c w ∷ ws

-- The word that a text begins with, perhaps empty, and the words after it.
unfoldable pub split_word : String → String × List String
split_word String.[] = (String.[], [])
split_word (String.◌∷◌ c s) =
    let (w, ws) = split_word s in
    if is_space (code c) then (String.[], flush w ws) else (String.◌∷◌ c w, ws)

-- s.split()
unfoldable pub split : String → List String
unfolding split_word
split s = let (w, ws) = split_word s in flush w ws

-- " ".join(ws)
unfoldable pub join : List String → String
join [] = ""
join (w ∷ []) = w
join (w ∷ v ∷ ws) = text_append w (text_append " " (join (v ∷ ws)))

-- `" ".join(folded.casefold().split())`
unfoldable pub collapse : Unicode → String → String
unfolding split join
collapse u folded = join (split (u.casefold folded))

-- `part for part in parts if part`
abbrev pub present_parts : List (Option String) → List String
present_parts [] = []
present_parts (none ∷ ps) = present_parts ps
present_parts (some p ∷ ps) = if is_nonempty p then p ∷ present_parts ps else present_parts ps

unfoldable pub normalize_search_text : Unicode → List (Option String) → String
unfolding collapse
normalize_search_text u parts = collapse u (u.nfkd (join (present_parts parts)))

split_test : split "  Paze  To Go " ≡ "Paze" ∷ "To" ∷ "Go" ∷ []
unfolding split
split_test = refl

abbrev pub text_length : String → ℕ
text_length String.[] = 0
text_length (String.◌∷◌ c s) = suc (text_length s)

abbrev pub append : String → String → String
append String.[] t = t
append (String.◌∷◌ c s) t = String.◌∷◌ c (append s t)

-- "=" * n
abbrev pub padding : ℕ → String
padding zero = String.[]
padding (suc n) = append "=" (padding n)
