-- ===== src/Search/Query.antt =====
-- backend/app/services/search_service.py: `normalize_query` and `transaction_match_filter`. The full
-- text index and LIKE belong to SQLite and are parameters.
use transaction_aggregator.Prelude.{
  ℕ, zero, suc, ◌≡◌, refl, Bool, true, false, not, ◌&&◌, Option, none, some, ◌==◌, leb, or_else,
  if◌then◌else◌,
}
use Prim.Native.Char.{code}
use transaction_aggregator.Text.{text_length}
use Prim.Native.String.{String, ◌++◌ as text_append}
use transaction_aggregator.Text.{Unicode, is_space, is_nonempty, collapse}
use transaction_aggregator.Models.Ledger.{Transaction}

-- MAX_QUERY_LENGTH, TRIGRAM_MINIMUM
abbrev pub max_query_length : ℕ
max_query_length = 100

abbrev pub trigram_minimum : ℕ
trigram_minimum = 3

-- s[:n]
abbrev pub truncate : ℕ → String → String
truncate zero s = String.[]
truncate (suc n) String.[] = String.[]
truncate (suc n) (String.◌∷◌ c s) = String.◌∷◌ c (truncate n s)

abbrev pub strip_left : String → String
strip_left String.[] = String.[]
strip_left (String.◌∷◌ c s) = if is_space (code c) then strip_left s else String.◌∷◌ c s

abbrev pub strip_right : String → String
strip_right String.[] = String.[]
strip_right (String.◌∷◌ c s) =
    let rest = strip_right s in
    if is_space (code c) && not (is_nonempty rest) then String.[] else String.◌∷◌ c rest

-- s.strip()
abbrev pub strip : String → String
strip s = strip_right (strip_left s)

-- s.replace(c, r), for a text of one character.
abbrev pub replace : ℕ → String → String → String
replace k r String.[] = String.[]
replace k r (String.◌∷◌ c s) =
    let rest = replace k r s in if code c == k then text_append r rest else String.◌∷◌ c rest

pub record NormalizedQuery : Type 0 where
  pub raw : String
  pub normalized : String
  pub is_blank : Bool
  pub uses_index : Bool
  pub fts_expression : Option String
  pub like_pattern : Option String

-- One literal phrase, its quotes doubled.
abbrev pub fts_phrase : String → String
fts_phrase s = text_append "\"" (text_append (replace 34 "\"\"" s) "\"")

-- A LIKE pattern that holds the text with `\`, `%` and `_` escaped.
abbrev pub like_substring : String → String
like_substring s =
    text_append "%" (text_append (replace 95 "\\_" (replace 37 "\\%" (replace 92 "\\\\" s))) "%")

abbrev pub query_of : String → String → NormalizedQuery
query_of raw normalized =
    if not (is_nonempty normalized)
    then record {
      raw = raw;
      normalized = "";
      is_blank = true;
      uses_index = false;
      fts_expression = none;
      like_pattern = none;
    }
    else if leb trigram_minimum (text_length normalized)
    then record {
      raw = raw;
      normalized = normalized;
      is_blank = false;
      uses_index = true;
      fts_expression = some (fts_phrase normalized);
      like_pattern = none;
    }
    else record {
      raw = raw;
      normalized = normalized;
      is_blank = false;
      uses_index = false;
      fts_expression = none;
      like_pattern = some (like_substring normalized);
    }

unfoldable pub normalize_query : Unicode → Option String → NormalizedQuery
normalize_query u query =
    let raw = strip (or_else query "") in
    query_of raw (collapse u (truncate max_query_length (u.nfkd raw)))

-- `transactions_fts MATCH expression` on the row of a text, and `text LIKE pattern ESCAPE '\'`.
pub record TextIndex : Type 0 where
  pub fts_match : String → String → Bool
  pub like : String → String → Bool

unfoldable pub transaction_match_filter : TextIndex → NormalizedQuery → Transaction → Bool
transaction_match_filter index q t =
    if q.is_blank
    then true
    else if q.uses_index
    then index.fts_match (or_else q.fts_expression "") t.search_text
    else index.like (or_else q.like_pattern "") t.search_text

quoted : fts_phrase "a\"b" ≡ "\"a\"\"b\""
quoted = refl
