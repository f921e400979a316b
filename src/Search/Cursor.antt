-- ===== src/Search/Cursor.antt =====
-- backend/app/services/search_service.py: `CursorCodec`, `AggregateCursorCodec`, `_b64` and `_unb64`.
-- Bytes are texts. HMAC, JSON and base64 are not in the repository and are parameters.
use transaction_aggregator.Prelude.{
  ℕ, ◌-◌, ◌%◌, Bool, not, ◌&&◌, Option, none, some, ◌==◌, if◌then◌else◌,
}
use transaction_aggregator.Errors.{Result, ok, raise, ◌>>=◌}
use transaction_aggregator.Text.{append, is_nonempty, padding, text_length}
use Prim.Native.Char.{code}
use Prim.Native.String.{String}
use text.Mathlib.Text.{◌==◌ as str_eq}

-- What a cursor says: {"c": card, "d": date, "i": id} or {"q": query, "d": date, "i": id}.
pub data Payload : Type 0 where
  of_card : ℕ → Option ℕ → ℕ → Payload
  of_query : String → Option ℕ → ℕ → Payload

-- `json.dumps`, `json.loads` (`none` is text that is no such object), the first 16 bytes of the HMAC
-- under the application secret, and the base64 functions (`none` is a ValueError).
pub record Signing : Type 0 where
  pub dumps : Payload → String
  pub loads : String → Option Payload
  pub sign : String → String
  pub urlsafe_b64encode : String → String
  pub urlsafe_b64decode : String → Option String

abbrev pub is_padding : Prim.Native.Char.Char → Bool
is_padding c = code c == 61

-- s.rstrip("=")
abbrev pub strip_padding : String → String
strip_padding String.[] = String.[]
strip_padding (String.◌∷◌ c s) =
    let rest = strip_padding s in
    if is_padding c && not (is_nonempty rest) then String.[] else String.◌∷◌ c rest

abbrev pub b64 : Signing → String → String
b64 g raw = strip_padding (g.urlsafe_b64encode raw)

-- `-n % 4` is the number that is missing to the next multiple of 4.
abbrev pub unb64 : Signing → String → Option String
unb64 g value = g.urlsafe_b64decode (append value (padding ((4 - text_length value % 4) % 4)))

-- cursor.split(".", 1); a text without a dot is a ValueError.
abbrev pub cut_at_dot : String → Option (String × String)
cut_at_dot String.[] = none
cut_at_dot (String.◌∷◌ c s) =
    let rest = cut_at_dot s in
    if code c == 46
    then some (String.[], s)
    else elim rest [ none ↦ none | some (before, after) ↦ some (String.◌∷◌ c before, after) ]

unfoldable pub seal : Signing → Payload → String
seal g p = let payload = g.dumps p in append (b64 g payload) (append "." (b64 g (g.sign payload)))

abbrev pub cursor_invalid {ℓ} : {A : Type ℓ} → Result A
cursor_invalid = raise "CURSOR_INVALID" 400

abbrev pub loaded : Option Payload → Result Payload
loaded none = cursor_invalid
loaded (some p) = ok p

abbrev pub verified : Signing → Option String → Option String → Result Payload
verified g none signature = cursor_invalid
verified g (some payload) none = cursor_invalid
verified g (some payload) (some signature) =
    if str_eq (g.sign payload) signature then loaded (g.loads payload) else cursor_invalid

abbrev pub open_parts : Signing → Option (String × String) → Result Payload
open_parts g none = cursor_invalid
open_parts g (some (payload_part, signature_part)) =
    verified g (unb64 g payload_part) (unb64 g signature_part)

-- The checks of `decode` that the two codecs share.
unfoldable pub open_seal : Signing → String → Result Payload
open_seal g cursor = open_parts g (cut_at_dot cursor)

abbrev pub of_card_only : ℕ → Payload → Result (Option ℕ × ℕ)
of_card_only expected (of_card c d i) = if c == expected then ok (d, i) else cursor_invalid
of_card_only expected (of_query q d i) = cursor_invalid

abbrev pub of_query_only : String → Payload → Result (Option ℕ × ℕ)
of_query_only expected (of_card c d i) = cursor_invalid
of_query_only expected (of_query q d i) = if str_eq q expected then ok (d, i) else cursor_invalid

-- CursorCodec
abbrev pub encode_card : Signing → ℕ → Option ℕ → ℕ → String
encode_card g card_id sort_date row_id = seal g (of_card card_id sort_date row_id)

unfoldable pub decode_card : Signing → String → ℕ → Result (Option ℕ × ℕ)
decode_card g cursor expected = open_seal g cursor >>= of_card_only expected

-- AggregateCursorCodec
abbrev pub encode_query : Signing → String → Option ℕ → ℕ → String
encode_query g query sort_date row_id = seal g (of_query query sort_date row_id)

unfoldable pub decode_query : Signing → String → String → Result (Option ℕ × ℕ)
decode_query g cursor expected = open_seal g cursor >>= of_query_only expected
