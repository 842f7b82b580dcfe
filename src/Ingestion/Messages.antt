-- ===== src/Ingestion/Messages.antt =====
-- `_safe_error` of application/ingestion_pipeline.py, on the characters of an exception's text.
use andromeda_knowledge_core.Prelude.{
  ℕ, zero, suc, String, true, false, Char, code, ◌==◌, if◌then◌else◌,
}
use andromeda_knowledge_core.Text.{◌+++◌, is_space}
use andromeda_knowledge_core.Ingestion.{Exception}

unfoldable pub strip_start : String → String
strip_start String.[] = String.[]
strip_start (String.◌∷◌ c s) = elim (is_space c) [ true ↦ strip_start s | false ↦ String.◌∷◌ c s ]

-- A character in front of what is left of the rest: a space at the end goes.
abbrev pub keep_char : Char → String → String
keep_char c String.[] = if is_space c then String.[] else String.◌∷◌ c String.[]
keep_char c (String.◌∷◌ d s) = String.◌∷◌ c (String.◌∷◌ d s)

unfoldable pub strip_end : String → String
strip_end String.[] = String.[]
strip_end (String.◌∷◌ c s) = keep_char c (strip_end s)

-- `s.strip()`
unfoldable pub strip : String → String
strip s = strip_end (strip_start s)

abbrev pub line_feed : ℕ
line_feed = 10

-- `s.replace("\n", " ")`
unfoldable pub one_line : String → String
one_line String.[] = String.[]
one_line (String.◌∷◌ c s) = elim (code c == line_feed) [
  | true ↦ " " +++ one_line s
  | false ↦ String.◌∷◌ c (one_line s)
]

-- `s[:n]`
unfoldable pub take_text : ℕ → String → String
take_text zero s = String.[]
take_text (suc n) String.[] = String.[]
take_text (suc n) (String.◌∷◌ c s) = String.◌∷◌ c (take_text n s)

-- `s or t`
abbrev pub or_text : String → String → String
or_text String.[] t = t
or_text (String.◌∷◌ c s) t = String.◌∷◌ c s

-- `_safe_error(error)`
unfoldable pub safe_error : Exception → String
safe_error error = or_text (take_text 500 (one_line (strip error.text))) error.class_name
