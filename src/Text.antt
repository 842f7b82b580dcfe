-- ===== src/Text.antt =====
-- The methods of `str` that the program uses: `split(".")`, `".".join`, `startswith`, `endswith`
-- and slices, on the characters of a text.
use andromeda_knowledge_core.Prelude.{
  ℕ, String, Char, code, Bool, true, false, List, [], ◌∷◌, ◌==◌, if◌then◌else◌, ◌&&◌, ◌||◌, leb,
}

-- The code point of ".".
abbrev pub dot : ℕ
dot = 46

abbrev pub is_dot : Char → Bool
is_dot c = code c == dot

infixr 65 ◌+++◌
-- `s + t`
unfoldable pub ◌+++◌ : String → String → String
String.[] +++ t = t
(String.◌∷◌ c s) +++ t = String.◌∷◌ c (s +++ t)

-- Put a character before the first piece.
abbrev pub cons_head : Char → List String → List String
cons_head c [] = String.◌∷◌ c String.[] ∷ []
cons_head c (w ∷ ws) = String.◌∷◌ c w ∷ ws

-- `s.split(".")`
unfoldable pub split : String → List String
split String.[] = String.[] ∷ []
split (String.◌∷◌ c s) =
    let rest = split s in if is_dot c then String.[] ∷ rest else cons_head c rest

-- `".".join(ws)`
unfoldable pub join : List String → String
join [] = String.[]
join (w ∷ []) = w
join (w ∷ v ∷ ws) = w +++ ("." +++ join (v ∷ ws))

-- `s.startswith(t)`, the prefix first.
unfoldable pub starts : String → String → Bool
starts String.[] s = true
starts (String.◌∷◌ c t) s = elim s [
  | String.[] ↦ false
  | String.◌∷◌ d s ↦ elim (code c == code d) [ true ↦ starts t s | false ↦ false ]
]

-- `s[:-1]`
unfoldable pub drop_last : String → String
drop_last String.[] = String.[]
drop_last (String.◌∷◌ c String.[]) = String.[]
drop_last (String.◌∷◌ c (String.◌∷◌ d s)) = String.◌∷◌ c (drop_last (String.◌∷◌ d s))

-- `s.endswith(".*")`
unfoldable pub ends_with_star : String → Bool
ends_with_star String.[] = false
ends_with_star (String.◌∷◌ c String.[]) = false
ends_with_star (String.◌∷◌ c (String.◌∷◌ d String.[])) = is_dot c && code d == 42
ends_with_star (String.◌∷◌ c (String.◌∷◌ d (String.◌∷◌ e s))) =
    ends_with_star (String.◌∷◌ d (String.◌∷◌ e s))

-- the white space of `str.strip`
abbrev pub is_space : Char → Bool
is_space c =
    let n = code c in
    (leb 9 n && leb n 13)
    || (leb 28 n && leb n 32)
    || n == 133
    || n == 160
    || n == 5760
    || (leb 8192 n && leb n 8202)
    || n == 8232
    || n == 8233
    || n == 8239
    || n == 8287
    || n == 12288
