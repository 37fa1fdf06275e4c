-- ===== src/Rtsp/Text.antt =====
-- The text operations that packages/rtsp/src/encoding.ts uses, on lists of character codes. The
-- head of a message is ASCII here: its characters are its bytes.
use Prim.Native.Char.{code}
use Prim.Native.String.{String}
use apple_protocols.Prelude.{
  ℕ, suc, ◌+◌, ◌-◌, List, [], ◌∷◌, ◌++◌, Option, none, some, Bool, true, false, not, ◌&&◌, ◌||◌,
  leb, ◌==◌, if◌then◌else◌,
}

abbrev pub Text : Type 0
Text = List ℕ

-- The codes of a literal.
abbrev pub codes : String → Text
codes String.[] = []
codes (String.◌∷◌ c s) = code c ∷ codes s

abbrev pub crlf : Text
crlf = b'\r' ∷ b'\n' ∷ []

abbrev pub same : Text → Text → Bool
same [] [] = true
same [] (b ∷ ys) = false
same (a ∷ xs) [] = false
same (a ∷ xs) (b ∷ ys) = a == b && same xs ys

abbrev within : ℕ → ℕ → ℕ → Bool
within low high c = leb low c && leb c high

-- What `\s` matches and `trim` takes off.
abbrev pub is_space : ℕ → Bool
is_space c = c == 32 || within 9 13 c

-- What `\S` matches.
abbrev pub is_ink : ℕ → Bool
is_ink c = not (is_space c)

abbrev pub is_digit : ℕ → Bool
is_digit c = within b'0' b'9' c

-- `[\d.]`
abbrev pub is_version_char : ℕ → Bool
is_version_char c = is_digit c || c == b'.'

-- What `.` matches.
abbrev pub is_inline : ℕ → Bool
is_inline c = not (c == b'\r' || c == b'\n')

-- `\w`
abbrev pub is_word : ℕ → Bool
is_word c = within b'a' b'z' c || within b'A' b'Z' c || is_digit c || c == b'_'

abbrev pub lower : ℕ → ℕ
lower c = if within b'A' b'Z' c then c + 32 else c

abbrev pub upper : ℕ → ℕ
upper c = if within b'a' b'z' c then c - 32 else c

abbrev pub trim_start : Text → Text
trim_start [] = []
trim_start (c ∷ cs) = elim (is_space c) [ true ↦ trim_start cs | false ↦ c ∷ cs ]

abbrev trim_last : ℕ → Text → Text
trim_last c [] = if is_space c then [] else c ∷ []
trim_last c (d ∷ ds) = c ∷ d ∷ ds

abbrev pub trim_end : Text → Text
trim_end [] = []
trim_end (c ∷ cs) = trim_last c (trim_end cs)

abbrev pub trim : Text → Text
trim cs = trim_end (trim_start cs)

-- The longest start of a text that a class matches, and the rest.
abbrev pub take_while : (ℕ → Bool) → Text → Text
take_while p [] = []
take_while p (c ∷ cs) = elim (p c) [ true ↦ c ∷ take_while p cs | false ↦ [] ]

abbrev pub drop_while : (ℕ → Bool) → Text → Text
drop_while p [] = []
drop_while p (c ∷ cs) = elim (p c) [ true ↦ drop_while p cs | false ↦ c ∷ cs ]

abbrev pub all : (ℕ → Bool) → Text → Bool
all p [] = true
all p (c ∷ cs) = p c && all p cs

abbrev pub is_empty : Text → Bool
is_empty [] = true
is_empty (c ∷ cs) = false

-- `+` of a class, on a whole text.
abbrev pub some_of : (ℕ → Bool) → Text → Bool
some_of p cs = not (is_empty cs) && all p cs

abbrev pub starts_with : Text → Text → Bool
starts_with [] cs = true
starts_with (n ∷ ns) [] = false
starts_with (n ∷ ns) (c ∷ cs) = n == c && starts_with ns cs

abbrev pub after : Option ℕ → Option ℕ
after none = none
after (some i) = some (suc i)

-- `indexOf`; `none` is -1.
abbrev pub index_of : Text → Text → Option ℕ
index_of needle [] = if is_empty needle then some 0 else none
index_of needle (c ∷ cs) = elim (starts_with needle (c ∷ cs)) [
  | true ↦ some 0
  | false ↦ after (index_of needle cs)
]

abbrev pub add_first : ℕ → List Text → List Text
add_first c [] = []
add_first c (l ∷ ls) = (c ∷ l) ∷ ls

-- `split('\r\n')`
abbrev pub split : Text → List Text
split [] = [] ∷ []
split (c ∷ []) = (c ∷ []) ∷ []
split (c ∷ d ∷ cs) = elim (c == b'\r' && d == b'\n') [
  | true ↦ [] ∷ split cs
  | false ↦ add_first c (split (d ∷ cs))
]

-- `join('\r\n')`
abbrev pub join : List Text → Text
join [] = []
join (l ∷ []) = l
join (l ∷ m ∷ ls) = l ++ (crlf ++ join (m ∷ ls))
