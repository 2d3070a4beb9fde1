-- ===== src/Common/Words.antt =====
-- What the program uses of package strings, on ASCII texts: splitting, fields and trimming.
pub mod Joined
pub mod Numbers
pub mod Trimmed
use Prim.Native.Nat.{ℕ, zero, suc, ◌+◌, ◌-◌, ◌*◌, ◌^◌}
use mathlib.Core.List.{List, [], ◌∷◌, ◌++◌}
use mathlib.Core.Bool.{Bool, true, false, ◌&&◌, ◌||◌}
use ai_assistant_driver.Common.Tests.{ltb, leb, ◌==◌, if◌then◌else◌}
use ai_assistant_driver.Common.Lists.{is_nil, length, take, drop}
use ai_assistant_driver.Common.Strings.{Text, has_prefix, text_eq}

abbrev pub is_space : ℕ → Bool
is_space c = leb 9 c && leb c 13 || c == 32

abbrev pub newline : ℕ
newline = 10

abbrev pub onto_first : ℕ → List Text → List Text
onto_first c [] = (c ∷ []) ∷ []
onto_first c (part ∷ parts) = (c ∷ part) ∷ parts

-- strings.Split by one character.
unfoldable pub split : ℕ → Text → List Text
split sep [] = [] ∷ []
split sep (c ∷ s) = let parts = split sep s in if c == sep then [] ∷ parts else onto_first c parts

abbrev pub flush : Text → List Text → List Text
flush [] words = words
flush (c ∷ word) words = (c ∷ word) ∷ words

-- strings.Fields, with the word that has been begun.
unfoldable pub fields_from : Text → Text → List Text
fields_from word [] = flush word []
fields_from word (c ∷ s) = elim (is_space c) [
  | true ↦ flush word (fields_from [] s)
  | false ↦ fields_from (word ++ c ∷ []) s
]

unfoldable pub fields : Text → List Text
unfolding fields_from
fields s = fields_from [] s

unfoldable pub trim_left : Text → Text
trim_left [] = []
trim_left (c ∷ s) = if is_space c then trim_left s else c ∷ s

unfoldable pub trim_right : Text → Text
trim_right [] = []
trim_right (c ∷ s) = let kept = trim_right s in if is_nil kept && is_space c then [] else c ∷ kept

-- strings.TrimSpace
unfoldable pub trim_space : Text → Text
unfolding trim_left trim_right
trim_space s = trim_right (trim_left s)

-- strings.TrimPrefix
unfoldable pub trim_prefix : Text → Text → Text
trim_prefix s prefix = if has_prefix s prefix then drop (length prefix) s else s

-- strings.TrimSuffix
unfoldable pub trim_suffix : Text → Text → Text
trim_suffix [] suffix = []
trim_suffix (c ∷ s) suffix =
    let rest = trim_suffix s suffix in if text_eq (c ∷ s) suffix then [] else c ∷ rest

abbrev pub max_uint64 : ℕ
max_uint64 = 2 ^ 64 - 1

-- The loop of strconv.ParseUint in base 10, whose error is not looked at: a character that is no
-- digit gives 0, a value out of range the largest.
unfoldable pub parse_digits : Text → ℕ → ℕ
parse_digits [] n = n
parse_digits (c ∷ s) n =
    if leb b'0' c && leb c b'9'
    then (let next = n * 10 + (c - b'0') in
        let more = parse_digits s next in if ltb max_uint64 next then max_uint64 else more)
    else 0

unfoldable pub parse_uint : Text → ℕ
unfolding parse_digits
parse_uint s = parse_digits s 0
