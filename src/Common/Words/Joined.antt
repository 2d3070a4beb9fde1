-- ===== src/Common/Words/Joined.antt =====
-- Splitting and trimming undo joining.
use Prim.Native.Nat.{ℕ, zero, suc}
use mathlib.Core.Path.{◌≡◌, refl, sym, ap, ◌∙◌}
use mathlib.Core.List.{List, [], ◌∷◌, ◌++◌, append_assoc, append-nil}
use mathlib.Core.Bool.{false}
use ai_assistant_driver.Common.Tests.{◌==◌}
use ai_assistant_driver.Common.Lists.{All, is_nil}
use ai_assistant_driver.Common.Strings.{Text}
use ai_assistant_driver.Common.Words.{
  is_space, newline, onto_first, split, flush, fields_from, fields,
}

-- A word is not empty and has no space in it.
abbrev pub Dense : Text → Type 0
Dense = All (λ c. is_space c ≡ false)

abbrev pub IsWord : Text → Type 0
IsWord w = (is_nil w ≡ false) × Dense w

-- A text behind blanks.
abbrev pub blanks : ℕ → Text → Text
blanks zero s = s
blanks (suc n) s = 32 ∷ blanks n s

-- How many blanks more than one stand between two columns, by the number of the column on the left and
-- the words in both: a table that is aligned on either side has such a padding.
abbrev pub Padding : Type 0
Padding = ℕ → Text → Text → ℕ

-- Words in columns, from the column `i` on.
unfoldable pub join_columns : Padding → ℕ → List Text → Text
join_columns pads i [] = []
join_columns pads i (w ∷ []) = w
join_columns pads i (w ∷ v ∷ ws) =
    w ++ blanks (suc (pads i w v)) (join_columns pads (suc i) (v ∷ ws))

-- Words with a space between them.
abbrev pub join_words : List Text → Text
join_words = join_columns (λ i w v. 0) 0

-- Lines with a newline behind each.
unfoldable pub join_lines : List Text → Text
join_lines [] = []
join_lines (l ∷ ls) = l ++ newline ∷ join_lines ls

abbrev pub NoNewline : Text → Type 0
NoNewline = All (λ c. (c == newline) ≡ false)

fields_from-Dense :
    (w word rest : Text) → Dense w → fields_from word (w ++ rest) ≡ fields_from (word ++ w) rest
unfolding fields_from
fields_from-Dense [] word rest h = ap (λ v. fields_from v rest) (sym (append-nil word))
fields_from-Dense (c ∷ w) word rest (hc, hw) =
    rw (fields_from, hc)
      (fields_from-Dense w (word ++ c ∷ []) rest hw
        ∙ ap (λ v. fields_from v rest) (append_assoc word (c ∷ []) w))

flush-word : (w : Text) (words : List Text) → is_nil w ≡ false → flush w words ≡ w ∷ words
flush-word [] words h = cc
flush-word (c ∷ w) words h = refl

pub fields-blanks : (n : ℕ) (s : Text) → fields (blanks n s) ≡ fields s
unfolding fields fields_from
fields-blanks zero s = refl
fields-blanks (suc n) s = fields-blanks n s

-- The fields of words in columns are the words, whatever the padding.
pub fields-join_columns :
    (pads : Padding) (i : ℕ) (ws : List Text) → All IsWord ws → fields (join_columns pads i ws) ≡ ws
unfolding fields join_columns fields_from
fields-join_columns pads i [] h = refl
fields-join_columns pads i (w ∷ []) ((full, dense), h) =
    ap (fields_from []) (sym (append-nil w))
    ∙ fields_from-Dense w [] [] dense
    ∙ flush-word w [] full
fields-join_columns pads i (w ∷ v ∷ ws) ((full, dense), h) =
    let later = join_columns pads (suc i) (v ∷ ws) in
    let gap = blanks (pads i w v) later in
    fields_from-Dense w [] (32 ∷ gap) dense
    ∙ flush-word w (fields_from [] gap) full
    ∙ ap (λ vs. w ∷ vs)
        (fields-blanks (pads i w v) later ∙ fields-join_columns pads (suc i) (v ∷ ws) h)

pub fields-join_words : (ws : List Text) → All IsWord ws → fields (join_words ws) ≡ ws
fields-join_words = fields-join_columns (λ i w v. 0) 0

pub split-line :
    (l rest : Text) → NoNewline l → split newline (l ++ newline ∷ rest) ≡ l ∷ split newline rest
unfolding split
split-line [] rest h = refl
split-line (c ∷ l) rest (hc, hl) = rw hc (ap (onto_first c) (split-line l rest hl))

pub split_one : (l : Text) → NoNewline l → split newline l ≡ l ∷ []
unfolding split
split_one [] h = refl
split_one (c ∷ l) (hc, hl) = rw hc (ap (onto_first c) (split_one l hl))

-- Splitting lines that end in newlines gives the lines and an empty one.
pub split-join_lines :
    (ls : List Text) → All NoNewline ls → split newline (join_lines ls) ≡ ls ++ [] ∷ []
unfolding join_lines split
split-join_lines [] h = refl
split-join_lines (l ∷ ls) (hl, h) =
    split-line l (join_lines ls) hl ∙ ap (λ m. l ∷ m) (split-join_lines ls h)
