-- ===== src/Common/Words/Trimmed.antt =====
-- Trimming a table of lines takes off its last newline and nothing else.
use Prim.Native.Nat.{ℕ, zero, suc}
use mathlib.Core.Path.{◌≡◌, refl, sym, ap, ◌∙◌}
use mathlib.Core.List.{List, [], ◌∷◌, ◌++◌, append_assoc}
use mathlib.Core.Bool.{Bool, true, false}
use native.Mathlib.Omega.{arith}
use ai_assistant_driver.Common.Tests.{◌==◌}
use ai_assistant_driver.Common.Lists.{All, All-append, is_nil, get_or}
use ai_assistant_driver.Common.Strings.{Text}
use ai_assistant_driver.Common.Words.{is_space, newline, split, trim_left, trim_right, trim_space}
use ai_assistant_driver.Common.Words.Joined.{
  Dense, IsWord, blanks, Padding, join_columns, join_lines, NoNewline, split-line, split_one,
}

trim_right-append :
    (u v : Text) → is_nil (trim_right v) ≡ false → trim_right (u ++ v) ≡ u ++ trim_right v
unfolding trim_right
trim_right-append [] v h = refl
trim_right-append (c ∷ u) v h =
    let rest = trim_right-append u v h in rw rest (ground (arith, nil-append u (trim_right v)))
  where
    nil-append : (u v : Text) → is_nil v ≡ false → is_nil (u ++ v) ≡ false
    nil-append [] v h = h
    nil-append (c ∷ u) v h = refl

trim_right-newline : (u : Text) → trim_right (u ++ newline ∷ []) ≡ trim_right u
unfolding trim_right
trim_right-newline [] = refl
trim_right-newline (c ∷ u) = rw (trim_right-newline u) refl

trim_right-Dense : (w : Text) → Dense w → trim_right w ≡ w
unfolding trim_right
trim_right-Dense [] h = refl
trim_right-Dense (c ∷ w) (hc, hw) = rw (trim_right-Dense w hw) (ground (arith, hc))

true-ne-false : {A : Type 0} → ◌≡◌ {A = Bool} true false → A
true-ne-false h = cc

-- A line that trimming leaves alone, and that is one line.
pub record IsLine (l : Text) : Type 0 where
  pub starts : is_space (get_or l 0 32) ≡ false
  pub ends : trim_right l ≡ l
  pub one : NoNewline l

-- Lines with a newline between them.
unfoldable between_lines : List Text → Text
between_lines [] = []
between_lines (l ∷ []) = l
between_lines (l ∷ m ∷ ls) = l ++ newline ∷ between_lines (m ∷ ls)

trim_left-line : (l rest : Text) → IsLine l → trim_left (l ++ rest) ≡ l ++ rest
unfolding trim_left
trim_left-line [] rest h = true-ne-false h.starts
trim_left-line (c ∷ l) rest h = rw h.starts refl

between_lines-full :
    (l : Text) (ls : List Text) → IsLine l → is_nil (between_lines (l ∷ ls)) ≡ false
unfolding between_lines
between_lines-full [] ls h = true-ne-false h.starts
between_lines-full (c ∷ l) [] h = refl
between_lines-full (c ∷ l) (m ∷ ls) h = refl

trim_right-join_lines :
    (l : Text) (ls : List Text)
    → All IsLine (l ∷ ls)
    → trim_right (join_lines (l ∷ ls)) ≡ between_lines (l ∷ ls)
unfolding join_lines between_lines
trim_right-join_lines l [] (h, hs) = trim_right-newline l ∙ h.ends
trim_right-join_lines l (m ∷ ls) (h, (hm, hs)) =
    let rest = trim_right-join_lines m ls (hm, hs) in
    let full : is_nil (trim_right (join_lines (m ∷ ls))) ≡ false =
      rw rest (between_lines-full m ls hm) in
    ap trim_right (sym (append_assoc l (newline ∷ []) (join_lines (m ∷ ls))))
    ∙ trim_right-append (l ++ newline ∷ []) (join_lines (m ∷ ls)) full
    ∙ append_assoc l (newline ∷ []) (trim_right (join_lines (m ∷ ls)))
    ∙ ap (λ (t : Text). l ++ newline ∷ t) rest

split-between_lines :
    (l : Text) (ls : List Text)
    → All IsLine (l ∷ ls)
    → split newline (between_lines (l ∷ ls)) ≡ l ∷ ls
unfolding between_lines
split-between_lines l [] (h, hs) = split_one l h.one
split-between_lines l (m ∷ ls) (h, (hm, hs)) =
    split-line l (between_lines (m ∷ ls)) h.one
    ∙ ap (λ parts. l ∷ parts) (split-between_lines m ls (hm, hs))

-- The lines of a table, once it is trimmed and split.
pub split-trim_space :
    (l : Text) (ls : List Text)
    → All IsLine (l ∷ ls)
    → split newline (trim_space (join_lines (l ∷ ls))) ≡ l ∷ ls
unfolding trim_space join_lines
split-trim_space l ls (h, hs) =
    ap (λ (t : Text). split newline (trim_right t)) (trim_left-line l (newline ∷ join_lines ls) h)
    ∙ ap (split newline) (trim_right-join_lines l ls (h, hs))
    ∙ split-between_lines l ls (h, hs)

Dense-NoNewline : (w : Text) → Dense w → NoNewline w
Dense-NoNewline [] h = tt
Dense-NoNewline (c ∷ w) (hc, hw) = (ground arith, Dense-NoNewline w hw)

pub blanks-NoNewline : (n : ℕ) (s : Text) → NoNewline s → NoNewline (blanks n s)
blanks-NoNewline zero s h = h
blanks-NoNewline (suc n) s h = (refl, blanks-NoNewline n s h)

pub join_columns-NoNewline :
    (pads : Padding) (i : ℕ) (ws : List Text) → All IsWord ws → NoNewline (join_columns pads i ws)
unfolding join_columns
join_columns-NoNewline pads i [] h = tt
join_columns-NoNewline pads i (w ∷ []) ((full, dense), h) = Dense-NoNewline w dense
join_columns-NoNewline pads i (w ∷ v ∷ ws) ((full, dense), h) =
    let later = join_columns pads (suc i) (v ∷ ws) in
    All-append (λ c. (c == newline) ≡ false) w (blanks (suc (pads i w v)) later)
      (Dense-NoNewline w dense)
      (blanks-NoNewline (suc (pads i w v)) later (join_columns-NoNewline pads (suc i) (v ∷ ws) h))

-- A text that trimming leaves alone.
IsKept : Text → Type 0
IsKept s = (trim_right s ≡ s) × (is_nil s ≡ false)

blanks-IsKept : (n : ℕ) (s : Text) → IsKept s → IsKept (blanks n s)
unfolding IsKept trim_right
blanks-IsKept zero s h = h
blanks-IsKept (suc n) s h = let (kept, full) = blanks-IsKept n s h in (rw (kept, full) refl, refl)

join_columns-IsKept :
    (pads : Padding) (i : ℕ) (w : Text) (ws : List Text)
    → All IsWord (w ∷ ws)
    → IsKept (join_columns pads i (w ∷ ws))
unfolding IsKept join_columns
join_columns-IsKept pads i w [] ((full, dense), h) = (trim_right-Dense w dense, full)
join_columns-IsKept pads i (c ∷ w) (v ∷ ws) ((full, dense), h) =
    let later = join_columns pads (suc i) (v ∷ ws) in
    let n = suc (pads i (c ∷ w) v) in
    let (kept, more) = blanks-IsKept n later (join_columns-IsKept pads (suc i) v ws h) in
    let full' : is_nil (trim_right (blanks n later)) ≡ false = ap is_nil kept ∙ more in
    (trim_right-append (c ∷ w) (blanks n later) full' ∙ ap (λ (t : Text). (c ∷ w) ++ t) kept, refl)
join_columns-IsKept pads i [] (v ∷ ws) ((full, dense), h) = true-ne-false full

starts-join_columns :
    (pads : Padding) (i : ℕ) (w : Text) (ws : List Text)
    → All IsWord (w ∷ ws)
    → is_space (get_or (join_columns pads i (w ∷ ws)) 0 32) ≡ false
unfolding join_columns
starts-join_columns pads i [] ws ((full, dense), h) = true-ne-false full
starts-join_columns pads i (c ∷ w) [] ((full, (hc, dense)), h) = hc
starts-join_columns pads i (c ∷ w) (v ∷ ws) ((full, (hc, dense)), h) = hc

-- Words in columns make a line.
pub IsLine-join_columns :
    (pads : Padding) (i : ℕ) (w : Text) (ws : List Text)
    → All IsWord (w ∷ ws)
    → IsLine (join_columns pads i (w ∷ ws))
unfolding IsKept
IsLine-join_columns pads i w ws h = record {
  starts = starts-join_columns pads i w ws h;
  ends = (join_columns-IsKept pads i w ws h).0;
  one = join_columns-NoNewline pads i (w ∷ ws) h;
}
