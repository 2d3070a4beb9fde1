-- ===== src/OpenWrt/Orders.antt =====
-- Go iterates over a map in an order of its own. The settings of the router come as such maps: what the
-- code reads from one, as lists up to their order.
use mathlib.Core.List.{Permᴰ, filter_map}
use mathlib.Core.List.Permᴰ
use ai_assistant_driver.Common.{
  arith, ◌≡◌, refl, ap, Option, none, some, List, [], ◌∷◌, map, if◌then◌else◌, Text, has_prefix,
  Result, ok, err, ◌>>=◌,
}
use ai_assistant_driver.OpenWrt.{Panic, WifiStatus}
use ai_assistant_driver.OpenWrt.Json.{Json, object, Members, no_members, member, as_object}
use ai_assistant_driver.OpenWrt.Luci.{
  result_of, sections, sections_of, map_sections, wifi_of, wifi_sections,
}

abbrev pub pairs : Members → List (Text × Json)
pairs no_members = []
pairs (member name value rest) = (name, value) ∷ pairs rest

-- The same map, iterated over in another order; or no map in both.
abbrev pub Reordered : Option Members → Option Members → Type 0
Reordered none none = Unit {0}
Reordered (some m) (some n) = Permᴰ (pairs m) (pairs n)
Reordered _ _ = ⊥

abbrev with_name : Text → Option Members → Option (Text × Members)
with_name name none = none
with_name name (some m) = some (name, m)

-- The section that an entry is, if it is one.
abbrev section : Text → Text × Json → Option (Text × Members)
section prefix (name, value) =
    if has_prefix name prefix then with_name name (as_object value) else none

sections-pairs :
    (prefix : Text) (m : Members) → sections prefix m ≡ filter_map (section prefix) (pairs m)
unfolding sections as_object filter_map
sections-pairs prefix no_members = refl
sections-pairs prefix (member name (object m) rest) = ground (arith, sections-pairs prefix rest)
sections-pairs prefix (member name value rest) = ground (arith, sections-pairs prefix rest)

map_sections-map {ℓ} :
    {A : Type ℓ} (f : Text × Members → A) (ss : List (Text × Members))
    → map_sections f ss ≡ map f ss
map_sections-map f [] = refl
map_sections-map f (s ∷ ss) = ap (λ rest. f s ∷ rest) (map_sections-map f ss)

abbrev sections_in : Text → Option Members → List (Text × Members)
sections_in prefix none = []
sections_in prefix (some m) = sections prefix m

sections_in-Reordered :
    (prefix : Text) (x y : Option Members)
    → Reordered x y
    → Permᴰ (sections_in prefix x) (sections_in prefix y)
sections_in-Reordered prefix none none h = Permᴰ.nil
sections_in-Reordered prefix none (some n) h = absurd h
sections_in-Reordered prefix (some m) none h = absurd h
sections_in-Reordered prefix (some m) (some n) h =
    rw (sections-pairs prefix m, sections-pairs prefix n) (Permᴰ.filter_map (section prefix) h)

sections_of-in :
    (prefix : Text) (x : Option Members) → sections_of prefix x ≡ sections_in prefix (result_of x)
sections_of-in prefix x =
    elim (result_of x)
      as (λ o.
        ◌≡◌ {A = List (Text × Members)} (elim o [ none ↦ [] | some m ↦ sections prefix m ])
          (sections_in prefix o)) [ none ↦ refl | some m ↦ refl ]

pub sections_of-Reordered :
    (prefix : Text) (x y : Option Members)
    → Reordered (result_of x) (result_of y)
    → Permᴰ (sections_of prefix x) (sections_of prefix y)
sections_of-Reordered prefix x y h =
    rw (sections_of-in prefix x, sections_of-in prefix y)
      (sections_in-Reordered prefix (result_of x) (result_of y) h)

pub map_sections-Perm {ℓ} :
    {A : Type ℓ} (f : Text × Members → A) {ss rs : List (Text × Members)}
    → Permᴰ ss rs
    → Permᴰ (map_sections f ss) (map_sections f rs)
map_sections-Perm f {ss} {rs} p = rw (map_sections-map f ss, map_sections-map f rs) (Permᴰ.map f p)

-- Both panic, or both give lists that are equal up to order.
abbrev pub SameLists : Result Panic (List WifiStatus) → Result Panic (List WifiStatus) → Type 0
SameLists (ok as_one) (ok as_other) = Permᴰ as_one as_other
SameLists (err p) (err q) = Unit {0}
SameLists _ _ = ⊥

SameLists-trans :
    (x y z : Result Panic (List WifiStatus)) → SameLists x y → SameLists y z → SameLists x z
SameLists-trans (ok x) (ok y) (ok z) h k = Permᴰ.trans h k
SameLists-trans (err x) (err y) (err z) h k = tt
SameLists-trans (ok x) (ok y) (err z) h k = absurd k
SameLists-trans (ok x) (err y) z h k = absurd h
SameLists-trans (err x) (ok y) z h k = absurd h
SameLists-trans (err x) (err y) (ok z) h k = absurd k

-- One section more, and the lists behind it.
one_more : Result Panic WifiStatus → Result Panic (List WifiStatus) → Result Panic (List WifiStatus)
one_more w rest = do x ← w; xs ← rest; ok (x ∷ xs)

one_more-SameLists :
    (w : Result Panic WifiStatus) (x y : Result Panic (List WifiStatus))
    → SameLists x y
    → SameLists (one_more w x) (one_more w y)
unfolding one_more
one_more-SameLists (ok w) (ok x) (ok y) h = Permᴰ.cons refl h
one_more-SameLists (ok w) (err p) (err q) h = tt
one_more-SameLists (ok w) (ok x) (err q) h = absurd h
one_more-SameLists (ok w) (err p) (ok y) h = absurd h
one_more-SameLists (err e) x y h = tt

one_more_swapped :
    (v w : Result Panic WifiStatus) (x : Result Panic (List WifiStatus))
    → SameLists (one_more v (one_more w x)) (one_more w (one_more v x))
unfolding one_more
one_more_swapped (ok v) (ok w) (ok x) = Permᴰ.swap refl refl
one_more_swapped (ok v) (ok w) (err p) = tt
one_more_swapped (ok v) (err q) x = tt
one_more_swapped (err p) (ok w) x = tt
one_more_swapped (err p) (err q) x = tt

pub wifi_sections-Perm :
    {ss rs : List (Text × Members)} → Permᴰ ss rs → SameLists (wifi_sections ss) (wifi_sections rs)
unfolding wifi_sections one_more
wifi_sections-Perm Permᴰ.nil = Permᴰ.nil
wifi_sections-Perm (Permᴰ.cons {a} {b} {l₁} {l₂} e p) =
    rw e
      (one_more-SameLists (wifi_of b) (wifi_sections l₁) (wifi_sections l₂) (wifi_sections-Perm p))
wifi_sections-Perm (Permᴰ.swap {a} {b} {a'} {b'} {l} e f) =
    rw (e, f) (one_more_swapped (wifi_of b') (wifi_of a') (wifi_sections l))
wifi_sections-Perm {ss} {rs} (Permᴰ.trans {l₁} {l₂} {l₃} p q) =
    SameLists-trans (wifi_sections l₁) (wifi_sections l₂) (wifi_sections l₃) (wifi_sections-Perm p)
      (wifi_sections-Perm q)
