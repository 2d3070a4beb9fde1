-- ===== src/Http/Problem.antt =====
-- internal/http/problem.go: an error as a problem document. A map of JSON values is its entries, one
-- for each key; json.Encoder on it is a parameter.
use ai_assistant_driver.Common.Maps.{text_key, find, put, put_each, find-put}
use ai_assistant_driver.Common.{
  ℕ, ◌≡◌, refl, Option, some, List, [], ◌∷◌, if◌then◌else◌, Text, text_eq, Bytes, codes,
}

-- The values that the program puts into a problem.
pub data Member : Type 0 where
  text : Text → Member
  number : ℕ → Member
  texts : List Text → Member

abbrev pub Members : Type 0
Members = List (Text × Member)

record ProblemResponse : Type 0 where
  pub type : Text
  pub title : Text
  pub status : ℕ
  pub detail : Text
  pub extra : Members

-- The map of MarshalJSON.
unfoldable members_of : ProblemResponse → Members
unfolding put_each
members_of p = put_each p.extra (
    (codes "type", text p.type)
    ∷ (codes "title", text p.title)
    ∷ (codes "status", number p.status)
    ∷ (codes "detail", text p.detail)
    ∷ [])

-- What goes to the client: the content type, the status, and the body, nothing if it cannot be encoded.
record Written : Type 0 where
  pub content_type : Text
  pub status : ℕ
  pub body : Option Bytes

-- writeProblem; of the optional maps only the first counts.
unfoldable write_problem : (Members → Option Bytes) → ℕ → Text → Text → List Members → Written
unfolding members_of
write_problem encode status title detail extras = record {
  content_type = codes "application/problem+json";
  status = status;
  body = encode (
      members_of (record {
        type = [];
        title = title;
        status = status;
        detail = detail;
        extra = elim extras [ [] ↦ [] | extra ∷ rest ↦ extra ];
      }));
}

-- The last entry of the key, or the given one.
unfoldable last_member : Text → Members → Option Member → Option Member
last_member k [] otherwise = otherwise
last_member k ((j, v) ∷ m) otherwise = last_member k m (if text_eq j k then some v else otherwise)

-- A key of the extra map stands for its value there, also in place of one of the four.
find-put_each :
    (k : Text) (extra m : Members) → find k (put_each extra m) ≡ last_member k extra (find k m)
unfolding put_each last_member
find-put_each k [] m = refl
find-put_each k ((j, v) ∷ extra) m = rw (find-put_each k extra (put j v m), find-put k j v m) refl
