-- ===== src/OpenWrt/Gateway.antt =====
-- Which router a client talks to, and what a login leaves.
use ai_assistant_driver.Common.{
  ◌≡◌, refl, false, some, List, [], ◌∷◌, ◌++◌, All, Text, codes, text_eq,
}
use ai_assistant_driver.Common.Int.{ℤ}
use ai_assistant_driver.Common.Words.Joined.{IsWord, join_words, fields-join_words}
use ai_assistant_driver.OpenWrt.Requests.{
  via, word_behind_via, detect_default_gateway, signed_decimal, new_client,
}

abbrev NotVia : Text → Type 0
NotVia w = text_eq w via ≡ false

word_behind_via-append :
    (before after : List Text) (gateway : Text)
    → All NotVia before
    → word_behind_via (before ++ via ∷ gateway ∷ after) ≡ some gateway
unfolding word_behind_via
word_behind_via-append [] after gateway h = refl
word_behind_via-append (w ∷ []) after gateway (hw, h) = rw hw refl
word_behind_via-append (w ∷ v ∷ before) after gateway (hw, h) =
    rw hw (word_behind_via-append (v ∷ before) after gateway h)

detect_default_gateway-route :
    (before after : List Text) (gateway : Text)
    → All IsWord (before ++ via ∷ gateway ∷ after)
    → All NotVia before
    → detect_default_gateway (some (join_words (before ++ via ∷ gateway ∷ after))) ≡ gateway
unfolding detect_default_gateway
detect_default_gateway-route before after gateway words none_before =
    rw
      (
        detect_default_gateway,
        fields-join_words (before ++ via ∷ gateway ∷ after) words,
        word_behind_via-append before after gateway none_before,
      )
      refl

-- Without a host the client talks to the gateway of the default route as the system prints it, at the
-- given port, and has no token.
new_client-route :
    (before after : List Text) (gateway username password : Text) (port : ℤ)
    → All IsWord (before ++ via ∷ gateway ∷ after)
    → All NotVia before
    → new_client (some (join_words (before ++ via ∷ gateway ∷ after))) [] port username password
      ≡ record {
        base_url = codes "http://" ++ (gateway ++ (codes ":" ++ signed_decimal port));
        username = username;
        password = password;
        token = [];
      }
unfolding new_client
new_client-route before after gateway username password port words none_before =
    rw (detect_default_gateway-route before after gateway words none_before) refl
