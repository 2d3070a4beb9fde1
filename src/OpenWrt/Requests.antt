-- ===== src/OpenWrt/Requests.antt =====
-- internal/tools/openwrt/client.go: the client of the router: its address, the login, and a request.
-- What a request meets is a value: net/http makes it, sends it and reads the body, or fails.
use ai_assistant_driver.Common.{
  suc, Option, none, some, List, [], ◌∷◌, ◌++◌, if◌then◌else◌, is_nil, Text, Bytes, codes, text_eq,
  decimal, Result, ok, err, ◌>>=◌,
}
use ai_assistant_driver.Common.Int.{ℤ, pos, negsuc}
use ai_assistant_driver.Common.Words.{fields}

pub record Client : Type 0 where
  pub base_url : Text
  pub username : Text
  pub password : Text
  pub token : Text

abbrev default_gateway : Text
default_gateway = codes "192.168.1.1"

abbrev pub via : Text
via = codes "via"

-- The loop over the words: the word behind the first `via` that has one behind it.
unfoldable pub word_behind_via : List Text → Option Text
word_behind_via [] = none
word_behind_via (w ∷ []) = none
word_behind_via (w ∷ v ∷ ws) =
    let later = word_behind_via (v ∷ ws) in if text_eq w via then some v else later

-- detectDefaultGateway, given what `ip route show default` prints.
unfoldable pub detect_default_gateway : Option Text → Text
unfolding word_behind_via
detect_default_gateway none = default_gateway
detect_default_gateway (some printed) = elim (word_behind_via (fields printed)) [
  | none ↦ default_gateway
  | some gateway ↦ gateway
]

-- `%d` of a signed number.
abbrev pub signed_decimal : ℤ → Text
signed_decimal (pos n) = decimal n
signed_decimal (negsuc n) = b'-' ∷ decimal (suc n)

-- NewClient
unfoldable pub new_client : Option Text → Text → ℤ → Text → Text → Client
unfolding detect_default_gateway
new_client routes host port username password =
    let address = if is_nil host then detect_default_gateway routes else host in
    record {
      base_url = codes "http://" ++ (address ++ (codes ":" ++ signed_decimal port));
      username = username;
      password = password;
      token = [];
    }

-- One request: whether it can be made, sent, and its body read.
pub record Exchange : Type 0 where
  pub made : Result Text (Unit {0})
  pub sent : Result Text (Unit {0})
  pub body : Result Text Bytes

-- `fmt.Errorf(prefix + ": %w", err)`
abbrev wrapped : {A : Type 0} → Text → Result Text A → Result Text A
wrapped prefix (ok a) = ok a
wrapped prefix (err e) = err (prefix ++ (codes ": " ++ e))

unfoldable login_url : Client → Text
login_url c = c.base_url ++ codes "/cgi-bin/luci/rpc/auth?method=login"

-- login, over json.Marshal of the name and the password and json.Unmarshal into a string, with what a
-- request to an address with a body meets.
unfoldable pub login :
    (Text → Text → Result Text Bytes)
    → (Bytes → Result Text Text)
    → (Text → Bytes → Exchange)
    → Client
    → Result Text Client
unfolding login_url
login marshal unmarshal post c = do
  body ← wrapped (codes "failed to marshal login request") (marshal c.username c.password)
  let exchange = post (login_url c) body
  made ← wrapped (codes "failed to create login request") exchange.made
  sent ← wrapped (codes "failed to login to router") exchange.sent
  answer ← wrapped (codes "failed to read login response") exchange.body
  token ← wrapped (codes "failed to parse login response") (unmarshal answer)
  ok (record c { token = token })

-- makeRequest
unfoldable pub make_request : (Text → Exchange) → Text → Result Text Bytes
make_request get url = do
  let exchange = get url
  made ← exchange.made
  sent ← exchange.sent
  exchange.body
