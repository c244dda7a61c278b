-- ===== src/Web.antt =====
-- HTTP as the clients of internal/panel/client.go and internal/limits/limits.go use net/http: requests,
-- responses, and how a call ends. The exchange itself is the parameter `Web`.
use xnode_agent.Prelude.{
  ℕ, Bool, true, false, not, ◌||◌, ◌&&◌, leb, ltb, Option, none, some, [], ◌∷◌, Str, Map,
  if◌then◌else◌, ◌==◌, nat_eq, str_eq, take, ◌≡◌, refl, arith,
}

pub record Request : Type 0 where
  pub method : Str
  pub url : Str
  pub header : Map Str Str
  pub body : Option Str

pub record Response : Type 0 where
  pub status : ℕ
  pub body : Str

-- What http.NewRequest makes a request of, and what Client.Do answers to it, if it gets an answer.
pub record Web : Type 0 where
  pub is_valid : Str → Str → Bool
  pub answer : Request → Option Response

-- How a call fails: its body cannot be encoded, it is no request, it gets no answer, the answer is
-- not one of success, or it cannot be decoded.
pub data Failure : Type 0 where
  unencoded : Failure
  invalid : Failure
  unanswered : Failure
  refused : ℕ → Str → Failure
  undecoded : Failure

pub data Outcome (A : Type 0) : Type 0 where
  failed : Failure → Outcome A
  got : A → Outcome A

abbrev pub is_got : {A : Type 0} → Outcome A → Bool
is_got (failed f) = false
is_got (got a) = true

-- resp.StatusCode < 200 || resp.StatusCode >= 300, negated.
unfoldable pub is_success : ℕ → Bool
is_success status = not (ltb status 200 || leb 300 status)

-- The body of the call: none, or what json.Marshal makes of it.
pub data Payload : Type 0 where
  no_body : Payload
  json_body : Option Str → Payload

-- The text that is sent, if the payload can be encoded.
unfoldable pub encoded : Payload → Option (Option Str)
encoded no_body = some none
encoded (json_body none) = none
encoded (json_body (some text)) = some (some text)

-- strings.TrimRight(s, "/")
unfoldable pub trim_slashes : Str → Str
trim_slashes [] = []
trim_slashes (c ∷ s) = let rest = trim_slashes s in if c == b'/' && rest == [] then [] else c ∷ rest

-- The body of an answer that is kept for the error.
unfoldable pub read_response : ℕ → (Str → Str) → Option Response → Outcome Str
unfolding is_success
read_response limit trim none = failed unanswered
read_response limit trim (some r) =
    if is_success r.status then got r.body else failed (refused r.status (trim (take limit r.body)))

-- A request that is made if its method and URL allow it.
unfoldable pub send : Web → Request → ℕ → (Str → Str) → Outcome Str
unfolding read_response
send web q limit trim =
    if web.is_valid q.method q.url then read_response limit trim (web.answer q) else failed invalid

read_response-got :
    (limit : ℕ) (trim : Str → Str) (o : Option Response)
    → is_got (read_response limit trim o) ≡ true
    → (r : Response) × (o ≡ some r) × (is_success r.status ≡ true)
unfolding read_response
read_response-got limit trim none h = absurd (ground (arith, h))
read_response-got limit trim (some r) h = (r, refl, ground (arith, h))

-- A call that succeeds was answered with success.
pub send-got :
    (web : Web) (q : Request) (limit : ℕ) (trim : Str → Str)
    → is_got (send web q limit trim) ≡ true
    → (r : Response) × (web.answer q ≡ some r) × (is_success r.status ≡ true)
unfolding send
send-got web q limit trim h =
    read_response-got limit trim (web.answer q) (go (web.is_valid q.method q.url) h)
  where
    go :
        (b : Bool)
        → is_got (if b then read_response limit trim (web.answer q) else failed invalid) ≡ true
        → is_got (read_response limit trim (web.answer q)) ≡ true
    go true k = k
    go false k = absurd (ground (arith, k))
