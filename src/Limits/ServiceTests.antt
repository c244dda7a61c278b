-- ===== src/Limits/ServiceTests.antt =====
-- A limiter service, with an escaping that moves every byte behind the slash.
use xnode_agent.Prelude.{
  ◌+◌, true, some, none, [], ◌∷◌, Str, codes, map, All, ◌≡◌, ◌≢◌, refl, arith,
}
use xnode_agent.Web.{Web}
use xnode_agent.Limits.Service.{Codec, limits_request}
use xnode_agent.Limits.Service.Apart.{limits_request-apart}

abbrev shift : Str → Str
shift = map (λ c. c + 48)

shift-no_slash : (s : Str) → All (λ c. c ≢ b'/') (shift s)
shift-no_slash [] = tt
shift-no_slash (c ∷ s) = (λ e. omega (arith, e), shift-no_slash s)

shift-injective : (s t : Str) → shift s ≡ shift t → s ≡ t
shift-injective [] [] h = refl
shift-injective [] (d ∷ t) h = absurd (ground (arith, h))
shift-injective (c ∷ s) [] h = absurd (ground (arith, h))
shift-injective (c ∷ s) (d ∷ t) h = ground (arith, h, shift-injective s t)

abbrev codec : Codec
codec = record { path_escape = shift; of_limits = λ l. none }

abbrev web : Web
web = record { is_valid = λ m u. true; answer = λ q. none }

-- The requests that apply and remove one user go to one URL.
limits_request-apart_example :
    (codes "n" ≡ codes "n") × (codes "a/b" ≡ codes "a/b") × (codes "c" ≡ codes "c")
limits_request-apart_example =
    limits_request-apart web codec [] (codes "PUT") (codes "DELETE") (codes "n") (codes "a/b")
      (codes "c") (codes "n") (codes "a/b") (codes "c") (some []) none
      (record { no_slash = shift-no_slash; injective = shift-injective }) one_url
  where
    one_url :
        (limits_request web codec []
          (codes "PUT")
          (codes "n")
          (codes "a/b")
          (codes "c")
          (some [])).url
        ≡ (limits_request web codec []
            (codes "DELETE")
            (codes "n")
            (codes "a/b")
            (codes "c")
            none).url
    one_url = unfold limits_request in refl

-- Without the escaping these two would have one URL.
apart_run :
    (limits_request web codec [] (codes "PUT") (codes "n") (codes "a/b") (codes "c") none).url
    ≢ (limits_request web codec [] (codes "PUT") (codes "n") (codes "a") (codes "b/c") none).url
unfolding limits_request
apart_run h = ground (arith, h)
