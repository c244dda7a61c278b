-- ===== src/Limits/Service/Apart.antt =====
-- The service can tell the users that HTTPBackend of internal/limits/limits.go speaks of apart.
use xnode_agent.Prelude.{ℕ, [], ◌∷◌, ◌++◌, Str, codes, All, ◌≡◌, ◌≢◌, refl, arith, Option}
use xnode_agent.Limits.Service.{Codec, limits_request}
use xnode_agent.Web.{Web}

append_cancel : (b s t : Str) → b ++ s ≡ b ++ t → s ≡ t
append_cancel [] s t h = h
append_cancel (c ∷ b) s t h = append_cancel b s t (ground (arith, h))

-- Texts up to the first separator, and behind it.
split_at :
    (p : ℕ) (a b s t : Str)
    → All (λ c. c ≢ p) a
    → All (λ c. c ≢ p) b
    → a ++ p ∷ s ≡ b ++ p ∷ t
    → (a ≡ b) × (s ≡ t)
split_at p [] [] s t na nb h = (refl, ground (arith, h))
split_at p [] (c ∷ b) s t na nb h = absurd (nb.0 (ground (arith, h)))
split_at p (c ∷ a) [] s t na nb h = absurd (na.0 (ground (arith, h)))
split_at p (c ∷ a) (d ∷ b) s t na nb h =
    let (x, y) = split_at p a b s t na.1 nb.1 (ground (arith, h)) in (ground (arith, h, x), y)

-- What url.PathEscape promises: the segment has no slash, and it can be read back.
pub record IsEscape (escape : Str → Str) : Type 0 where
  pub no_slash : (s : Str) → All (λ c. c ≢ b'/') (escape s)
  pub injective : (s t : Str) → escape s ≡ escape t → s ≡ t

-- Requests for different users, inbounds or nodes go to different URLs of the service, whatever bytes their
-- IDs have.
pub limits_request-apart :
    (web : Web) (codec : Codec) (base m n : Str) (a b c d e f : Str) (x y : Option Str)
    → IsEscape codec.path_escape
    → (limits_request web codec base m a b c x).url ≡ (limits_request web codec base n d e f y).url
    → (a ≡ d) × (b ≡ e) × (c ≡ f)
unfolding limits_request
limits_request-apart web codec base m n a b c d e f x y escape h =
    let open_path = append_cancel base _ _ h in
    let (p, q) =
      split_at b'/' (codec.path_escape a) (codec.path_escape d) _ _ (escape.no_slash a)
        (escape.no_slash d) (append_cancel (codes "/v1/limits/") _ _ open_path) in
    let (r, s) =
      split_at b'/' (codec.path_escape b) (codec.path_escape e) _ _ (escape.no_slash b)
        (escape.no_slash e) q in
    (escape.injective a d p, escape.injective b e r, escape.injective c f s)
