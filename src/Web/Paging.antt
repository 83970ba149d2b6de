-- ===== src/Web/Paging.antt =====
-- The pages that internal/web/request.go hands to the list handlers.
use central_config_stream.Prelude.{ℕ, ◌≤◌, ◌≡◌, Option, none, some, ◌>>=◌, arith}
use central_config_stream.Text.{codes}
use central_config_stream.Web.{
  ApiRequest, int_param, parse_page, max_list_limit, default_list_limit, clamp_limit,
}

pub parse_page_bounds :
    (r : ApiRequest) (limit offset : ℕ)
    → parse_page r ≡ some (limit, offset)
    → (1 ≤ limit) × (limit ≤ max_list_limit)
unfolding parse_page
parse_page_bounds r limit offset h =
    go (int_param r (codes "limit") default_list_limit) (int_param r (codes "offset") 0) h
  where
    go :
        (l o : Option ℕ)
        → ◌>>=◌ {B = ℕ × ℕ} l (λ a. ◌>>=◌ {B = ℕ × ℕ} o (λ b. some (clamp_limit a, b)))
          ≡ some (limit, offset)
        → (1 ≤ limit) × (limit ≤ max_list_limit)
    go none o k = cc
    go (some a) none k = cc
    go (some a) (some b) k = ground arith
