-- ===== src/Domain/Replies.antt =====
-- What the handlers of the three domains promise of their answers.
use central_config_stream.Prelude.{ℕ, ◌≤◌, ◌≡◌, ◌⊎◌, arith}
use central_config_stream.Prelude.Int.{pos}
use central_config_stream.Web.{Reply, status_of, max_list_limit}
use central_config_stream.Domain.{Page, normalize_page}

-- An answer with the status of success, or one with an error status that leaves the publisher as it was.
-- The state is a database with a publisher.
abbrev pub Quiet {ℓ} : {E A : Type ℓ} {D S : Type 0} → ℕ → S → Reply E A × (D × S) → Type 0
Quiet success p (reply, w) =
    (status_of reply ≡ success)
    ⊎ (((status_of reply ≡ 400)
          ⊎ ((status_of reply ≡ 404) ⊎ ((status_of reply ≡ 409) ⊎ (status_of reply ≡ 500))))
        × (w.1 ≡ p))

-- a page that a listing of the database may be asked for
pub record IsBounded (page : Page) : Type 0 where
  pub limit : ℕ
  pub offset : ℕ
  pub page_eq : page ≡ record { limit = pos limit; offset = pos offset }
  pub at_least : 1 ≤ limit
  pub at_most : limit ≤ max_list_limit

pub normalize_page-IsBounded :
    (limit offset : ℕ)
    → 1 ≤ limit
    → limit ≤ max_list_limit
    → IsBounded (normalize_page (record { limit = pos limit; offset = pos offset }))
unfolding normalize_page
normalize_page-IsBounded limit offset h k = record {
  limit = limit;
  offset = offset;
  page_eq = ground arith;
  at_least = h;
  at_most = k;
}
