-- ===== src/Domain/Flags/Handler/Replies.antt =====
-- What the handlers of internal/flagsconfig/handler.go answer, and what they do to the state.
use central_config_stream.Prelude.{ℕ, ◌≡◌, refl, ◌⊎◌, inl, inr, Option, none, some, List, arith}
use central_config_stream.Text.{codes}
use central_config_stream.Messaging.ConfigPublisher.{ConfigPublisher}
use central_config_stream.Web.{
  ApiRequest, Reply, status_of, Decoder, parse_page, int64_param, reply_with,
}
use central_config_stream.Web.Paging.{parse_page_bounds}
use central_config_stream.Domain.Replies.{Quiet, IsBounded, normalize_page-IsBounded}
use central_config_stream.Domain.Flags
use central_config_stream.Domain.Flags.{
  FlagError, Flag, FlagValue, FlagValueRow, FlagFilter, FlagValueFilter, Repository,
}
use central_config_stream.Domain.Flags.Handler
use central_config_stream.Domain.Flags.Handler.{write_err}

module _ (P : ConfigPublisher) (repo : Repository) where
  -- Every handler of the flags that writes answers 201 to a creation, 200 to an update and 204 to a removal, or with 400, 404, 409 or 500 and leaves
  -- the publisher, and with it the buckets, as it was: a write that is not acknowledged publishes nothing.
  pub writes-Quiet :
      (flag : Decoder Flag) (value : Decoder FlagValue) (r : ApiRequest) (w : Flags.World P repo)
      → Quiet 201 w.1 (Handler.create_flag P repo flag r w)
        × Quiet 204 w.1 (Handler.delete_flag P repo r w)
        × Quiet 201 w.1 (Handler.create_flag_value P repo value r w)
        × Quiet 204 w.1 (Handler.delete_flag_value P repo r w)
        × Quiet 200 w.1 (Handler.update_flag_value P repo value r w)
  unfolding write_err Handler.create_flag Handler.delete_flag Handler.create_flag_value
      Handler.delete_flag_value Handler.update_flag_value Flags.create_flag Flags.delete_flag
      Flags.create_flag_value Flags.delete_flag_value Flags.update_flag_value
  writes-Quiet flag value r w =
      (ground arith, ground arith, ground arith, ground arith, ground arith)

  -- An answer of 400, or what the database answers to a bounded page.
  abbrev pub Pages : (w : Flags.World P repo) → Reply FlagError (List Flag) → Type 0
  Pages w reply =
      (status_of reply ≡ 400)
      ⊎ ((filter : FlagFilter) × IsBounded filter.page
          × (reply ≡ reply_with write_err 200 (repo.list_flags w.0 filter)))

  abbrev pub PagesValues : (w : Flags.World P repo) → Reply FlagError (List FlagValueRow) → Type 0
  PagesValues w reply =
      (status_of reply ≡ 400)
      ⊎ ((filter : FlagValueFilter) × IsBounded filter.page
          × (reply ≡ reply_with write_err 200 (repo.list_flag_values w.0 filter)))

  on_page-Pages :
      (w : Flags.World P repo) (r : ApiRequest) (o : Option (ℕ × ℕ))
      → parse_page r ≡ o
      → Pages w (Handler.on_page P repo w r o)
  unfolding Flags.list_flags
  on_page-Pages w r none e = inl refl
  on_page-Pages w r (some (limit, offset)) e =
      let (low, high) = parse_page_bounds r limit offset e in
      inr (_, normalize_page-IsBounded limit offset low high, refl)

  on_value_page-Pages :
      (w : Flags.World P repo) (r : ApiRequest) (o : Option (ℕ × ℕ)) (env : Option ℕ)
      → parse_page r ≡ o
      → PagesValues w (Handler.on_value_page P repo w r o env)
  unfolding Flags.list_flag_values
  on_value_page-Pages w r none env e = inl refl
  on_value_page-Pages w r (some page) none e = inl refl
  on_value_page-Pages w r (some (limit, offset)) (some env) e =
      let (low, high) = parse_page_bounds r limit offset e in
      inr (_, normalize_page-IsBounded limit offset low high, refl)

  -- Whatever limit and offset a request names, the two listings of the flags answer 400, or ask the database
  -- for a page of between 1 and 500 rows and a natural offset.
  pub lists-IsBounded :
      (r : ApiRequest) (w : Flags.World P repo)
      → Pages w (Handler.list_flags P repo r w)
        × PagesValues w (Handler.list_flag_values P repo r w)
  unfolding Handler.list_flags Handler.list_flag_values
  lists-IsBounded r w = (
    on_page-Pages w r (parse_page r) refl,
    on_value_page-Pages w r (parse_page r) (int64_param r (codes "environmentId")) refl,
  )
