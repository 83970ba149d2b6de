-- ===== src/App/Inventory/Pages.antt =====
-- The pages of the inventory against a description by take and drop.
use central_config_stream.Prelude.{
  ℕ, zero, suc, ◌-◌, ◌≤◌, ◌≡◌, refl, sym, ap, Option, none, some, List, [], ◌∷◌, map, keep, ltb,
  leb, arith, Bool-cases, inl, inr,
}
use central_config_stream.Prelude.Int.{ℤ}
use central_config_stream.Text.Utf8.Cuts.{take, drop}
use central_config_stream.Web.{ApiRequest, sent, parse_page, max_list_limit}
use central_config_stream.Web.Paging.{parse_page_bounds}
use central_config_stream.Domain.Sources.{ReconcileRow}
use central_config_stream.Domain.ServiceSettings.{MicroserviceAppSettings}
use central_config_stream.Domain.Localization.{Localization}
use central_config_stream.App.Inventory.{
  Inventory, Listers, reset, take_row, page_rows, row_in_scope, serve_inventory, env_of_flag,
  env_of_settings, env_of_loc, inventory_flag, inventory_settings, inventory_loc, on_rows, on_page,
}

take-nil {ℓ} : {A : Type ℓ} (n : ℕ) → take {A = A} n [] ≡ []
take-nil zero = refl
take-nil (suc n) = refl

drop-nil {ℓ} : {A : Type ℓ} (n : ℕ) → drop {A = A} n [] ≡ []
drop-nil zero = refl
drop-nil (suc n) = refl

-- the page of a list, by its description
abbrev pub page_of : {R I : Type 0} → (R → I) → ℕ → ℕ → List R → List I
page_of show limit offset rows = map show (take limit (drop offset rows))

page_of-nil : {R I : Type 0} (show : R → I) (limit offset : ℕ) → page_of show limit offset [] ≡ []
page_of-nil {R} show limit offset = rw (drop-nil {A = R} offset, take-nil {A = R} limit)

module _ {R I : Type 0} (scope : Option (List ℤ)) (env : R → ℤ) (show : R → I) where
  abbrev pub in_scope_rows : List R → List R
  in_scope_rows rows = keep (λ row. row_in_scope scope (env row)) rows

  page_rows_from :
      (limit offset seen taken : ℕ) (rows : List R)
      → page_rows scope env show
          (record { limit = limit; offset = offset; seen = seen; taken = taken })
          rows
        ≡ page_of show (limit - taken) (offset - seen) (in_scope_rows rows)
  unfolding page_rows take_row
  page_rows_from limit offset seen taken [] = sym (page_of-nil show (limit - taken) (offset - seen))
  page_rows_from limit offset seen taken (row ∷ rows) =
      elim (Bool-cases (row_in_scope scope (env row))) [
        | inr outside ↦ rw outside (page_rows_from limit offset seen taken rows)
        | inl inside ↦ elim (Bool-cases (ltb seen offset)) [
          | inl skip ↦
              let more : offset - seen ≡ suc (offset - suc seen) = ground arith in
              rw (inside, skip, more) (page_rows_from limit offset (suc seen) taken rows)
          | inr here ↦
              let none_left : offset - seen ≡ 0 = ground arith in
              elim (Bool-cases (leb limit taken)) [
                | inl full ↦
                    let done : limit - taken ≡ 0 = ground arith in
                    rw (inside, here, full, none_left, done)
                      (let rest = page_rows_from limit offset seen taken rows in
                        rw (none_left, done) at rest)
                | inr room ↦
                    let one : limit - taken ≡ suc (limit - suc taken) = ground arith in
                    let after : offset - suc seen ≡ 0 = ground arith in
                    rw (inside, here, room, none_left, one)
                      (ap (λ xs. show row ∷ xs)
                        (let rest = page_rows_from limit offset (suc seen) (suc taken) rows in
                          rw after at rest))
              ]
        ]
      ]

  pub page_rows-eq :
      (limit offset : ℕ) (rows : List R)
      → page_rows scope env show (reset limit offset) rows
        ≡ page_of show limit offset (in_scope_rows rows)
  unfolding reset
  page_rows-eq limit offset rows =
      let all : limit - 0 ≡ limit = omega arith in
      let none_seen : offset - 0 ≡ offset = omega arith in
      rw (all, none_seen) at (page_rows_from limit offset 0 0 rows)

module _ {A : Type 0} (lists : Listers A) (scope : Option (List ℤ)) (r : ApiRequest) (a : A) where
  -- The listings of the three repositories, and the page of their rows in scope that the inventory shows.
  pub record IsPageOf (inv : Inventory) : Type 0 where
    pub limit : ℕ
    pub offset : ℕ
    pub asked : parse_page r ≡ some (limit, offset)
    pub at_least : 1 ≤ limit
    pub at_most : limit ≤ max_list_limit
    pub flags : List ReconcileRow
    pub micro : List MicroserviceAppSettings
    pub loc : List Localization
    pub flags_listed : lists.flags a ≡ some flags
    pub micro_listed : lists.micro a ≡ some micro
    pub loc_listed : lists.loc a ≡ some loc
    pub flags_page :
        inv.flags
        ≡ page_of inventory_flag limit offset (in_scope_rows scope env_of_flag inventory_flag flags)
    pub micro_page :
        inv.service_settings
        ≡ page_of inventory_settings limit offset
            (in_scope_rows scope env_of_settings inventory_settings micro)
    pub loc_page :
        inv.localization
        ≡ page_of inventory_loc limit offset (in_scope_rows scope env_of_loc inventory_loc loc)

  on_rows-IsPageOf :
      (limit offset : ℕ) (inv : Inventory)
      → parse_page r ≡ some (limit, offset)
      → 1 ≤ limit
      → limit ≤ max_list_limit
      → (flags : Option (List ReconcileRow)) → (micro : Option (List MicroserviceAppSettings))
      → (loc : Option (List Localization)) → lists.flags a ≡ flags
      → lists.micro a ≡ micro
      → lists.loc a ≡ loc
      → on_rows lists scope (limit, offset) flags micro loc ≡ sent 200 inv
      → IsPageOf inv
  on_rows-IsPageOf limit offset inv q low high none micro loc f m l e = cc
  on_rows-IsPageOf limit offset inv q low high (some flags) none loc f m l e = cc
  on_rows-IsPageOf limit offset inv q low high (some flags) (some micro) none f m l e = cc
  on_rows-IsPageOf limit offset inv q low high (some flags) (some micro) (some loc) f m l e =
      record {
        limit = limit;
        offset = offset;
        asked = q;
        at_least = low;
        at_most = high;
        flags = flags;
        micro = micro;
        loc = loc;
        flags_listed = f;
        micro_listed = m;
        loc_listed = l;
        flags_page = cc (page_rows-eq scope env_of_flag inventory_flag limit offset flags);
        micro_page = cc (page_rows-eq scope env_of_settings inventory_settings limit offset micro);
        loc_page = cc (page_rows-eq scope env_of_loc inventory_loc limit offset loc);
      }

  -- An inventory that is answered shows, of each of the three collections, the rows of the reader's scope
  -- from the offset of the request on, as many as the limit of the request allows, which is between 1 and
  -- 500, in the order of the listing.
  pub serve_inventory-IsPageOf :
      (inv : Inventory) → serve_inventory lists scope r a ≡ sent 200 inv → IsPageOf inv
  unfolding serve_inventory
  serve_inventory-IsPageOf inv h = go (parse_page r) refl h
    where
      go :
          (o : Option (ℕ × ℕ))
          → parse_page r ≡ o
          → on_page lists scope a o ≡ sent 200 inv
          → IsPageOf inv
      go none q k = cc
      go (some (limit, offset)) q k =
          let (low, high) = parse_page_bounds r limit offset q in
          on_rows-IsPageOf limit offset inv q low high (lists.flags a) (lists.micro a) (lists.loc a)
            refl refl refl k
