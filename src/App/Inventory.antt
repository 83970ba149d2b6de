-- ===== src/App/Inventory.antt =====
-- internal/app/inventory.go: a page of every editable row with its id. A listing of a repository is a
-- parameter, with `none` for an error; a scope of `none` is full scope.
pub mod Pages
mod Tests
use central_config_stream.Prelude.{
  ℕ, suc, Bool, true, false, not, ◌||◌, Option, none, some, List, [], ◌∷◌, ltb, leb, if◌then◌else◌,
}
use central_config_stream.Prelude.Int.{ℤ}
use central_config_stream.Text.{Text, codes}
use central_config_stream.Web.{ApiRequest, Reply, sent, refused, internal_server_error, parse_page}
use central_config_stream.App.Tokens.{has_env}
use central_config_stream.Domain.Sources.{ReconcileRow}
use central_config_stream.Domain.ServiceSettings.{MicroserviceAppSettings}
use central_config_stream.Domain.Localization.{Localization}

pub record InventoryFlag : Type 0 where
  pub id : ℤ
  pub environment_id : ℤ
  pub flag_key : Text
  pub enabled : ℤ
  pub value : Text

pub record InventoryServiceSettings : Type 0 where
  pub id : ℤ
  pub microservice_id : ℤ
  pub environment_id : ℤ
  pub settings_json : Text

pub record InventoryLoc : Type 0 where
  pub id : ℤ
  pub microservice_id : ℤ
  pub environment_id : ℤ
  pub locale : Text
  pub bundle_json : Text

pub record Inventory : Type 0 where
  pub flags : List InventoryFlag
  pub service_settings : List InventoryServiceSettings
  pub localization : List InventoryLoc

-- middleware.go
unfoldable pub row_in_scope : Option (List ℤ) → ℤ → Bool
row_in_scope none env = true
row_in_scope (some envs) env = has_env envs env

pub record Pager : Type 0 where
  pub limit : ℕ
  pub offset : ℕ
  pub seen : ℕ
  pub taken : ℕ

unfoldable pub reset : ℕ → ℕ → Pager
reset limit offset = record { limit = limit; offset = offset; seen = 0; taken = 0 }

unfoldable pub take_row : Pager → Bool × Pager
take_row p =
    if ltb p.seen p.offset
    then (false, record p { seen = suc p.seen })
    else if leb p.limit p.taken
    then (false, p)
    else (true, record p { seen = suc p.seen; taken = suc p.taken })

-- `inScope(r, env) && p.take()`: a row outside the scope is not counted
abbrev pub wants : Bool → Pager → Bool × Pager
wants inside p = if inside then take_row p else (false, p)

-- the loop over the rows of one collection
unfoldable pub page_rows :
    {R I : Type 0} → Option (List ℤ) → (R → ℤ) → (R → I) → Pager → List R → List I
unfolding row_in_scope take_row
page_rows scope env show p [] = []
page_rows scope env show p (row ∷ rows) =
    let (wanted, p') = wants (row_in_scope scope (env row)) p in
    let rest = page_rows scope env show p' rows in if wanted then show row ∷ rest else rest

unfoldable pub inventory_flag : ReconcileRow → InventoryFlag
inventory_flag row = record {
  id = row.id;
  environment_id = row.environment_id;
  flag_key = row.flag_key;
  enabled = row.enabled;
  value = row.value;
}

unfoldable pub inventory_settings : MicroserviceAppSettings → InventoryServiceSettings
inventory_settings row = record {
  id = row.id;
  microservice_id = row.microservice_id;
  environment_id = row.environment_id;
  settings_json = row.settings_json;
}

unfoldable pub inventory_loc : Localization → InventoryLoc
inventory_loc row = record {
  id = row.id;
  microservice_id = row.microservice_id;
  environment_id = row.environment_id;
  locale = row.locale;
  bundle_json = row.bundle_json;
}

-- the listings of the three repositories, in full
pub record Listers (A : Type 0) : Type 0 where
  pub flags : A → Option (List ReconcileRow)
  pub micro : A → Option (List MicroserviceAppSettings)
  pub loc : A → Option (List Localization)

abbrev pub env_of_flag : ReconcileRow → ℤ
env_of_flag row = row.environment_id

abbrev pub env_of_settings : MicroserviceAppSettings → ℤ
env_of_settings row = row.environment_id

abbrev pub env_of_loc : Localization → ℤ
env_of_loc row = row.environment_id

module _ {A : Type 0} (lists : Listers A) where
  abbrev on_rows :
      Option (List ℤ)
      → ℕ × ℕ
      → Option (List ReconcileRow)
      → Option (List MicroserviceAppSettings)
      → Option (List Localization)
      → Reply Text Inventory
  on_rows scope page none micro loc = internal_server_error
  on_rows scope page (some flags) none loc = internal_server_error
  on_rows scope page (some flags) (some micro) none = internal_server_error
  on_rows scope (limit, offset) (some flags) (some micro) (some loc) =
      let p = reset limit offset in
      sent 200 (record {
        flags = page_rows scope env_of_flag inventory_flag p flags;
        service_settings = page_rows scope env_of_settings inventory_settings p micro;
        localization = page_rows scope env_of_loc inventory_loc p loc;
      })

  abbrev on_page : Option (List ℤ) → A → Option (ℕ × ℕ) → Reply Text Inventory
  on_page scope a none = refused 400 (codes "invalid query parameter")
  on_page scope a (some page) = on_rows scope page (lists.flags a) (lists.micro a) (lists.loc a)

  -- ServeHTTP, for a reader of the given scope
  unfoldable pub serve_inventory : Option (List ℤ) → ApiRequest → A → Reply Text Inventory
  unfolding parse_page reset page_rows
  serve_inventory scope r a = on_page scope a (parse_page r)
