-- ===== src/App/Inventory/Tests.antt =====
-- The inventory of two flags, read by a credential of environment 7.
use central_config_stream.App.Tokens.{has_env}
use central_config_stream.Prelude.{◌≡◌, refl, some, [], ◌∷◌}
use central_config_stream.Prelude.Int.{pos}
use central_config_stream.Text.{codes}
use central_config_stream.Web.{ApiRequest, sent}
use central_config_stream.App.Inventory.{Inventory, Listers, serve_inventory, inventory_flag}
use central_config_stream.App.Inventory.Pages.{IsPageOf, serve_inventory-IsPageOf}
use central_config_stream.Domain.Sources.{ReconcileRow}

abbrev dark : ReconcileRow
dark = record {
  id = pos 1;
  environment_id = pos 7;
  flag_key = codes "dark";
  enabled = pos 1;
  value = codes "on";
}

abbrev elsewhere : ReconcileRow
elsewhere = record dark { id = pos 2; environment_id = pos 8 }

abbrev lists : Listers ReconcileRow
lists = record {
  flags = λ row. some (elsewhere ∷ row ∷ []);
  micro = λ row. some [];
  loc = λ row. some [];
}

abbrev ask : ApiRequest
ask = record { path_value = λ name. []; query = λ name. []; body = [] }

abbrev own : Inventory
own = record { flags = inventory_flag dark ∷ []; service_settings = []; localization = [] }

answered : serve_inventory lists (some (pos 7 ∷ [])) ask dark ≡ sent 200 own
unfolding serve_inventory has_env
answered = refl

serve_inventory-IsPageOf_example : IsPageOf lists (some (pos 7 ∷ [])) ask dark own
serve_inventory-IsPageOf_example =
    serve_inventory-IsPageOf lists (some (pos 7 ∷ [])) ask dark own answered
