-- ===== src/Keys/Tests.antt =====
-- The key theorems at one key each.
use central_config_stream.Prelude.{◌≡◌, refl, arith}
use central_config_stream.Prelude.Int.{pos, negsuc, IsInt64}
use central_config_stream.Text.{codes}
use central_config_stream.Keys.Injective.{localization_key-injective}

eu_IsInt64 : IsInt64 (pos 7)
eu_IsInt64 = omega arith

negative_IsInt64 : IsInt64 (negsuc 2)
negative_IsInt64 = omega arith

localization_key-injective_example :
    (pos 7 ≡ pos 7) × (negsuc 2 ≡ negsuc 2) × (codes "en.US" ≡ codes "en.US")
localization_key-injective_example =
    localization_key-injective (pos 7) (pos 7) (negsuc 2) (negsuc 2) (codes "en.US") (codes "en.US")
      eu_IsInt64 eu_IsInt64 negative_IsInt64 negative_IsInt64 refl
