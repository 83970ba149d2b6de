-- ===== src/Keys/Tokens.antt =====
-- The shape of the keys that internal/messaging/keys.go builds, which every key-value bucket takes.
use central_config_stream.Prelude.{suc, ◌≡◌, refl, true, false, [], ◌∷◌, ◌++◌, all, All, arith}
use central_config_stream.Prelude.Int.{ℤ, pos, negsuc}
use central_config_stream.Text.{Text, is_empty, is_label_char}
use central_config_stream.Text.Decimal.{format_nat, format_int}
use central_config_stream.Text.Decimal.RoundTrip.{IsDigit, format_nat-All, format_nat-ne-nil}
use central_config_stream.Keys.{flag_key, service_settings_key, localization_key}

-- letters, digits, dashes and underscores, at least one of them
pub record IsToken (t : Text) : Type 0 where
  pub nonempty : is_empty t ≡ false
  pub label : all is_label_char t ≡ true

-- tokens, with dots between them
pub data IsKey : Text → Type 0 where
  last : (t : Text) → IsToken t → IsKey t
  dotted : (t rest : Text) → IsToken t → IsKey rest → IsKey (t ++ b'.' ∷ rest)

digits-label : (s : Text) → All IsDigit s → all is_label_char s ≡ true
unfolding is_label_char
digits-label [] h = refl
digits-label (c ∷ s) h = ground (arith, digits-label s h.1)

nonempty_text : (s : Text) → ¬ (s ≡ []) → is_empty s ≡ false
nonempty_text [] h = absurd (h refl)
nonempty_text (c ∷ s) h = refl

pub format_int-IsToken : (n : ℤ) → IsToken (format_int n)
unfolding format_int is_label_char
format_int-IsToken (pos n) = record {
  nonempty = nonempty_text (format_nat n) (format_nat-ne-nil n);
  label = digits-label (format_nat n) (format_nat-All n);
}
format_int-IsToken (negsuc n) = record {
  nonempty = refl;
  label = digits-label (format_nat (suc n)) (format_nat-All (suc n));
}

pub flag_key-IsKey : (e : ℤ) (flag : Text) → IsToken flag → IsKey (flag_key e flag)
unfolding flag_key
flag_key-IsKey e flag h = dotted (format_int e) flag (format_int-IsToken e) (last flag h)

pub service_settings_key-IsKey : (e m : ℤ) → IsKey (service_settings_key e m)
unfolding service_settings_key
service_settings_key-IsKey e m =
    dotted (format_int e) (format_int m) (format_int-IsToken e)
      (last (format_int m) (format_int-IsToken m))

pub localization_key-IsKey :
    (e m : ℤ) (locale : Text) → IsToken locale → IsKey (localization_key e m locale)
unfolding localization_key
localization_key-IsKey e m locale h =
    dotted (format_int e) (format_int m ++ b'.' ∷ locale) (format_int-IsToken e)
      (dotted (format_int m) locale (format_int-IsToken m) (last locale h))
