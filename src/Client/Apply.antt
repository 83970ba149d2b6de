-- ===== src/Client/Apply.antt =====
-- What an update of the key that a row feeds does to the cache.
use mathlib.Core.List.{append_assoc}
use central_config_stream.Prelude.{
  ◌≡◌, refl, Option, none, some, [], ◌∷◌, ◌++◌, if◌then◌else◌, ◌>>=◌, arith, ◌∙◌, ap, sym, ◌&&◌,
}
use central_config_stream.Prelude.Int.{ℤ, IsInt64, int_beq, int_beq_iff, int_eq}
use central_config_stream.Prelude.Map.{Map, lookup, insert, delete, lookup-insert, lookup-delete}
use central_config_stream.Text.{Text, codes, text_beq, text_beq_iff, text_eq, trim_prefix}
use central_config_stream.Text.Laws.{trim_prefix-append, split_n-append}
use central_config_stream.Text.Decimal.{format_int}
use central_config_stream.Text.Decimal.RoundTrip.{parse_int-format_int, format_int-Lacks_dot}
use central_config_stream.Keys.{flag_key, service_settings_key, localization_key}
use central_config_stream.Messaging.Publisher.{FlagPayload}
use central_config_stream.Client.{
  ClientCodec, Client, trim_env, put_flag, apply_flag, apply_service_settings, put_bundle,
  apply_loc, bundle, bundles_or_empty, drop_bundle,
}

trim_env-append : (c : Client) (rest : Text) → trim_env c (format_int c.env ++ b'.' ∷ rest) ≡ rest
unfolding trim_env
trim_env-append c rest =
    ap (trim_prefix (format_int c.env ++ codes "."))
      (sym (append_assoc (format_int c.env) (codes ".") rest))
    ∙ trim_prefix-append (format_int c.env ++ codes ".") rest

-- what an update makes of the payload under its key: a malformed value changes nothing
abbrev pub updated_flag : ClientCodec → Option Text → Option FlagPayload → Option FlagPayload
updated_flag json none old = none
updated_flag json (some v) old = elim (json.flag_payload v) [ none ↦ old | some p ↦ some p ]

-- Any update changes the cached payload of the flag that its key names behind the environment.
pub lookup-apply_flag_key :
    (json : ClientCodec) (c : Client) (key : Text) (value : Option Text) (j : Text)
    → lookup j (apply_flag json c key value).flags ≡ (
        if text_beq (trim_env c key) j
        then updated_flag json value (lookup j c.flags)
        else lookup j c.flags)
unfolding apply_flag
lookup-apply_flag_key json c key none j = lookup-delete (trim_env c key) j c.flags
lookup-apply_flag_key json c key (some v) j = go (json.flag_payload v) refl
  where
    go :
        (o : Option FlagPayload)
        → json.flag_payload v ≡ o
        → lookup j (put_flag c (trim_env c key) o).flags ≡ (
            if text_beq (trim_env c key) j
            then updated_flag json (some v) (lookup j c.flags)
            else lookup j c.flags)
    go none e = ground arith
    go (some p) e = ground (arith, lookup-insert (trim_env c key) j p c.flags)

-- An update of the key of a flag in the client's environment changes the cached payload of that flag
-- alone: a value replaces it, a malformed value leaves it, and a delete removes it.
pub lookup-apply_flag :
    (json : ClientCodec) (c : Client) (flag : Text) (value : Option Text) (j : Text)
    → lookup j (apply_flag json c (flag_key c.env flag) value).flags
      ≡ (if text_beq flag j then updated_flag json value (lookup j c.flags) else lookup j c.flags)
unfolding flag_key
lookup-apply_flag json c flag value j =
    rw (trim_env-append c flag) at (lookup-apply_flag_key json c (flag_key c.env flag) value j)

-- An update of the key of a service's settings sets or removes the settings of that service alone.
pub lookup-apply_service_settings :
    (c : Client) (ms : ℤ) (value : Option Text) (j : ℤ)
    → IsInt64 ms
    → lookup j (apply_service_settings c (service_settings_key c.env ms) value).micro
      ≡ (if int_beq ms j then value else lookup j c.micro)
unfolding apply_service_settings service_settings_key
lookup-apply_service_settings c ms none j h =
    rw (trim_env-append c (format_int ms), parse_int-format_int ms h) (lookup-delete ms j c.micro)
lookup-apply_service_settings c ms (some v) j h =
    rw (trim_env-append c (format_int ms), parse_int-format_int ms h) (lookup-insert ms j v c.micro)

pub bundle-put_bundle :
    (c : Client) (ms : ℤ) (l : Text) (value : Option Text) (m : ℤ) (j : Text)
    → bundle (put_bundle c (some ms) l value) m j
      ≡ (if int_beq ms m && text_beq l j then value else bundle c m j)
unfolding bundle
bundle-put_bundle c ms l (some v) m j = go (lookup ms c.loc) refl
  where
    go :
        (o : Option (Map Text Text))
        → lookup ms c.loc ≡ o
        → (lookup m (insert ms (insert l v (bundles_or_empty o)) c.loc) >>= lookup j)
          ≡ (if int_beq ms m && text_beq l j then some v else lookup m c.loc >>= lookup j)
    go none e =
        unfold lookup insert in
        ground (arith, lookup-insert ms m (insert l v []) c.loc, int_beq_iff ms m, text_beq_iff l j)
    go (some b) e =
        ground
          (arith, lookup-insert ms m (insert l v b) c.loc, lookup-insert l j v b, int_beq_iff ms m)
bundle-put_bundle c ms l none m j = go (lookup ms c.loc) refl
  where
    go :
        (o : Option (Map Text Text))
        → lookup ms c.loc ≡ o
        → (lookup m (drop_bundle c ms l o).loc >>= lookup j)
          ≡ (if int_beq ms m && text_beq l j then none else lookup m c.loc >>= lookup j)
    go none e = ground (arith, int_beq_iff ms m)
    go (some b) e =
        ground (arith, lookup-insert ms m (delete l b) c.loc, lookup-delete l j b, int_beq_iff ms m)

-- An update of the key of a bundle sets or removes the bundle of that service and locale alone, also
-- where the locale holds dots.
pub bundle-apply_loc :
    (c : Client) (ms : ℤ) (l : Text) (value : Option Text) (m : ℤ) (j : Text)
    → IsInt64 ms
    → bundle (apply_loc c (localization_key c.env ms l) value) m j
      ≡ (if int_beq ms m && text_beq l j then value else bundle c m j)
unfolding apply_loc localization_key
bundle-apply_loc c ms l value m j h =
    rw
      (
        trim_env-append c (format_int ms ++ b'.' ∷ l),
        split_n-append b'.' (format_int ms) l (format_int-Lacks_dot ms),
        parse_int-format_int ms h,
      )
      (bundle-put_bundle c ms l value m j)
