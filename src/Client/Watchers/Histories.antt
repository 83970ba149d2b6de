-- ===== src/Client/Watchers/Histories.antt =====
-- What a sequence of updates makes of the flags and of the settings of a service.
use central_config_stream.Prelude.{
  ◌≡◌, refl, Bool, false, if◌then◌else◌, Option, none, some, List, [], ◌∷◌, ◌++◌, arith, ◌∙◌, ap,
  map,
}
use central_config_stream.Prelude.Map.{lookup}
use central_config_stream.Text.{Text, codes, text_eq, trim_prefix}
use central_config_stream.Text.Decimal.{format_int}
use central_config_stream.Client.{ClientCodec, Client, trim_env, apply_flag, apply_service_settings}
use central_config_stream.Prelude.Int.{ℤ, int_beq, int_eq}
use central_config_stream.Prelude.Map.{lookup-insert, lookup-delete}
use central_config_stream.Text.Decimal.{parse_int}
use central_config_stream.Client.{put_settings}
use central_config_stream.Client.Apply.{lookup-apply_flag_key}
use central_config_stream.Client.Reads.{history, apply_flag_env}
use central_config_stream.Client.Watchers.{Update, drain_initial}

-- the updates before the marker
abbrev pub initial : List (Option Update) → List Update
initial [] = []
initial (none ∷ us) = []
initial (some u ∷ us) = u ∷ initial us

-- an update of a flag, by what its key names behind the environment
abbrev pub named : Client → Update → Text × Option Text
named c u = (trim_env c u.key, u.value)

trim_env-env : (c d : Client) (key : Text) → c.env ≡ d.env → trim_env c key ≡ trim_env d key
unfolding trim_env
trim_env-env c d key e = ap (λ env. trim_prefix (format_int env ++ codes ".") key) e

pub flags-drain_initial :
    (json : ClientCodec) (c0 c : Client) (us : List (Option Update)) (flag : Text)
    → c.env ≡ c0.env
    → lookup flag (drain_initial (apply_flag json) us c).1.flags
      ≡ history json flag (lookup flag c.flags) (map (named c0) (initial us))
unfolding drain_initial
flags-drain_initial json c0 c [] flag e = refl
flags-drain_initial json c0 c (none ∷ us) flag e = refl
flags-drain_initial json c0 c (some u ∷ us) flag e =
    let c' = apply_flag json c u.key u.value in
    flags-drain_initial json c0 c' us flag (apply_flag_env json c u.key u.value ∙ e)
    ∙ ap (λ o. history json flag o (map (named c0) (initial us)))
        (rw (trim_env-env c c0 u.key e) at (lookup-apply_flag_key json c u.key u.value flag))

-- the settings of a service after the updates: those that name it behind the environment, in order
abbrev names : ℤ → Option ℤ → Bool
names ms none = false
names ms (some m) = int_beq m ms

abbrev pub is_named : Client → ℤ → Text → Bool
is_named c ms key = names ms (parse_int (trim_env c key))

abbrev pub settings_history : Client → ℤ → Option Text → List Update → Option Text
settings_history c ms old [] = old
settings_history c ms old (u ∷ us) =
    settings_history c ms (if is_named c ms u.key then u.value else old) us

lookup-apply_settings_key :
    (c : Client) (key : Text) (value : Option Text) (ms : ℤ)
    → lookup ms (apply_service_settings c key value).micro
      ≡ (if is_named c ms key then value else lookup ms c.micro)
unfolding apply_service_settings
lookup-apply_settings_key c key value ms = go (parse_int (trim_env c key)) value
  where
    go :
        (o : Option ℤ) (v : Option Text)
        → lookup ms (put_settings c o v).micro ≡ (if names ms o then v else lookup ms c.micro)
    go none v = refl
    go (some m) none = lookup-delete m ms c.micro
    go (some m) (some t) = lookup-insert m ms t c.micro

env-apply_settings :
    (c : Client) (key : Text) (value : Option Text)
    → (apply_service_settings c key value).env ≡ c.env
unfolding apply_service_settings
env-apply_settings c key none = ground arith
env-apply_settings c key (some v) = ground arith

pub micro-drain_initial :
    (c0 c : Client) (us : List (Option Update)) (ms : ℤ)
    → c.env ≡ c0.env
    → lookup ms (drain_initial apply_service_settings us c).1.micro
      ≡ settings_history c0 ms (lookup ms c.micro) (initial us)
unfolding drain_initial
micro-drain_initial c0 c [] ms e = refl
micro-drain_initial c0 c (none ∷ us) ms e = refl
micro-drain_initial c0 c (some u ∷ us) ms e =
    let c' = apply_service_settings c u.key u.value in
    micro-drain_initial c0 c' us ms (env-apply_settings c u.key u.value ∙ e)
    ∙ ap (λ o. settings_history c0 ms o (initial us))
        (rw (trim_env-env c c0 u.key e) at (lookup-apply_settings_key c u.key u.value ms))
