-- ===== src/Client/Reads.antt =====
-- Sequences of updates, and what a scoped client reads.
use central_config_stream.Prelude.{
  ◌≡◌, refl, ◌↔◌, true, ◌||◌, Option, none, some, List, [], ◌∷◌, if◌then◌else◌, arith, ◌∙◌, sym, ap,
}
use central_config_stream.Prelude.Int.{
  ℤ, pos, negsuc, IsInt64, int_beq, int_beq_iff, int_eq, is_positive,
}
use central_config_stream.Prelude.Map.{lookup}
use central_config_stream.Text.{Text, text_beq, text_eq}
use central_config_stream.Keys.{flag_key, service_settings_key}
use central_config_stream.Keys.Injective.{service_settings_key-injective}
use central_config_stream.Messaging.Publisher.{FlagPayload}
use central_config_stream.Client.{ClientCodec, Client, apply_flag, in_scope, micro_pattern}
use central_config_stream.Client.Apply.{updated_flag, lookup-apply_flag}

pub apply_flag_env :
    (json : ClientCodec) (c : Client) (key : Text) (value : Option Text)
    → (apply_flag json c key value).env ≡ c.env
unfolding apply_flag
apply_flag_env json c key none = refl
apply_flag_env json c key (some v) = ground arith

-- the updates of flags that a watcher delivers, in order
unfoldable pub replay : ClientCodec → ℤ → Client → List (Text × Option Text) → Client
replay json env c [] = c
replay json env c ((flag, value) ∷ us) =
    replay json env (apply_flag json c (flag_key env flag) value) us

-- What a flag is after the updates: the last update of its own key decides.
abbrev pub history :
    ClientCodec → Text → Option FlagPayload → List (Text × Option Text) → Option FlagPayload
history json flag old [] = old
history json flag old ((k, value) ∷ us) =
    history json flag (if text_beq k flag then updated_flag json value old else old) us

-- After any sequence of updates of its environment, the cache holds for each flag what the updates of
-- that flag's own key make of it in their order.
pub lookup-replay :
    (json : ClientCodec) (env : ℤ) (c : Client) (us : List (Text × Option Text)) (flag : Text)
    → c.env ≡ env
    → lookup flag (replay json env c us).flags ≡ history json flag (lookup flag c.flags) us
unfolding replay
lookup-replay json env c [] flag e = refl
lookup-replay json env c ((k, value) ∷ us) flag e =
    let c' = apply_flag json c (flag_key env k) value in
    lookup-replay json env c' us flag (apply_flag_env json c (flag_key env k) value ∙ e)
    ∙ ap (λ o. history json flag o us) (rw (← e) (lookup-apply_flag json c k value flag))

-- A delivery that is repeated changes no flag: handling is idempotent, as redelivery needs.
pub replay_twice :
    (json : ClientCodec) (c : Client) (flag : Text) (value : Option Text) (j : Text)
    → lookup j (replay json c.env c ((flag, value) ∷ (flag, value) ∷ [])).flags
      ≡ lookup j (replay json c.env c ((flag, value) ∷ [])).flags
replay_twice json c flag value j =
    lookup-replay json c.env c ((flag, value) ∷ (flag, value) ∷ []) j refl
    ∙ go value
    ∙ sym (lookup-replay json c.env c ((flag, value) ∷ []) j refl)
  where
    go :
        (v : Option Text)
        → history json j (lookup j c.flags) ((flag, v) ∷ (flag, v) ∷ [])
          ≡ history json j (lookup j c.flags) ((flag, v) ∷ [])
    go none = ground arith
    go (some v) = ground arith

in_scope_scoped :
    (c : Client) (ms : ℤ) → is_positive c.ms_id ≡ true → in_scope c ms ≡ int_beq c.ms_id ms
unfolding in_scope
in_scope_scoped c ms h = go c.ms_id h
  where
    go : (m : ℤ) → is_positive m ≡ true → (int_beq m (pos 0) || int_beq m ms) ≡ int_beq m ms
    go (pos n) h = ground arith
    go (negsuc n) h = cc

scoped_pattern :
    (c : Client) → is_positive c.ms_id ≡ true → micro_pattern c ≡ service_settings_key c.env c.ms_id
unfolding micro_pattern service_settings_key
scoped_pattern c h = ground arith

-- A client with a service of its own reads the settings of exactly those services whose key is the one
-- that it watches.
pub in_scope_iff :
    (c : Client) (ms : ℤ)
    → is_positive c.ms_id ≡ true
    → IsInt64 c.env
    → IsInt64 c.ms_id
    → IsInt64 ms
    → (in_scope c ms ≡ true) ↔ (micro_pattern c ≡ service_settings_key c.env ms)
in_scope_iff c ms scoped he hc hm = (to, from)
  where
    to : in_scope c ms ≡ true → micro_pattern c ≡ service_settings_key c.env ms
    to h =
        scoped_pattern c scoped
        ∙ ap (service_settings_key c.env)
            ((int_beq_iff c.ms_id ms).0 (rw (in_scope_scoped c ms scoped) at h))

    from : micro_pattern c ≡ service_settings_key c.env ms → in_scope c ms ≡ true
    from e =
        let same =
          service_settings_key-injective c.env c.env c.ms_id ms he he hc hm
            (sym (scoped_pattern c scoped) ∙ e) in
        in_scope_scoped c ms scoped ∙ (int_beq_iff c.ms_id ms).1 same.1
