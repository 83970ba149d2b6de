-- ===== src/Client/Fallback/Stores.antt =====
-- What one fetch of the HTTP fallback may change in the caches.
use central_config_stream.Prelude.{
  ◌≡◌, refl, ◌≢◌, true, false, not, Option, none, some, ◌&&◌, if◌then◌else◌, arith, Bool-cases, inl,
  inr, ◌∙◌, sym,
}
use central_config_stream.Prelude.Int.{ℤ, pos, int_beq, int_beq_iff, int_eq}
use central_config_stream.Prelude.Map.{lookup, insert, lookup-insert}
use central_config_stream.Text.{Text, text_eq, text_beq, text_beq_iff}
use central_config_stream.Messaging.Publisher.{FlagPayload}
use central_config_stream.Client.{Client, in_scope, bundle, flag_value, value_of}
use central_config_stream.Client.Apply.{bundle-put_bundle}
use central_config_stream.Client.Endpoints.{
  store_flag, store_config, store_localization, Got, got, missed, FlagValueResponse,
  ConfigValueResponse, LocalizationResponse,
}
use central_config_stream.Client.Fallback.{is_cached}

-- What was cached before is cached unchanged.
pub record Kept (before after : Client) : Type 0 where
  pub env : after.env ≡ before.env
  pub ms_id : after.ms_id ≡ before.ms_id
  pub watch : after.watch ≡ before.watch
  pub flags :
      (flag : Text) (p : FlagPayload)
      → lookup flag before.flags ≡ some p
      → lookup flag after.flags ≡ some p
  pub bundles :
      (ms : ℤ) (locale b : Text)
      → bundle before ms locale ≡ some b
      → bundle after ms locale ≡ some b
  pub micro :
      before.ms_id ≢ pos 0
      → (ms : ℤ) (settings : Text) → lookup ms before.micro ≡ some settings
      → lookup ms after.micro ≡ some settings

pub Kept-refl : (c : Client) → Kept c c
Kept-refl c = record {
  env = refl;
  ms_id = refl;
  watch = refl;
  flags = λ flag p h. h;
  bundles = λ ms locale b h. h;
  micro = λ scoped ms settings h. h;
}

pub Kept-trans : {a b c : Client} → Kept a b → Kept b c → Kept a c
Kept-trans h k = record {
  env = k.env ∙ h.env;
  ms_id = k.ms_id ∙ h.ms_id;
  watch = k.watch ∙ h.watch;
  flags = λ flag p e. k.flags flag p (h.flags flag p e);
  bundles = λ ms locale b e. k.bundles ms locale b (h.bundles ms locale b e);
  micro = λ scoped ms settings e.
      k.micro (λ z. scoped (sym h.ms_id ∙ z)) ms settings (h.micro scoped ms settings e);
}

pub store_flag-Kept :
    (c : Client) (flag : Text) (a : Got FlagValueResponse)
    → is_cached (flag_value c flag) ≡ false
    → Kept c (store_flag c flag a).1
unfolding bundle
store_flag-Kept c flag (missed e) fresh = Kept-refl c
store_flag-Kept c flag (got r) fresh = elim (Bool-cases (int_beq r.environment_id c.env)) [
  | inr other ↦ rw other (Kept-refl c)
  | inl same ↦ rw same (record {
    env = refl;
    ms_id = refl;
    watch = refl;
    flags = λ j p h. kept j p h;
    bundles = λ ms locale b h. h;
    micro = λ scoped ms settings h. h;
  })
]
  where
    payload : FlagPayload
    payload = record {
      enabled = not (int_beq r.enabled (pos 0));
      value = r.value;
      updated_at = r.updated_at;
    }

    absent : lookup flag c.flags ≡ none
    absent = go (lookup flag c.flags) (unfold flag_value in fresh)
      where
        go : (o : Option FlagPayload) → is_cached (value_of o) ≡ false → o ≡ none
        go none h = refl
        go (some p) h = cc

    kept :
        (j : Text) (p : FlagPayload)
        → lookup j c.flags ≡ some p
        → lookup j (insert flag payload c.flags) ≡ some p
    kept j p h = ground (arith, lookup-insert flag j payload c.flags, text_beq_iff flag j, absent)

pub store_config-Kept :
    (c : Client) (a : Got ConfigValueResponse)
    → (c.ms_id ≢ pos 0 → lookup c.ms_id c.micro ≡ none)
    → Kept c (store_config c a).1
unfolding bundle
store_config-Kept c (missed e) fresh = Kept-refl c
store_config-Kept c (got r) fresh = elim (Bool-cases (int_beq r.environment_id c.env)) [
  | inr other ↦ rw other (Kept-refl c)
  | inl same ↦ elim (Bool-cases (in_scope c r.microservice_id)) [
    | inr outside ↦ rw (same, outside) (Kept-refl c)
    | inl inside ↦
        rw (same, inside)
          (record {
            env = refl;
            ms_id = refl;
            watch = refl;
            flags = λ j p h. h;
            bundles = λ ms locale b h. h;
            micro = λ scoped ms settings h. kept inside scoped ms settings h;
          })
  ]
]
  where
    kept :
        in_scope c r.microservice_id ≡ true
        → c.ms_id ≢ pos 0
        → (ms : ℤ) (settings : Text) → lookup ms c.micro ≡ some settings
        → lookup ms (insert r.microservice_id r.settings_json c.micro) ≡ some settings
    kept inside scoped ms settings h =
        let own : c.ms_id ≡ r.microservice_id =
          unfold in_scope in
          ground (arith, int_beq_iff c.ms_id (pos 0), int_beq_iff c.ms_id r.microservice_id) in
        let absent : lookup r.microservice_id c.micro ≡ none = rw (← own) (fresh scoped) in
        ground (
          arith,
          lookup-insert r.microservice_id ms r.settings_json c.micro,
          int_beq_iff r.microservice_id ms,
        )

pub store_localization-Kept :
    (c : Client) (locale : Text) (a : Got LocalizationResponse)
    → is_cached (bundle c c.ms_id locale) ≡ false
    → Kept c (store_localization c locale a).1
store_localization-Kept c locale (missed e) fresh = Kept-refl c
store_localization-Kept c locale (got r) fresh = record {
  env = refl;
  ms_id = refl;
  watch = refl;
  flags = λ j p h. h;
  bundles = λ ms j b h. kept ms j b h;
  micro = λ scoped ms settings h. h;
}
  where
    other :
        (ms : ℤ) (j b : Text)
        → bundle c ms j ≡ some b
        → (o : Option Text) → bundle c c.ms_id locale ≡ o
        → (if int_beq c.ms_id ms && text_beq locale j then some r.bundle_json else bundle c ms j)
          ≡ some b
    other ms j b h none e = ground (arith, int_beq_iff c.ms_id ms, text_beq_iff locale j)
    other ms j b h (some old) e = cc

    kept :
        (ms : ℤ) (j b : Text)
        → bundle c ms j ≡ some b
        → bundle (store_localization c locale (got r)).1 ms j ≡ some b
    kept ms j b h =
        bundle-put_bundle c c.ms_id locale (some r.bundle_json) ms j
        ∙ other ms j b h (bundle c c.ms_id locale) refl
