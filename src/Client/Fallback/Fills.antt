-- ===== src/Client/Fallback/Fills.antt =====
-- What a pass of the HTTP fallback has filled when none of its fetches failed.
use central_config_stream.Prelude.{
  ◌≡◌, refl, ◌≢◌, ◌⊎◌, true, false, not, none, List, [], ◌∷◌, ◌&&◌, arith, Bool-cases, inl, inr,
  ◌∙◌,
}
use central_config_stream.Prelude.Int.{ℤ, pos, negsuc, int_eq, is_positive}
use central_config_stream.Prelude.Map.{Map, lookup}
use central_config_stream.Text.{Text, text_eq}
use central_config_stream.Client.{Client, bundle}
use central_config_stream.Client.Endpoints.{HttpFallback, Http, validate}
use central_config_stream.Client.Fallback.{
  Hydration, hydrate, hydrate_all, hydrate_flags, hydrate_config, hydrate_locales, is_cached,
  missing_own_keys, lacks_flag, lacks_locale,
}
use central_config_stream.Client.Fallback.Loops.{
  HasSettings, AllFlags, AllBundles, Clean, hydrate_flags-All, hydrate_locales-All,
  hydrate_config-Has,
}
use central_config_stream.Client.Fallback.Stores.{Kept}
use central_config_stream.Client.Fallback.Keeps.{
  hydrate_flags-Kept, hydrate_config-Kept, hydrate_locales-Kept, conclude-Kept,
}

AllFlags-Kept : {a b : Client} → Kept a b → (ids : Map Text ℤ) → AllFlags a ids → AllFlags b ids
AllFlags-Kept k [] h = tt
AllFlags-Kept k ((flag, id) ∷ ids) ((p, there), h) =
    ((p, k.flags flag p there), AllFlags-Kept k ids h)

AllBundles-Kept :
    {a b : Client} → Kept a b → (locales : List Text) → AllBundles a locales → AllBundles b locales
unfolding bundle
AllBundles-Kept k [] h = tt
AllBundles-Kept {a} k (locale ∷ locales) ((x, there), h) =
    ((x, rw k.ms_id (k.bundles a.ms_id locale x there)), AllBundles-Kept k locales h)

-- every key that the fallback is configured for is cached
record Filled (f : HttpFallback) (c : Client) : Type 0 where
  flags : AllFlags c f.flag_value_ids
  bundles : AllBundles c f.locales
  settings : is_positive f.config_value_id ≡ true → is_positive c.ms_id ≡ true → HasSettings c

positive_scoped : (ms : ℤ) → is_positive ms ≡ true → ms ≢ pos 0
positive_scoped (pos n) h e = ground arith
positive_scoped (negsuc n) h e = cc

Filled-Kept : (f : HttpFallback) (a b : Client) → Kept a b → Filled f a → Filled f b
Filled-Kept f a b k h = record {
  flags = AllFlags-Kept k f.flag_value_ids h.flags;
  bundles = AllBundles-Kept k f.locales h.bundles;
  settings = λ configured scoped.
      let scoped' : is_positive a.ms_id ≡ true = rw (← k.ms_id) scoped in
      let (x, there) = h.settings configured scoped' in
      (x, rw k.ms_id (k.micro (positive_scoped a.ms_id scoped') a.ms_id x there));
}

lacks_no_flag : (c : Client) (ids : Map Text ℤ) → AllFlags c ids → lacks_flag c ids ≡ false
lacks_no_flag c [] h = refl
lacks_no_flag c ((flag, id) ∷ ids) ((p, there), h) = rw there (lacks_no_flag c ids h)

lacks_no_locale :
    (c : Client) (locales : List Text) → AllBundles c locales → lacks_locale c locales ≡ false
lacks_no_locale c [] h = refl
lacks_no_locale c (locale ∷ locales) ((x, there), h) = rw there (lacks_no_locale c locales h)

Filled-missing : (f : HttpFallback) (c : Client) → Filled f c → missing_own_keys f c ≡ false
unfolding missing_own_keys
Filled-missing f c h =
    ground
      (arith, lacks_no_flag c f.flag_value_ids h.flags, lacks_no_locale c f.locales h.bundles, own)
  where
    own :
        (is_positive f.config_value_id
          && is_positive c.ms_id
          && not (is_cached (lookup c.ms_id c.micro)))
        ≡ false
    own = elim (Bool-cases (is_positive f.config_value_id)) [
      | inr unset ↦ rw unset refl
      | inl configured ↦ elim (Bool-cases (is_positive c.ms_id)) [
        | inr fleet ↦ rw (configured, fleet) refl
        | inl scoped ↦
            let (x, there) = h.settings configured scoped in rw (configured, scoped, there) refl
      ]
    ]

-- what the first two loops have filled
record Begun (f : HttpFallback) (c : Client) : Type 0 where
  flags : AllFlags c f.flag_value_ids
  settings : is_positive f.config_value_id ≡ true → is_positive c.ms_id ≡ true → HasSettings c

module _ (http : Http) (f : HttpFallback) where
  begin_with :
      (h : Hydration http f)
      → Clean http f (hydrate_config http f (hydrate_flags http f f.flag_value_ids h))
      → Begun f (hydrate_config http f (hydrate_flags http f f.flag_value_ids h)).client
  begin_with h e =
      let first = hydrate_flags http f f.flag_value_ids h in
      let kept = hydrate_config-Kept http f first in
      let (clean, has) = hydrate_config-Has http f first e in
      record {
        flags =
            AllFlags-Kept kept f.flag_value_ids
              (hydrate_flags-All http f f.flag_value_ids h clean).1;
        settings = λ configured scoped.
            has configured (positive_scoped first.client.ms_id (rw (← kept.ms_id) scoped));
      }

  end_scoped :
      (h : Hydration http f)
      → is_positive h.client.ms_id ≡ true
      → (Clean http f h → Begun f h.client)
      → Clean http f (hydrate_locales http f f.locales h)
      → Filled f (hydrate_locales http f f.locales h).client
  end_scoped h scoped begun e =
      let kept = hydrate_locales-Kept http f f.locales h in
      let (clean, bundles) = hydrate_locales-All http f f.locales h e in
      record {
        flags = AllFlags-Kept kept f.flag_value_ids (begun clean).flags;
        bundles = bundles;
        settings = λ configured scoped'.
            let (x, there) = (begun clean).settings configured scoped in
            (
              x,
              rw kept.ms_id
                  (kept.micro (positive_scoped h.client.ms_id scoped) h.client.ms_id x there),
            );
      }

  end_fleet :
      (c : Client)
      → Begun f c
      → is_positive c.ms_id ≡ false
      → (f.locales ≡ []) ⊎ (is_positive c.ms_id ≡ true)
      → Filled f c
  end_fleet c begun fleet (inr scoped) = cc
  end_fleet c begun fleet (inl empty) = record {
    flags = begun.flags;
    bundles = rw empty tt;
    settings = begun.settings;
  }

  hydrate_all-Filled :
      (c : Client) (w : http.World)
      → (hydrate_all http f c w).errs ≡ []
      → (f.locales ≡ []) ⊎ (is_positive c.ms_id ≡ true)
      → Filled f (hydrate_all http f c w).client
  unfolding hydrate_all
  hydrate_all-Filled c w e usable =
      let start : Hydration http f = record { attempted = 0; errs = []; client = c; world = w } in
      let first = hydrate_flags http f f.flag_value_ids start in
      let second = hydrate_config http f first in
      let same : second.client.ms_id ≡ c.ms_id =
        (hydrate_config-Kept http f first).ms_id
        ∙ (hydrate_flags-Kept http f f.flag_value_ids start).ms_id in
      elim (Bool-cases (is_positive second.client.ms_id)) [
        | inr fleet ↦
            rw fleet
              (end_fleet second.client (begin_with start (rw fleet at e)) fleet (ground arith))
        | inl scoped ↦ rw scoped (end_scoped second scoped (begin_with start) (rw scoped at e))
      ]

  -- A pass of a valid fallback in which no fetch failed leaves none of its own keys missing, if the client
  -- is scoped to a microservice or no locales are configured.
  pub hydrate-Fills :
      (c : Client) (w : http.World)
      → validate f ≡ none
      → (hydrate_all http f c w).errs ≡ []
      → (f.locales ≡ []) ⊎ (is_positive c.ms_id ≡ true)
      → missing_own_keys f (hydrate http f c w).1 ≡ false
  unfolding hydrate
  hydrate-Fills c w ready e usable = rw ready (
      Filled-missing f _ (
        Filled-Kept f _ _ (conclude-Kept http f (hydrate_all http f c w))
          (hydrate_all-Filled c w e usable)))
