-- ===== src/Messaging/Reconciler/Prune.antt =====
-- Which entries of the store a prune may change, and which it removes.
use central_config_stream.Prelude.{
  ℕ, ◌≤◌, ◌≡◌, refl, ◌⊎◌, inl, inr, Bool, true, false, ◌&&◌, ◌||◌, Option, none, some, List, [],
  ◌∷◌, ltb, if◌then◌else◌, length, arith, Bool-cases, In, sym, ◌∙◌,
}
use central_config_stream.Prelude.Map.{Map, lookup}
use central_config_stream.Text.{Text, text_beq, text_beq_iff, text_eq, is_empty}
use central_config_stream.Messaging.Kv.{KeyRevision}
use central_config_stream.Messaging.ConfigPublisher.{ConfigPublisher}
use central_config_stream.Messaging.Reconciler.{
  Float, Event, Runtime, contains, revisions_of, same_revision, stale_keys, prune_limit, no_keys,
  delete_all, count_pruned, report_pruned, prune_stale, prune_listed, prune, list_nothing,
  keys_pruned, prune_refused,
}

pub contains_iff : (ks : List Text) (k : Text) → (contains ks k ≡ true) → In k ks
unfolding contains
contains_iff [] k h = cc
contains_iff (j ∷ ks) k h = ground (arith, contains_iff ks k, text_beq_iff j k)

pub In-contains : (ks : List Text) (k : Text) → In k ks → contains ks k ≡ true
unfolding contains
In-contains [] k h = elim h [ ]
In-contains (j ∷ ks) k h = ground (arith, In-contains ks k, text_beq_iff j k)

-- A key is collected only if it is listed, not published, and at the revision that it had at the start.
pub record IsStale (published : List Text) (unchanged : Map Text ℕ) (actual : List KeyRevision)
    (k : Text) : Type 0 where
  pub entry : KeyRevision
  pub named : entry.key ≡ k
  pub listed : In entry actual
  pub unpublished : contains published k ≡ false
  pub unmoved : lookup k unchanged ≡ some entry.revision

same_revision_some : (o : Option ℕ) (r : ℕ) → same_revision o r ≡ true → o ≡ some r
same_revision_some none r h = cc
same_revision_some (some s) r h = ground arith

IsStale-later :
    (published : List Text) (unchanged : Map Text ℕ) (e : KeyRevision) (es : List KeyRevision)
    (k : Text)
    → IsStale published unchanged es k
    → IsStale published unchanged (e ∷ es) k
IsStale-later published unchanged e es k s = record {
  entry = s.entry;
  named = s.named;
  listed = inr s.listed;
  unpublished = s.unpublished;
  unmoved = s.unmoved;
}

pub stale_keys-IsStale :
    (published : List Text) (unchanged : Map Text ℕ) (actual : List KeyRevision) (k : Text)
    → In k (stale_keys published unchanged actual)
    → IsStale published unchanged actual k
unfolding stale_keys
stale_keys-IsStale published unchanged [] k m = elim m [ ]
stale_keys-IsStale published unchanged (e ∷ es) k m =
    go (contains published e.key) refl (same_revision (lookup e.key unchanged) e.revision) refl m
      (λ n.
        IsStale-later published unchanged e es k (stale_keys-IsStale published unchanged es k n))
  where
    go :
        (b : Bool)
        → contains published e.key ≡ b
        → (c : Bool) → same_revision (lookup e.key unchanged) e.revision ≡ c
        → In k (
            if b
            then stale_keys published unchanged es
            else if c
            then e.key ∷ stale_keys published unchanged es
            else stale_keys published unchanged es)
        → (In k (stale_keys published unchanged es) → IsStale published unchanged (e ∷ es) k)
        → IsStale published unchanged (e ∷ es) k
    go true h c h' m later = later m
    go false h false h' m later = later m
    go false h true h' (inr m) later = later m
    go false h true h' (inl n) later = record {
      entry = e;
      named = n;
      listed = inl refl;
      unpublished = rw (← n) h;
      unmoved = rw (← n) (same_revision_some (lookup e.key unchanged) e.revision h');
    }

-- What is relied on of the publisher: a delete touches its own entry alone.
pub record KeyStore (P : ConfigPublisher) (rt : Runtime P) : Type 0 where
  pub view : P.State → Text → Text → Option (Option Text × ℕ)
  pub delete_others :
      (w : P.State) (b k c j : Text)
      → ¬ ((c ≡ b) × (j ≡ k))
      → view (P.delete_key w b k).1 c j ≡ view w c j
  pub emit_keeps : (w : P.State) (e : Event) (c j : Text) → view (rt.emit e w) c j ≡ view w c j

module _ (P : ConfigPublisher) (rt : Runtime P) (store : KeyStore P rt) where
  pub delete_all-keeps :
      (b : Text) (ks : List Text) (n : ℕ) (w : P.State) (c j : Text)
      → ¬ ((c ≡ b) × In j ks)
      → store.view (delete_all P rt b ks n w).1 c j ≡ store.view w c j
  unfolding delete_all
  delete_all-keeps b [] n w c j h = refl
  delete_all-keeps b (k ∷ ks) n w c j h =
      let r = P.delete_key w b k in
      delete_all-keeps b ks (count_pruned r.0 n) r.1 c j (λ m. h (m.0, inr m.1))
      ∙ store.delete_others w b k c j (λ m. h (m.0, inl (sym m.1)))

  pub report_pruned-keeps :
      (b : Text) (r : ℕ × P.State) (c j : Text)
      → store.view (report_pruned P rt b r) c j ≡ store.view r.1 c j
  report_pruned-keeps b (n, w) c j = ground (arith, store.emit_keeps w (keys_pruned b n) c j)

  -- A prune that changes something has published keys, is within its limit, and deletes stale keys.
  prune_stale-effect :
      (b : Text) (published : List Text) (limit : ℕ) (stale : List Text) (w : P.State) (c j : Text)
      → (store.view (prune_stale P rt b published limit stale w) c j ≡ store.view w c j)
        ⊎ ((no_keys published ≡ false) × (length stale ≤ limit) × (c ≡ b) × In j stale)
  unfolding prune_stale
  prune_stale-effect b published limit stale w c j = elim (Bool-cases (no_keys stale)) [
    | inl nothing ↦ inl (rw nothing refl)
    | inr some_stale ↦ elim (Bool-cases (no_keys published || ltb limit (length stale))) [
      | inl refused ↦ inl (rw (some_stale, refused) (store.emit_keeps w (prune_refused b) c j))
      | inr allowed ↦ elim (Bool-cases (text_beq c b && contains stale j)) [
        | inl hit ↦ inr (
          ground arith,
          ground arith,
          ground (arith, text_beq_iff c b),
          contains_iff stale j (ground arith),
        )
        | inr missed ↦ inl (
            rw (some_stale, allowed)
              (report_pruned-keeps b (delete_all P rt b stale 0 w) c j
                ∙ delete_all-keeps b stale 0 w c j
                    (λ m. ground (arith, text_beq_iff c b, In-contains stale j m.1))))
      ]
    ]
  ]

  module _ (fl : Float) (fraction : fl.F) (bucket : Text) (published : List Text)
      (at_start : List KeyRevision) (w : P.State) where
    -- Why an entry may have been deleted: it is of this bucket; the sweep published keys, but not this
    -- one; it is at the revision of the snapshot; and no more than the limit are stale.
    pub record PrunedKey (c j : Text) : Type 0 where
      pub same_bucket : c ≡ bucket
      pub actual : List KeyRevision
      pub listed_now : list_nothing (P.list_revisions w bucket) ≡ some actual
      pub stale : IsStale published (revisions_of at_start []) actual j
      pub some_published : no_keys published ≡ false
      pub in_limit :
          length (stale_keys published (revisions_of at_start []) actual)
          ≤ prune_limit fl fraction (length actual)

    -- A prune leaves an entry of the store as it was, unless the entry is a `PrunedKey`.
    pub prune_effect :
        (c j : Text)
        → (store.view (prune P rt fl fraction bucket published at_start w) c j ≡ store.view w c j)
          ⊎ PrunedKey c j
    unfolding prune
    prune_effect c j = elim (Bool-cases (is_empty bucket)) [
      | inl unnamed ↦ inl (rw unnamed refl)
      | inr named ↦ rw named (go (list_nothing (P.list_revisions w bucket)) refl)
    ]
      where
        go :
            (o : Option (List KeyRevision))
            → list_nothing (P.list_revisions w bucket) ≡ o
            → (store.view (prune_listed P rt fl fraction bucket published at_start o w) c j
                ≡ store.view w c j)
              ⊎ PrunedKey c j
        go none e = inl refl
        go (some actual) e =
            let stale = stale_keys published (revisions_of at_start []) actual in
            elim (prune_stale-effect bucket published (prune_limit fl fraction (length actual))
              stale w c j) [
                | inl same ↦ inl same
                | inr hit ↦ inr (record {
                  same_bucket = hit.2;
                  actual = actual;
                  listed_now = e;
                  stale = stale_keys-IsStale published (revisions_of at_start []) actual j hit.3;
                  some_published = hit.0;
                  in_limit = hit.1;
                })
              ]
