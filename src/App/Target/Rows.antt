-- ===== src/App/Target/Rows.antt =====
-- The targets of writes to existing rows, for internal/app/middleware.go.
use central_config_stream.Prelude.{
  ◌≡◌, refl, true, false, ◌&&◌, Option, none, some, List, if◌then◌else◌, arith, All, In, inl, inr,
  Bool-cases, ◌⊎◌,
}
use central_config_stream.Prelude.Int.{ℤ, is_positive, int_beq, int_beq_iff}
use central_config_stream.Text.{Text, is_empty}
use central_config_stream.Text.Decimal.{format_int, parse_int}
use central_config_stream.App.Tokens.{AdminToken, WriteTarget, allows}
use central_config_stream.App.Tokens.Scope.{allows_scoped-In}
use central_config_stream.App.Request.{HttpRequest, BodyFields, decode_body_fields}
use central_config_stream.App.Target.{
  TargetClass, class_row_flag_value, class_row_service_settings, class_row_localization, table,
  moves_environment, Security, lookup_row_environment, positive_id, start_target, row_envs, row_at,
  resolve_row, resolve_target,
}

pub data IsRow : TargetClass → Type 0 where
  flag_value_row : IsRow class_row_flag_value
  settings_row : IsRow class_row_service_settings
  localization_row : IsRow class_row_localization

-- the id of the row: that of the path, or of the body if the path has none
abbrev pub row_name : HttpRequest → BodyFields → Text
row_name r fields =
    if is_empty r.path_id && is_positive fields.id then format_int fields.id else r.path_id

module _ {A : Type 0} (s : Security A) (a : A) (scope : List ℤ) where
  -- The row exists, its stored environment is in the scope, and so is the one that an update of this
  -- class moves it to.
  pub record RowInScope (class : TargetClass) (fields : BodyFields) (name : Text) : Type 0 where
    pub id : ℤ
    pub env : ℤ
    pub row_id : positive_id (parse_int name) ≡ some id
    pub stored : lookup_row_environment s a (table class) id ≡ some env
    pub env_in_scope : In env scope
    pub moved_in_scope :
        (moves_environment class ≡ false)
        ⊎ ((is_positive fields.environment_id ≡ false) ⊎ In fields.environment_id scope)

  envs-In :
      (class : TargetClass) (fields : BodyFields) (target : WriteTarget) (env : ℤ)
      → All (λ e. In e scope) (row_envs class fields target (some env)).envs
      → In env scope
        × (moves_environment class ≡ true
            → is_positive fields.environment_id ≡ true
            → In fields.environment_id scope)
  envs-In class fields target env h = elim (Bool-cases (int_beq fields.environment_id env)) [
    | inl same ↦
        let first : In env scope = ground arith in
        let e : fields.environment_id ≡ env = (int_beq_iff fields.environment_id env).0 same in
        (first, λ m p. rw e first)
    | inr other ↦ (ground arith, λ m p. ground arith)
  ]

  moved-In :
      (class : TargetClass) (fields : BodyFields)
      → (moves_environment class ≡ true
          → is_positive fields.environment_id ≡ true
          → In fields.environment_id scope)
      → (moves_environment class ≡ false)
        ⊎ ((is_positive fields.environment_id ≡ false) ⊎ In fields.environment_id scope)
  moved-In class fields h = elim (Bool-cases (moves_environment class)) [
    | inr stays ↦ inl stays
    | inl moves ↦ elim (Bool-cases (is_positive fields.environment_id)) [
      | inr none_named ↦ inr (inl none_named)
      | inl named ↦ inr (inr (h moves named))
    ]
  ]

  row_at-InScope :
      (class : TargetClass) (fields : BodyFields) (target : WriteTarget) (name : Text)
      → let t = row_at s a class fields target (positive_id (parse_int name)) in
        t.global ≡ false → All (λ e. In e scope) t.envs → RowInScope class fields name
  row_at-InScope class fields target name g h = go (positive_id (parse_int name)) refl g h
    where
      found :
          (id : ℤ)
          → positive_id (parse_int name) ≡ some id
          → (o : Option ℤ) → lookup_row_environment s a (table class) id ≡ o
          → (row_envs class fields target o).global ≡ false
          → All (λ e. In e scope) (row_envs class fields target o).envs
          → RowInScope class fields name
      found id e none stored g h = cc
      found id e (some env) stored g h =
          let both = envs-In class fields target env h in
          record {
            id = id;
            env = env;
            row_id = e;
            stored = stored;
            env_in_scope = both.0;
            moved_in_scope = moved-In class fields both.1;
          }

      go :
          (o : Option ℤ)
          → positive_id (parse_int name) ≡ o
          → (row_at s a class fields target o).global ≡ false
          → All (λ e. In e scope) (row_at s a class fields target o).envs
          → RowInScope class fields name
      go none e g h = cc
      go (some id) e g h = found id e (lookup_row_environment s a (table class) id) refl g h

  resolve_row-InScope :
      (class : TargetClass) (r : HttpRequest) (fields : BodyFields) (domain : Text)
      → (resolve_row s a class fields (start_target r domain)).global ≡ false
      → All (λ e. In e scope) (resolve_row s a class fields (start_target r domain)).envs
      → RowInScope class fields (row_name r fields)
  unfolding resolve_row
  resolve_row-InScope class r fields domain g h =
      elim (Bool-cases (is_empty r.path_id && is_positive fields.id)) [
        | inl body ↦ rw body (
            row_at-InScope class fields
              (record (start_target r domain) { row_id = format_int fields.id })
              (format_int fields.id) (rw body at g) (rw body at h))
        | inr path ↦ rw path (
            row_at-InScope class fields (start_target r domain) r.path_id (rw path at g)
              (rw path at h))
      ]

  -- If a scoped credential is allowed a write to an existing row, then the row exists, its environment in
  -- the database is in the scope, and so is the environment that the body of an update moves it to.
  pub allows-RowInScope :
      (t : AdminToken) (class : TargetClass)
      → IsRow class
      → (r : HttpRequest) (domain : Text) → t.envs ≡ some scope
      → allows t (resolve_target s a r class domain) ≡ true
      → RowInScope class (decode_body_fields s.json r) (row_name r (decode_body_fields s.json r))
  unfolding resolve_target
  allows-RowInScope t _ flag_value_row r domain e h =
      let (g, all) =
        allows_scoped-In t scope (resolve_target s a r class_row_flag_value domain) e h in
      resolve_row-InScope class_row_flag_value r (decode_body_fields s.json r) domain g all
  allows-RowInScope t _ settings_row r domain e h =
      let (g, all) =
        allows_scoped-In t scope (resolve_target s a r class_row_service_settings domain) e h in
      resolve_row-InScope class_row_service_settings r (decode_body_fields s.json r) domain g all
  allows-RowInScope t _ localization_row r domain e h =
      let (g, all) =
        allows_scoped-In t scope (resolve_target s a r class_row_localization domain) e h in
      resolve_row-InScope class_row_localization r (decode_body_fields s.json r) domain g all
