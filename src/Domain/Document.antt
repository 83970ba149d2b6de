-- ===== src/Domain/Document.antt =====
-- What the check of a document lets through.
use central_config_stream.Prelude.{◌≤◌, ◌≡◌, Bool, true, false, none, arith}
use central_config_stream.Text.{Text, byte_length, is_empty, trim_json_space}
use central_config_stream.Messaging.Limits.{max_value_size}
use central_config_stream.Domain.{opens_object, check_document}

-- A document that the publisher and the buckets take, and that a consumer can read as an object.
pub record Fits (valid : Text → Bool) (document : Text) : Type 0 where
  pub small : byte_length document ≤ max_value_size
  pub nonempty : is_empty document ≡ false
  pub json : valid document ≡ true
  pub object : opens_object (trim_json_space document) ≡ true

pub check_document-Fits {ℓ} :
    {E : Type ℓ} (too_large invalid : E) (valid : Text → Bool) (document : Text)
    → check_document too_large invalid valid document ≡ none
    → Fits valid document
unfolding check_document
check_document-Fits too_large invalid valid document h = record {
  small = ground arith;
  nonempty = ground arith;
  json = ground arith;
  object = ground arith;
}
