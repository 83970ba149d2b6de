-- ===== src/Messaging/Sample/Codec.antt =====
-- A form of a flag payload that can be read back, in place of JSON in the examples.
use central_config_stream.Prelude.{
  ℕ, zero, suc, ◌≡◌, refl, Bool, true, false, Option, none, some, [], ◌∷◌, ◌>>=◌, arith,
}
use central_config_stream.Text.{Text}
use central_config_stream.Messaging.Publisher.{FlagPayload, FlagCodec}
use central_config_stream.Messaging.Publisher.Serves.{IsLawful}

-- each character of the first text is marked with 1, and 0 stands before the second
abbrev pub join : Text → Text → Text
join [] u = 0 ∷ u
join (c ∷ t) u = 1 ∷ c ∷ join t u

abbrev pub first : ℕ → Text × Text → Text × Text
first c (t, u) = (c ∷ t, u)

abbrev pub unjoin : Text → Option (Text × Text)
unjoin (zero ∷ u) = some ([], u)
unjoin (suc _ ∷ c ∷ t) = unjoin t >>= λ p. some (first c p)
unjoin [] = none
unjoin (suc _ ∷ []) = none

pub unjoin-join : (t u : Text) → unjoin (join t u) ≡ some (t, u)
unjoin-join [] u = refl
unjoin-join (c ∷ t) u = ground (arith, unjoin-join t u)

abbrev pub print_flag : FlagPayload → Text
print_flag p = (elim p.enabled as (λ _. ℕ) [ true ↦ 1 | false ↦ 0 ]) ∷ join p.value p.updated_at

abbrev pub payload_of : Bool → Text × Text → FlagPayload
payload_of b (t, u) = record { enabled = b; value = t; updated_at = u }

abbrev pub read_flag : Option Text → Option FlagPayload
read_flag none = none
read_flag (some (zero ∷ t)) = unjoin t >>= λ p. some (payload_of false p)
read_flag (some (suc _ ∷ t)) = unjoin t >>= λ p. some (payload_of true p)
read_flag (some []) = none

abbrev pub plain_codec : FlagCodec
plain_codec = record { marshal = λ p. some (print_flag p); unmarshal = read_flag }

pub read_flag-print_flag :
    (b : Bool) (t u : Text)
    → read_flag (some (print_flag (payload_of b (t, u)))) ≡ some (payload_of b (t, u))
read_flag-print_flag true t u = ground (arith, unjoin-join t u)
read_flag-print_flag false t u = ground (arith, unjoin-join t u)

pub plain_codec-reads :
    (p : FlagPayload) (t : Text)
    → plain_codec.marshal p ≡ some t
    → plain_codec.unmarshal (some t) ≡ some p
plain_codec-reads p t e = ground (arith, read_flag-print_flag p.enabled p.value p.updated_at)

abbrev pub plain_codec_lawful : IsLawful plain_codec
plain_codec_lawful = record { unmarshal-marshal = plain_codec-reads }
