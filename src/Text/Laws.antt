-- ===== src/Text/Laws.antt =====
-- Laws of cutting and trimming, for the keys that are built with separators.
use central_config_stream.Prelude.{
  ℕ, ◌≡◌, refl, ◌≢◌, some, [], ◌∷◌, ◌++◌, arith, All, ap, Bool, true, false, Bool-cases, inl, inr,
}
use central_config_stream.Text.{
  Text, cut_prefix, trim_prefix, cut, split_n, split, trim_left, trim_right, trim_space, is_space,
}

cut_prefix-append : (p s : Text) → cut_prefix p (p ++ s) ≡ some s
unfolding cut_prefix
cut_prefix-append [] s = refl
cut_prefix-append (c ∷ p) s = ground (arith, cut_prefix-append p s)

pub trim_prefix-append : (p s : Text) → trim_prefix p (p ++ s) ≡ s
unfolding trim_prefix
trim_prefix-append p s = ground (arith, cut_prefix-append p s)

-- A text without the separator `c`.
abbrev pub Lacks : ℕ → Text → Type 0
Lacks c s = All (λ d. d ≢ c) s

pub cut-append : (c : ℕ) (a b : Text) → Lacks c a → cut c (a ++ c ∷ b) ≡ some (a, b)
unfolding cut
cut-append c [] b h = ground arith
cut-append c (d ∷ a) b h = ground (arith, cut-append c a b h.1)

pub split_n-append : (c : ℕ) (a b : Text) → Lacks c a → split_n 2 c (a ++ c ∷ b) ≡ a ∷ b ∷ []
unfolding split_n
split_n-append c a b h = ground (arith, cut-append c a b h)

-- The two sides of the first separator are determined by the whole.
pub append-injective :
    (c : ℕ) (a b a' b' : Text)
    → Lacks c a
    → Lacks c a'
    → a ++ c ∷ b ≡ a' ++ c ∷ b'
    → (a ≡ a') × (b ≡ b')
append-injective c a b a' b' h h' e =
    ground (arith, ap (cut c) e, cut-append c a b h, cut-append c a' b' h')

trim_right-nil : (p : ℕ → Bool) (c : ℕ) (s : Text) → trim_right p (c ∷ s) ≡ [] → p c ≡ true
unfolding trim_right
trim_right-nil p c s h = ground arith

trim_left-cons : (p : ℕ → Bool) (s : Text) (c : ℕ) (r : Text) → trim_left p s ≡ c ∷ r → p c ≡ false
unfolding trim_left
trim_left-cons p [] c r h = cc
trim_left-cons p (d ∷ s) c r h = elim (Bool-cases (p d)) [
  | inl e ↦ trim_left-cons p s c r (ground arith)
  | inr e ↦ ground arith
]

trim_left-nil : (p : ℕ → Bool) (s : Text) → trim_left p s ≡ [] → All (λ c. p c ≡ true) s
unfolding trim_left
trim_left-nil p [] h = tt
trim_left-nil p (d ∷ s) h = elim (Bool-cases (p d)) [
  | inl e ↦ (e, trim_left-nil p s (ground arith))
  | inr e ↦ ground arith
]

-- A text that trims to nothing is all space.
pub trim_space-nil : (s : Text) → trim_space s ≡ [] → All (λ c. is_space c ≡ true) s
unfolding trim_space
trim_space-nil s h = go (trim_left is_space s) refl h
  where
    go :
        (t : Text)
        → trim_left is_space s ≡ t
        → trim_right is_space t ≡ []
        → All (λ c. is_space c ≡ true) s
    go [] e h = trim_left-nil is_space s e
    go (c ∷ r) e h = cc (trim_left-cons is_space s c r e, trim_right-nil is_space c r h)

pub split-Lacks : (c : ℕ) (s : Text) → Lacks c s → split c s ≡ s ∷ []
unfolding split
split-Lacks c [] h = refl
split-Lacks c (d ∷ s) h = ground (arith, split-Lacks c s h.1)

spaces-Lack_comma : (s : Text) → All (λ c. is_space c ≡ true) s → Lacks b',' s
unfolding is_space
spaces-Lack_comma [] h = tt
spaces-Lack_comma (c ∷ s) h = (λ e. ground arith, spaces-Lack_comma s h.1)

pub blank-split : (s : Text) → trim_space s ≡ [] → split b',' s ≡ s ∷ []
blank-split s h = split-Lacks b',' s (spaces-Lack_comma s (trim_space-nil s h))
