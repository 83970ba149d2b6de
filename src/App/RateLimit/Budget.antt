-- ===== src/App/RateLimit/Budget.antt =====
-- The budget of one bucket.
use central_config_stream.Prelude.{
  ℕ, ◌+◌, ◌-◌, ◌*◌, ◌≤◌, ◌<◌, ◌≡◌, refl, true, false, List, [], ◌∷◌, if◌then◌else◌, arith,
}
use native.Mathlib.Nat.{mul-le-mul_right}
use native.Mathlib.Decide.{dec_le}
use central_config_stream.App.RateLimit.{
  Bucket, Verdict, capacity, elapsed, second, refill, charge, ceil_div,
}

-- A bucket never holds more than the burst.
refill-le : (p now : ℕ) (b : Bucket) → (refill p now b).tokens ≤ capacity p
unfolding refill
refill-le p now b = omega arith

-- what a verdict takes from the budget
abbrev pub spent : Verdict → ℕ → ℕ
spent v cost = if v.ok then cost else 0

elapsed-le : (p now last : ℕ) → elapsed now last * p ≤ (now - last) * p
elapsed-le p now last = mul_mono_right (elapsed now last) (now - last) p (omega arith)
  where
    mul_mono_right : (a b c : ℕ) → a ≤ b → a * c ≤ b * c
    mul_mono_right a b c h = grind arith

refill-grows : (p now : ℕ) (b : Bucket) → (refill p now b).tokens ≤ b.tokens + (now - b.last) * p
unfolding refill
refill-grows p now b = omega (arith, elapsed-le p now b.last)

-- what is spent is taken from the refilled bucket, and nothing else is
charge_conserves :
    (p now cost : ℕ) (b : Bucket)
    → spent (charge p now cost b).0 cost + (charge p now cost b).1.tokens ≡ (refill p now b).tokens
unfolding charge
charge_conserves p now cost b = ground arith

charge_last : (p now cost : ℕ) (b : Bucket) → (charge p now cost b).1.last ≡ now
unfolding charge refill
charge_last p now cost b = ground arith

-- A run of charges against one bucket, each a time and a cost; the first part is what was spent.
unfoldable pub charges : ℕ → Bucket → List (ℕ × ℕ) → ℕ × Bucket
charges p b [] = (0, b)
charges p b ((now, cost) ∷ cs) =
    let (v, b') = charge p now cost b in
    let (total, end) = charges p b' cs in (spent v cost + total, end)

-- the times do not go back
abbrev pub Ascending : ℕ → List (ℕ × ℕ) → Type 0
Ascending t [] = Unit
Ascending t ((now, cost) ∷ cs) = (t ≤ now) × Ascending now cs

abbrev pub end_time : ℕ → List (ℕ × ℕ) → ℕ
end_time t [] = t
end_time t ((now, cost) ∷ cs) = end_time now cs

le-end_time : (t : ℕ) (cs : List (ℕ × ℕ)) → Ascending t cs → t ≤ end_time t cs
le-end_time t [] h = omega arith
le-end_time t ((now, cost) ∷ cs) h = omega (arith, le-end_time now cs h.1)

split_time : (a b c p : ℕ) → a ≤ b → b ≤ c → (b - a) * p + (c - b) * p ≡ (c - a) * p
split_time a b c p h k = let e : c - a ≡ b - a + (c - b) = omega arith in rw e (grind arith)

charges-le :
    (p : ℕ) (b : Bucket) (cs : List (ℕ × ℕ))
    → Ascending b.last cs
    → (charges p b cs).0 ≤ b.tokens + (end_time b.last cs - b.last) * p
unfolding charges
charges-le p b [] h = omega arith
charges-le p b ((now, cost) ∷ cs) h =
    let b' = (charge p now cost b).1 in
    let last : b'.last ≡ now = charge_last p now cost b in
    let ih = charges-le p b' cs (rw last h.1) in
    let ih' : (charges p b' cs).0 ≤ b'.tokens + (end_time now cs - now) * p = rw last at ih in
    omega (
      arith,
      ih',
      charge_conserves p now cost b,
      refill-grows p now b,
      split_time b.last now (end_time now cs) p h.0 (le-end_time now cs h.1),
    )

-- Over any run of charges at times that do not go back, the writes that were allowed cost no more than
-- the burst and what the time between the bucket's last use and the last charge refills.
pub charges_budget :
    (p : ℕ) (b : Bucket) (cs : List (ℕ × ℕ))
    → b.tokens ≤ capacity p
    → Ascending b.last cs
    → (charges p b cs).0 ≤ capacity p + (end_time b.last cs - b.last) * p
charges_budget p b cs full h = omega (arith, charges-le p b cs h)

ceil_div-le : (a b : ℕ) → 0 < b → a ≤ ceil_div a b * b
ceil_div-le a b h = grind arith

refilled_by_waiting : (p x s e : ℕ) → x ≤ s * (p * second) → s * second ≤ e → x ≤ e * p
refilled_by_waiting p x s e h k = omega (arith, h, mul-le-mul_right {m = s * second} {n = e} p k)

elapsed-enough :
    (p x now later s : ℕ)
    → x ≤ capacity p
    → x ≤ s * (p * second)
    → now + s * second ≤ later
    → x ≤ elapsed later now * p
elapsed-enough p x now later s fits h waited = elim (dec_le (later - now) 9223372036854775807) [
  | yes short ↦
      let e : elapsed later now ≡ later - now = omega arith in
      rw e (refilled_by_waiting p x s (later - now) h (omega arith))
  | no long ↦ let e : elapsed later now ≡ 9223372036854775807 = omega arith in rw e (omega arith)
]

refused_state :
    (p now cost : ℕ) (b : Bucket)
    → (charge p now cost b).0.ok ≡ false
    → ((charge p now cost b).1 ≡ refill p now b)
      × ((refill p now b).tokens < cost)
      × ((charge p now cost b).0.retry_after
          ≡ ceil_div (cost - (refill p now b).tokens) (p * second))
unfolding charge
refused_state p now cost b h = ground arith

refill_last : (p now : ℕ) (b : Bucket) → (refill p now b).last ≡ now
unfolding refill
refill_last p now b = refl

allowed_if :
    (p now cost : ℕ) (b : Bucket)
    → cost ≤ (refill p now b).tokens
    → (charge p now cost b).0.ok ≡ true
unfolding charge
allowed_if p now cost b h = ground arith

refill-reaches :
    (p later cost : ℕ) (b : Bucket)
    → cost ≤ capacity p
    → cost ≤ b.tokens + elapsed later b.last * p
    → cost ≤ (refill p later b).tokens
unfolding refill
refill-reaches p later cost b fits h = omega arith

-- A caller that was refused and waits for the seconds it was told, without another write in between, is
-- allowed the same write, if its cost fits into the burst.
pub retry_after-enough :
    (p now later cost : ℕ) (b : Bucket)
    → 0 < p
    → cost ≤ capacity p
    → (charge p now cost b).0.ok ≡ false
    → now + (charge p now cost b).0.retry_after * second ≤ later
    → (charge p later cost (charge p now cost b).1).0.ok ≡ true
retry_after-enough p now later cost b pos fits refused waited =
    let (state, poor, retry) = refused_state p now cost b refused in
    let b' = refill p now b in
    let s = ceil_div (cost - b'.tokens) (p * second) in
    let enough : cost - b'.tokens ≤ elapsed later now * p =
      elapsed-enough p (cost - b'.tokens) now later s (omega arith)
        (ceil_div-le (cost - b'.tokens) (p * second) (omega arith)) (rw retry at waited) in
    rw state (
      allowed_if p later cost b'
        (refill-reaches p later cost b' fits (rw (refill_last p now b) (omega arith))))
