-- ===== src/Ip/Cache/Dict.antt =====
-- The dictionaries of tipy/components/ip_cache.py: what is read behind what is written.
use tipy.Common.{
  ℕ, ◌<◌, ◌≡◌, sym, ap, ◌∙◌, ◌⊎◌, inl, inr, true, false, Option, none, some, Bool-cases,
  if◌then◌else◌, ◌==◌, arith,
}
use tipy.Ip.Cache.{BufferId, same, put, put_task}

pub same_refl : (b : BufferId) → same b b ≡ true
unfolding same
same_refl b = ground arith

pub same-≡ : (a b : BufferId) → same a b ≡ true → a ≡ b
unfolding same
same-≡ a b e =
    let p : a.src ≡ b.src = ground arith in
    let q : a.dst ≡ b.dst = ground arith in
    let r : a.id ≡ b.id = ground arith in
    let s : a.protocol ≡ b.protocol = ground arith in
    λ i. record { src = p i; dst = q i; id = r i; protocol = s i }

module _ {A : Type 0} where
  pub put-here : (d : BufferId → Option A) (b : BufferId) (v : Option A) → put d b v b ≡ v
  unfolding put
  put-here d b v = ap (λ t. if t then v else d b) (same_refl b)

  pub put-other :
      (d : BufferId → Option A) (b k : BufferId) (v : Option A)
      → same b k ≡ false
      → put d b v k ≡ d k
  unfolding put
  put-other d b k v e = ap (λ t. if t then v else d k) e

  pub put_task-here : (d : ℕ → Option A) (n : ℕ) (v : Option A) → put_task d n v n ≡ v
  unfolding put_task
  put_task-here d n v = ground arith

  pub put_task-other :
      (d : ℕ → Option A) (n k : ℕ) (v : Option A) → (n == k) ≡ false → put_task d n v k ≡ d k
  unfolding put_task
  put_task-other d n k v e = ap (λ t. if t then v else d k) e

  pub put-inverse :
      (d : BufferId → Option A) (b k : BufferId) (v : Option A) (x : A)
      → put d b v k ≡ some x
      → ((b ≡ k) × (v ≡ some x)) ⊎ ((same b k ≡ false) × (d k ≡ some x))
  put-inverse d b k v x h = elim (Bool-cases (same b k)) [
    | inl e ↦ inl (same-≡ b k e, sym (ap (put d b v) (sym (same-≡ b k e)) ∙ put-here d b v) ∙ h)
    | inr e ↦ inr (e, sym (put-other d b k v e) ∙ h)
  ]

  pub put_task-inverse :
      (d : ℕ → Option A) (n k : ℕ) (v : Option A) (x : A)
      → put_task d n v k ≡ some x
      → ((n ≡ k) × (v ≡ some x)) ⊎ (((n == k) ≡ false) × (d k ≡ some x))
  put_task-inverse d n k v x h = elim (Bool-cases (n == k)) [
    | inl e ↦
        inl (known n k e, sym (ap (put_task d n v) (sym (known n k e)) ∙ put_task-here d n v) ∙ h)
    | inr e ↦ inr (e, sym (put_task-other d n k v e) ∙ h)
  ]
    where
      known : (n k : ℕ) → (n == k) ≡ true → n ≡ k
      known n k e = ground arith

  pub some-injective : (x y : A) → some x ≡ some y → x ≡ y
  some-injective x y e = ap (known x) e
    where
      known : A → Option A → A
      known d none = d
      known d (some z) = z

pub less-apart : (n k : ℕ) → k < n → (n == k) ≡ false
less-apart n k h = ground arith
