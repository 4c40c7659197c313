-- ===== src/Anomaly/Duration/Held.antt =====
-- The alarms that the map of a tracker holds.
use packages_modules_stats_d.Common.{
  Option, none, some, Bool, true, false, ◌&&◌, ◌||◌, not, [], ◌∷◌, Eq, ◌≡◌, arith, refl,
  Option-cases, inl, inr, if_both,
}
use packages_modules_stats_d.Common.Dict.{Dict, get, put, erase, get-put, get-erase}

module _ {A : Type 0} ⦃d : Eq A⦄ where
  -- Whether the alarm of a key is `x`.
  unfoldable pub at_key : Option A → A → Bool
  at_key none x = false
  at_key (some a) x = d.beq a x

module _ {K A : Type 0} ⦃e : Eq K⦄ ⦃d : Eq A⦄ where
  unfoldable pub holds : Dict K A → A → Bool
  holds [] x = false
  holds ((k, a) ∷ m) x = d.beq a x || holds m x

  -- Each key occurs once, and so does each alarm.
  unfoldable pub IsDistinct : Dict K A → Type 0
  IsDistinct [] = Unit
  IsDistinct ((k, a) ∷ m) = (holds m a ≡ false) × (get m k ≡ none) × IsDistinct m

  pub holds-at_key :
      (m : Dict K A) (k : K) (a x : A) → get m k ≡ some a → d.beq a x ≡ true → holds m x ≡ true
  unfolding get holds
  holds-at_key [] k a x h t = ground arith
  holds-at_key ((j, b) ∷ m) k a x h t = ground (arith, holds-at_key m k a x)

  pub holds-put :
      (m : Dict K A) (k : K) (v x : A)
      → IsDistinct m
      → holds (put m k v) x ≡ (d.beq v x || (holds m x && not (at_key (get m k) x)))
  unfolding get put holds at_key IsDistinct
  holds-put [] k v x h = ground arith
  holds-put ((j, b) ∷ m) k v x (new, fresh, h) = elim (Option-cases (get m k)) [
    | inl n ↦ ground (arith, holds-put m k v x h, e.beq_iff j k, d.beq_iff b x, d.beq_iff v x)
    | inr (c, n) ↦ ground (
      arith,
      holds-put m k v x h,
      e.beq_iff j k,
      d.beq_iff b x,
      d.beq_iff v x,
      d.beq_iff c x,
      holds-at_key m k c c n,
      d.beq_iff c c,
    )
  ]

  pub holds-erase :
      (m : Dict K A) (k : K) (x : A)
      → IsDistinct m
      → holds (erase m k) x ≡ (holds m x && not (at_key (get m k) x))
  unfolding get erase holds at_key IsDistinct
  holds-erase [] k x h = ground arith
  holds-erase ((j, b) ∷ m) k x (new, fresh, h) = elim (Option-cases (get m k)) [
    | inl n ↦ ground (arith, holds-erase m k x h, e.beq_iff j k, d.beq_iff b x)
    | inr (c, n) ↦ ground (
      arith,
      holds-erase m k x h,
      e.beq_iff j k,
      d.beq_iff b x,
      d.beq_iff c x,
      holds-at_key m k c c n,
      d.beq_iff c c,
    )
  ]

  pub IsDistinct-erase : (m : Dict K A) (k : K) → IsDistinct m → IsDistinct (erase m k)
  unfolding erase IsDistinct
  IsDistinct-erase [] k h = h
  IsDistinct-erase ((j, b) ∷ m) k (new, fresh, h) =
      if_both IsDistinct (e.beq j k) _ _ (λ t. IsDistinct-erase m k h)
        (λ t. (
          ground (arith, holds-erase m k b h),
          ground (arith, get-erase m k j, e.beq_iff k j, e.beq_iff j k),
          IsDistinct-erase m k h,
        ))

  pub IsDistinct-put :
      (m : Dict K A) (k : K) (v : A) → holds m v ≡ false → IsDistinct m → IsDistinct (put m k v)
  unfolding put IsDistinct holds get
  IsDistinct-put [] k v new h = (refl, refl, h)
  IsDistinct-put ((j, b) ∷ m) k v new (other, fresh, h) =
      if_both IsDistinct (e.beq j k) _ _ (λ t. (ground arith, ground (arith, e.beq_iff j k), h))
        (λ t. (
          ground (arith, holds-put m k v b h, d.beq_iff v b, d.beq_iff b v),
          ground (arith, get-put m k j v, e.beq_iff k j, e.beq_iff j k),
          IsDistinct-put m k v (ground arith) h,
        ))
