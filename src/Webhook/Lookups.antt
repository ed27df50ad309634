-- ===== src/Webhook/Lookups.antt =====
-- What a lookup by the key of the elements of a list finds.
use cluster_api_provider_clo.Base.{
  IsIn, ℕ, String, ◌≡◌, ◌≢◌, refl, sym, ap, ◌∙◌, ◌⊎◌, inl, inr, Bool, true, false, Option, none,
  some, List, [], ◌∷◌, suc, arith, ◌==◌, eq_iff, eq_refl, subst, All,
}
use cluster_api_provider_clo.Errors.{or_else}
use cluster_api_provider_clo.Webhook.Field.{hit, find_last}

-- No two elements have the same key.
abbrev pub Distinct {ℓ} : {A : Type ℓ} → (A → String) → List A → Type ℓ
Distinct key [] = Unit
Distinct key (x ∷ xs) = All (λ y. key y ≢ key x) xs × Distinct key xs

some-injective : {A : Type 0} (a b : A) → some a ≡ some b → a ≡ b
some-injective a b h = cc

differs : (s t : String) → s ≢ t → (s == t) ≡ false
differs s t n = ground (arith, eq_iff s t)

module _ {A : Type 0} where
  or_else-some :
      (x : A × ℕ) (o p : Option (A × ℕ)) → or_else o p ≡ some x → (o ≡ some x) ⊎ (p ≡ some x)
  or_else-some x none p h = inr h
  or_else-some x (some a) p h = inl h

  hit-some :
      (b : Bool) (y : A) (i : ℕ) (x : A) (j : ℕ) → hit b y i ≡ some (x, j) → (b ≡ true) × (x ≡ y)
  hit-some true y i x j h = (refl, ap (λ (p : A × ℕ). p.0) (sym (some-injective (y, i) (x, j) h)))
  hit-some false y i x j h = cc

module _ {A : Type 0} (key : A → String) where
  -- What the lookup finds is in the list, under the key.
  pub find_last-IsIn :
      (k : String) (i : ℕ) (xs : List A) (x : A) (j : ℕ)
      → find_last key k i xs ≡ some (x, j)
      → IsIn x xs × (key x ≡ k)
  unfolding find_last
  find_last-IsIn k i [] x j h = cc
  find_last-IsIn k i (y ∷ ys) x j h =
      elim (or_else-some (x, j) (find_last key k (suc i) ys) (hit (key y == k) y i) h) [
        | inl e ↦ let later = find_last-IsIn k (suc i) ys x j e in (inr later.0, later.1)
        | inr e ↦
            let here = hit-some (key y == k) y i x j e in
            (inl here.1, ap key here.1 ∙ (eq_iff (key y) k).0 here.0)
      ]

  -- A key that no element has is not found.
  pub find_last-none :
      (k : String) (i : ℕ) (xs : List A) → All (λ x. key x ≢ k) xs → find_last key k i xs ≡ none
  unfolding find_last
  find_last-none k i [] h = refl
  find_last-none k i (y ∷ ys) h = rw (find_last-none k (suc i) ys h.1, differs (key y) k h.0) refl

  -- Where the keys are distinct, an element is found under its own key.
  pub find_last-own :
      (i : ℕ) (xs : List A) (x : A)
      → Distinct key xs
      → IsIn x xs
      → (j : ℕ) × (find_last key (key x) i xs ≡ some (x, j))
  unfolding find_last
  find_last-own i [] x d k = absurd k
  find_last-own i (y ∷ ys) x d (inl e) = (
    i,
    subst (λ z. find_last key (key z) i (y ∷ ys) ≡ some (z, i)) (sym e)
        (rw (find_last-none (key y) (suc i) ys d.0, eq_refl (key y)) refl),
  )
  find_last-own i (y ∷ ys) x d (inr k) =
      let later = find_last-own (suc i) ys x d.1 k in (later.0, rw later.1 refl)
