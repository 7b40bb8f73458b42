-- ===== src/Repositories/Tables.antt =====
-- The tables of src/repositories.ts: lists in which a new item takes the place of its like.
use scheduleos.Base.{
  ◌≡◌, refl, ◌∙◌, subst, Bool, true, false, not, List, [], ◌∷◌, ◌++◌, Option, none, some, Result,
  ok, err, All, filter, find, String, arith, inl, inr, Bool-cases,
}
use mathlib.Core.Option.{some-injective}
use scheduleos.Repositories.{RepositoryError, not_found}

module _ {ℓ} {A : Type ℓ} where
  -- `[...items.filter((existing) => !same(existing)), item]`
  abbrev pub put : (A → Bool) → A → List A → List A
  put same item items = filter (λ existing. not (same existing)) items ++ item ∷ []

  -- `if (!item) throw new RepositoryNotFoundError(message)`
  abbrev pub or_not_found : String → Option A → Result RepositoryError A
  or_not_found message none = err (not_found message)
  or_not_found message (some item) = ok item

  pub find-append :
      (p : A → Bool) (xs ys : List A) → find p xs ≡ none → find p (xs ++ ys) ≡ find p ys
  find-append p [] ys h = refl
  find-append p (x ∷ xs) ys h = ground (arith, find-append p xs ys)

  -- What is filtered out is not found.
  pub find-filter-none :
      (p q : A → Bool) (xs : List A)
      → ((x : A) → p x ≡ true → q x ≡ false)
      → find p (filter q xs) ≡ none
  find-filter-none p q [] f = refl
  find-filter-none p q (x ∷ xs) f =
      let rest = find-filter-none p q xs f in
      elim (Bool-cases (p x)) [
        | inl e ↦ rw (f x e) rest
        | inr e ↦ elim (Bool-cases (q x)) [ inl k ↦ rw (k, e) rest | inr k ↦ rw k rest ]
      ]

  -- What is kept is found as before.
  pub find-filter_kept :
      (p q : A → Bool) (xs : List A)
      → ((x : A) → p x ≡ true → q x ≡ true)
      → find p (filter q xs) ≡ find p xs
  find-filter_kept p q [] f = refl
  find-filter_kept p q (x ∷ xs) f =
      let rest = find-filter_kept p q xs f in
      elim (Bool-cases (p x)) [
        | inl e ↦ rw (f x e, e) refl
        | inr e ↦ elim (Bool-cases (q x)) [ inl k ↦ rw (k, e) rest | inr k ↦ rw (k, e) rest ]
      ]

  find-snoc_other :
      (p : A → Bool) (item : A) (xs : List A)
      → p item ≡ false
      → find p (xs ++ item ∷ []) ≡ find p xs
  find-snoc_other p item [] h = rw h refl
  find-snoc_other p item (x ∷ xs) h = rw (find-snoc_other p item xs h) refl

  -- A `put` item is found by what it satisfies and its likes alone satisfy.
  pub find-put :
      (p same : A → Bool) (item : A) (items : List A)
      → p item ≡ true
      → ((x : A) → p x ≡ true → same x ≡ true)
      → find p (put same item items) ≡ some item
  find-put p same item items h f =
      let gone =
        find-filter-none p (λ existing. not (same existing)) items (λ x e. rw (f x e) refl) in
      find-append p (filter (λ existing. not (same existing)) items) (item ∷ []) gone ∙ (rw h refl)

  -- What none of the likes satisfies, nor the item, is found as before.
  pub find-put_other :
      (p same : A → Bool) (item : A) (items : List A)
      → p item ≡ false
      → ((x : A) → p x ≡ true → same x ≡ false)
      → find p (put same item items) ≡ find p items
  find-put_other p same item items h f =
      find-snoc_other p item (filter (λ existing. not (same existing)) items) h
      ∙ find-filter_kept p (λ existing. not (same existing)) items (λ x e. rw (f x e) refl)

  find-filter_own :
      (p same : A → Bool) (items : List A)
      → All (λ x. p x ≡ true → same x ≡ true) items
      → find p (filter (λ existing. not (same existing)) items) ≡ none
  find-filter_own p same [] h = refl
  find-filter_own p same (x ∷ xs) h =
      let rest = find-filter_own p same xs h.1 in
      elim (Bool-cases (p x)) [
        | inl e ↦ rw (h.0 e) rest
        | inr e ↦ elim (Bool-cases (same x)) [ inl k ↦ rw k rest | inr k ↦ rw (k, e) rest ]
      ]

  -- The same where only the items of the table that satisfy it are known to be its likes.
  pub find-put_own :
      (p same : A → Bool) (item : A) (items : List A)
      → p item ≡ true
      → All (λ x. p x ≡ true → same x ≡ true) items
      → find p (put same item items) ≡ some item
  find-put_own p same item items h f =
      find-append p (filter (λ existing. not (same existing)) items) (item ∷ [])
        (find-filter_own p same items f)
      ∙ (rw h refl)

  pub find-holds : (p : A → Bool) (xs : List A) {x : A} → find p xs ≡ some x → p x ≡ true
  find-holds p [] h = cc
  find-holds p (y ∷ ys) h = elim (Bool-cases (p y)) [
    | inl e ↦ subst (λ z. p z ≡ true) (some-injective y _ (rw e at h)) e
    | inr e ↦ find-holds p ys (rw e at h)
  ]
