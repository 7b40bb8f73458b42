-- ===== src/Base/Sort.antt =====
-- `Array.prototype.sort`, which is stable: a comparator gives the sign of its number.
use Prim.Native.Nat.{Ordering}
use mathlib.Core.List.Permᴰ
use mathlib.Core.List.{List, [], ◌∷◌, ◌++◌, Permᴰ}
use mathlib.Core.Path.{◌≡◌, refl, subst}
use mathlib.Core.Logic.{inl, inr}
use mathlib.Core.Bool.{Bool, true, false}
use scheduleos.Base.Tests.{if◌then◌else◌, Bool-cases}
use scheduleos.Base.Results.{Result, ok, ◌>>=◌, >>=-eq-ok, ok-injective}
use scheduleos.Base.Lists.{All, All-imp, All-append}

-- The number that a comparator returned is positive.
abbrev pub is_gt : Ordering → Bool
is_gt Ordering.gt = true
is_gt _ = false

module _ {ℓ} {A : Type ℓ} where
  unfoldable pub insert_by : (A → A → Ordering) → A → List A → List A
  insert_by cmp x [] = x ∷ []
  insert_by cmp x (y ∷ ys) = if is_gt (cmp x y) then y ∷ insert_by cmp x ys else x ∷ y ∷ ys

  unfoldable pub sort_by : (A → A → Ordering) → List A → List A
  unfolding insert_by
  sort_by cmp [] = []
  sort_by cmp (x ∷ xs) = insert_by cmp x (sort_by cmp xs)

  pub All-insert_by {κ} :
      (P : A → Type κ) (cmp : A → A → Ordering) (x : A) (ys : List A)
      → P x
      → All P ys
      → All P (insert_by cmp x ys)
  unfolding insert_by
  All-insert_by P cmp x [] h k = (h, tt)
  All-insert_by P cmp x (y ∷ ys) h k = elim (Bool-cases (is_gt (cmp x y))) [
    | inl e ↦ rw e (k.0, All-insert_by P cmp x ys h k.1)
    | inr e ↦ rw e (h, k)
  ]

  -- What holds of every element holds of every element after sorting.
  pub All-sort_by {κ} :
      (P : A → Type κ) (cmp : A → A → Ordering) (xs : List A) → All P xs → All P (sort_by cmp xs)
  unfolding sort_by
  All-sort_by P cmp [] h = tt
  All-sort_by P cmp (x ∷ xs) h =
      All-insert_by P cmp x (sort_by cmp xs) h.0 (All-sort_by P cmp xs h.1)

  All-of_insert_by {κ} :
      (P : A → Type κ) (cmp : A → A → Ordering) (x : A) (ys : List A)
      → All P (insert_by cmp x ys)
      → All P (x ∷ ys)
  unfolding insert_by
  All-of_insert_by P cmp x [] h = h
  All-of_insert_by P cmp x (y ∷ ys) h = elim (Bool-cases (is_gt (cmp x y))) [
    | inl e ↦
        let h' : All P (y ∷ insert_by cmp x ys) = rw e at h in
        let k = All-of_insert_by P cmp x ys h'.1 in (k.0, (h'.0, k.1))
    | inr e ↦ rw e at h
  ]

  -- What holds of every element after sorting held of every element before.
  pub All-of_sort_by {κ} :
      (P : A → Type κ) (cmp : A → A → Ordering) (xs : List A) → All P (sort_by cmp xs) → All P xs
  unfolding sort_by
  All-of_sort_by P cmp [] h = tt
  All-of_sort_by P cmp (x ∷ xs) h =
      let k = All-of_insert_by P cmp x (sort_by cmp xs) h in (k.0, All-of_sort_by P cmp xs k.1)

  -- Each element is related to those behind it.
  abbrev pub Pairwise : (A → A → Type 0) → List A → Type 0
  Pairwise R [] = Unit
  Pairwise R (x ∷ xs) = All (R x) xs × Pairwise R xs

  -- Two lists are pairwise related if each is, and each of one to each of the other.
  pub Pairwise-append :
      (R : A → A → Type 0) (xs ys : List A)
      → Pairwise R xs
      → Pairwise R ys
      → All (λ x. All (R x) ys) xs
      → Pairwise R (xs ++ ys)
  Pairwise-append R [] ys h k m = k
  Pairwise-append R (x ∷ xs) ys h k m =
      (All-append (R x) xs ys h.0 m.0, Pairwise-append R xs ys h.1 k m.1)

-- A comparator that decides an order.
pub record Decides {ℓ} {A : Type ℓ} (cmp : A → A → Ordering) (R : A → A → Type 0) : Type ℓ where
  pub trans : (a b c : A) → R a b → R b c → R a c
  pub before : (a b : A) → is_gt (cmp a b) ≡ false → R a b
  pub behind : (a b : A) → is_gt (cmp a b) ≡ true → R b a

module _ {ℓ} {A : Type ℓ} {cmp : A → A → Ordering} {R : A → A → Type 0} (d : Decides cmp R) where
  insert_by-Pairwise : (x : A) (ys : List A) → Pairwise R ys → Pairwise R (insert_by cmp x ys)
  unfolding insert_by
  insert_by-Pairwise x [] h = (tt, tt)
  insert_by-Pairwise x (y ∷ ys) h = elim (Bool-cases (is_gt (cmp x y))) [
    | inl e ↦ rw e (All-insert_by (R y) cmp x ys (d.behind x y e) h.0, insert_by-Pairwise x ys h.1)
    | inr e ↦ rw e (go e, h)
  ]
    where
      go : is_gt (cmp x y) ≡ false → All (R x) (y ∷ ys)
      go p =
          let xy = d.before x y p in (xy, All-imp (R y) (R x) ys (λ z yz. d.trans x y z xy yz) h.0)

  -- Sorting puts a list in order.
  pub sort_by-Pairwise : (xs : List A) → Pairwise R (sort_by cmp xs)
  unfolding sort_by
  sort_by-Pairwise [] = tt
  sort_by-Pairwise (x ∷ xs) = insert_by-Pairwise x (sort_by cmp xs) (sort_by-Pairwise xs)

-- What holds of every element holds of every element in another order.
pub All-perm {ℓ κ} :
    {A : Type ℓ} (P : A → Type κ) {xs ys : List A} → Permᴰ xs ys → All P xs → All P ys
All-perm P Permᴰ.nil h = tt
All-perm P (Permᴰ.cons e p) h = (subst P e h.0, All-perm P p h.1)
All-perm P (Permᴰ.swap e f) h = (subst P f h.1.0, (subst P e h.0, h.1.1))
All-perm P (Permᴰ.trans p q) h = All-perm P q (All-perm P p h)

-- Sorting by a comparator that may throw. The engine chooses the pairs that it compares, so of two
-- comparisons that throw it is open which one is met: here it is the first of an insertion sort.
module _ {ℓ κ} {E : Type κ} {A : Type ℓ} (cmp : A → A → Result E Ordering) where
  insert_by_throwing : A → List A → Result E (List A)
  insert_by_throwing x [] = ok (x ∷ [])
  insert_by_throwing x (y ∷ ys) = do
    order ← cmp x y
    let behind = (do rest ← insert_by_throwing x ys; ok (y ∷ rest))
    if is_gt order then behind else ok (x ∷ y ∷ ys)

  unfoldable pub sort_by_throwing : List A → Result E (List A)
  unfolding insert_by_throwing
  sort_by_throwing [] = ok []
  sort_by_throwing (x ∷ xs) = do sorted ← sort_by_throwing xs; insert_by_throwing x sorted

  insert_by_throwing-perm :
      (x : A) (ys : List A) {zs : List A} → insert_by_throwing x ys ≡ ok zs → Permᴰ (x ∷ ys) zs
  unfolding insert_by_throwing
  insert_by_throwing-perm x [] e = subst (Permᴰ (x ∷ [])) (ok-injective e) (Permᴰ.refl _)
  insert_by_throwing-perm x (y ∷ ys) e =
      let (order, compared, e₁) = >>=-eq-ok (cmp x y) _ e in
      elim (Bool-cases (is_gt order)) [
        | inr stays ↦ subst (Permᴰ (x ∷ y ∷ ys)) (ok-injective (rw stays at e₁)) (Permᴰ.refl _)
        | inl moves ↦
            let (rest, inserted, e₂) =
              >>=-eq-ok (insert_by_throwing x ys) (λ rest. ok (y ∷ rest)) (rw moves at e₁) in
            subst (Permᴰ (x ∷ y ∷ ys)) (ok-injective e₂) (
              Permᴰ.trans (Permᴰ.swap refl refl)
                (Permᴰ.cons refl (insert_by_throwing-perm x ys inserted)))
      ]

  -- A sorted list is the given one in another order.
  pub sort_by_throwing-perm :
      (xs : List A) {ys : List A} → sort_by_throwing xs ≡ ok ys → Permᴰ xs ys
  unfolding sort_by_throwing
  sort_by_throwing-perm [] e = subst (Permᴰ []) (ok-injective e) (Permᴰ.refl _)
  sort_by_throwing-perm (x ∷ xs) e =
      let (sorted, e₁, e₂) = >>=-eq-ok (sort_by_throwing xs) (insert_by_throwing x) e in
      Permᴰ.trans (Permᴰ.cons refl (sort_by_throwing-perm xs e₁))
        (insert_by_throwing-perm x sorted e₂)

module _ {ℓ κ} {E : Type κ} {A : Type ℓ} (cmp : A → A → Result E Ordering) (P : A → Type 0)
    (returns : (a b : A) → P a → P b → (o : Ordering) × (cmp a b ≡ ok o)) where
  insert_by_throwing_total :
      (x : A) (ys : List A) → P x → All P ys → (zs : List A) × (insert_by_throwing cmp x ys ≡ ok zs)
  unfolding insert_by_throwing
  insert_by_throwing_total x [] h k = (x ∷ [], refl)
  insert_by_throwing_total x (y ∷ ys) h k =
      let (o, compared) = returns x y h k.0 in
      let (rest, inserted) = insert_by_throwing_total x ys h k.1 in
      elim (Bool-cases (is_gt o)) [
        | inl e ↦ (y ∷ rest, rw (compared, e, inserted))
        | inr e ↦ (x ∷ y ∷ ys, rw (compared, e))
      ]

  -- Where the comparator never throws, neither does the sort.
  pub sort_by_throwing_total :
      (xs : List A) → All P xs → (ys : List A) × (sort_by_throwing cmp xs ≡ ok ys)
  unfolding sort_by_throwing
  sort_by_throwing_total [] h = ([], refl)
  sort_by_throwing_total (x ∷ xs) h =
      let (ys, sorted) = sort_by_throwing_total xs h.1 in
      let (zs, inserted) =
        insert_by_throwing_total x ys h.0 (All-perm P (sort_by_throwing-perm cmp xs sorted) h.1) in
      (zs, rw sorted inserted)
