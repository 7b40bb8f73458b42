-- ===== src/Base/Results.antt =====
-- Code that may throw returns a `Result`: a value, or the error that was thrown.
use mathlib.Core.Path.{◌≡◌, refl, sym, subst, ◌∙◌}
use mathlib.Core.List.{List, [], ◌∷◌}
use scheduleos.Base.Lists.{All}

pub data Result {ℓ κ} (E : Type ℓ) (A : Type κ) : Type (ℓ ⊔ κ) where
  ok : A → Result E A
  err : E → Result E A

infixl 5 ◌>>=◌
-- What follows a call that may throw: an error skips it.
abbrev pub ◌>>=◌ {ℓ κ μ} :
    {E : Type ℓ} {A : Type κ} {B : Type μ} → Result E A → (A → Result E B) → Result E B
err thrown >>= next = err thrown
ok value >>= next = next value

-- `xs.map(f)` where `f` may throw.
abbrev pub traverse {ℓ κ μ} :
    {E : Type ℓ} {A : Type κ} {B : Type μ} → (A → Result E B) → List A → Result E (List B)
traverse f [] = ok []
traverse f (x ∷ xs) = do y ← f x; ys ← traverse f xs; ok (y ∷ ys)

-- What a bind that returns has computed on the way.
pub >>=-eq-ok {ℓ κ μ} :
    {E : Type ℓ} {A : Type κ} {B : Type μ} {result : B} (call : Result E A) (next : A → Result E B)
    → (call >>= next) ≡ ok result
    → (value : A) × (call ≡ ok value) × (next value ≡ ok result)
>>=-eq-ok (err thrown) next returned = cc
>>=-eq-ok (ok value) next returned = (value, refl, returned)

pub ok-injective {ℓ κ} :
    {E : Type ℓ} {A : Type κ} {a b : A} → ◌≡◌ {A = Result E A} (ok a) (ok b) → a ≡ b
ok-injective h = cc

-- What holds of every result of a traversal holds of what each element gave.
pub traverse-All {ℓ κ} :
    {E : Type ℓ} {A : Type κ} {B : Type κ} (f : A → Result E B) (P : B → Type 0) (xs : List A)
    {ys : List B}
    → traverse f xs ≡ ok ys
    → All P ys
    → All (λ x. (y : B) → f x ≡ ok y → P y) xs
traverse-All f P [] e h = tt
traverse-All f P (x ∷ xs) e h =
    let (y, fx, e₁) = >>=-eq-ok (f x) _ e in
    let (ys', rest, e₂) = >>=-eq-ok (traverse f xs) (λ ys. ok (y ∷ ys)) e₁ in
    let h' : All P (y ∷ ys') = subst (All P) (sym (ok-injective e₂)) h in
    (λ z fz. subst P (ok-injective (sym fx ∙ fz)) h'.0, traverse-All f P xs rest h'.1)
