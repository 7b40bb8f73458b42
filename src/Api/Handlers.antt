-- ===== src/Api/Handlers.antt =====
-- src/api.ts: handlers that go through several changes of the store. A change that was made before an
-- error is thrown stays.
use scheduleos.Base.{
  ◌≡◌, refl, sym, ap, ok-injective, Bool, true, false, Option, none, some, Result, ok, err,
}
use scheduleos.Repositories.{ApiStore, RepositoryError, Outcome}
use scheduleos.Api.{ApiError, repository_error, Response}

abbrev pub Handler {ℓ} : Type ℓ → Type ℓ
Handler A = ApiStore → Response A

abbrev pub continue {ℓ κ} : {A : Type ℓ} {B : Type κ} → Response A → (A → Handler B) → Response B
continue (ok value, store) next = next value store
continue (err thrown, store) next = (err thrown, store)

infixl 5 ◌>>=◌
abbrev pub ◌>>=◌ {ℓ κ} : {A : Type ℓ} {B : Type κ} → Handler A → (A → Handler B) → Handler B
handler >>= next = λ store. continue (handler store) next

infixl 5 ◌>>◌
abbrev pub ◌>>◌ {ℓ κ} : {A : Type ℓ} {B : Type κ} → Handler A → Handler B → Handler B
handler >> next = λ store. continue (handler store) (λ _. next)

abbrev pub return {ℓ} : {A : Type ℓ} → A → Handler A
return value store = (ok value, store)

-- `if (test) throw thrown`
abbrev pub throw_if : Bool → ApiError → Handler (Unit {0})
throw_if false thrown store = (ok tt, store)
throw_if true thrown store = (err thrown, store)

-- `if (!value) throw thrown`
abbrev pub required {ℓ} : {A : Type ℓ} → ApiError → Option A → Handler A
required thrown none store = (err thrown, store)
required thrown (some value) store = (ok value, store)

-- A check that reads no store, and throws or passes.
abbrev pub check {ℓ} : {A : Type ℓ} → Result ApiError A → Handler A
check result store = (result, store)

abbrev pub throw {ℓ} : {A : Type ℓ} → ApiError → Handler A
throw thrown store = (err thrown, store)

-- The store as it is.
abbrev pub look : Handler ApiStore
look store = (ok store, store)

-- An assignment to the store.
abbrev pub set : ApiStore → Handler (Unit {0})
set new store = (ok tt, new)

abbrev pub performed {ℓ} : {A : Type ℓ} → ApiStore → Outcome A → Response A
performed store (ok done) = (ok done.0, done.1)
performed store (err thrown) = (err (repository_error thrown), store)

-- An operation of a repository.
abbrev pub perform {ℓ} : {A : Type ℓ} → (ApiStore → Outcome A) → Handler A
perform operation store = performed store (operation store)

abbrev pub answered {ℓ} : {A : Type ℓ} → ApiStore → Result RepositoryError A → Response A
answered store (ok value) = (ok value, store)
answered store (err thrown) = (err (repository_error thrown), store)

-- A question to a repository.
abbrev pub query {ℓ} : {A : Type ℓ} → (ApiStore → Result RepositoryError A) → Handler A
query question store = answered store (question store)

-- What a handler that returns has gone through.
pub continue-ok {ℓ κ} :
    {A : Type ℓ} {B : Type κ} {b : B} {last : ApiStore} (response : Response A)
    (next : A → Handler B)
    → continue response next ≡ (ok b, last)
    → (a : A) × (middle : ApiStore) × (response ≡ (ok a, middle)) × (next a middle ≡ (ok b, last))
continue-ok (ok a, middle) next h = (a, middle, refl, h)
continue-ok (err thrown, middle) next h = cc

-- What each step shows where it returns.
pub throw_if-ok :
    (test : Bool) (e : ApiError) (store middle : ApiStore) {done : Unit {0}}
    → throw_if test e store ≡ (ok done, middle)
    → (test ≡ false) × (middle ≡ store)
throw_if-ok false e store middle h = (refl, sym (ap (λ (x : Response (Unit {0})). x.1) h))
throw_if-ok true e store middle h = cc

pub query-ok {ℓ} :
    {A : Type ℓ} (question : ApiStore → Result RepositoryError A) (store middle : ApiStore) {a : A}
    → query question store ≡ (ok a, middle)
    → (question store ≡ ok a) × (middle ≡ store)
query-ok {A = A} question store middle h = go (question store) h
  where
    go :
        (r : Result RepositoryError A) {a : A}
        → answered store r ≡ (ok a, middle)
        → (r ≡ ok a) × (middle ≡ store)
    go (ok x) h = (
      ap ok (ok-injective (ap (λ (x : Response A). x.0) h)),
      sym (ap (λ (x : Response A). x.1) h),
    )
    go (err e) h = cc

pub perform-ok {ℓ} :
    {A : Type ℓ} (operation : ApiStore → Outcome A) (store middle : ApiStore) {a : A}
    → perform operation store ≡ (ok a, middle)
    → operation store ≡ ok (a, middle)
perform-ok {A = A} operation store middle h = go (operation store) h
  where
    go : (r : Outcome A) {a : A} → performed store r ≡ (ok a, middle) → r ≡ ok (a, middle)
    go (ok (x, s)) h =
        let value = ok-injective (ap (λ (x : Response A). x.0) h) in
        let left = ap (λ (x : Response A). x.1) h in cc
    go (err e) h = cc

pub check-ok {ℓ} :
    {A : Type ℓ} (result : Result ApiError A) (store middle : ApiStore) {a : A}
    → check result store ≡ (ok a, middle)
    → (result ≡ ok a) × (middle ≡ store)
check-ok {A = A} result store middle h =
    (ap (λ (x : Response A). x.0) h, sym (ap (λ (x : Response A). x.1) h))

pub required-ok {ℓ} :
    {A : Type ℓ} (e : ApiError) (o : Option A) (store middle : ApiStore) {a : A}
    → required e o store ≡ (ok a, middle)
    → (o ≡ some a) × (middle ≡ store)
required-ok {A = A} e none store middle h = cc
required-ok {A = A} e (some x) store middle h =
    (ap some (ok-injective (ap (λ (x : Response A). x.0) h)), sym (ap (λ (x : Response A). x.1) h))
