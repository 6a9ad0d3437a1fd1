-- ===== src/Base/Search.antt =====
-- Tests and predicates that hold somewhere in a list.
use mathlib.Core.Path.{◌≡◌, refl}
use mathlib.Core.Logic.{◌⊎◌, inl, inr}
use mathlib.Core.Bool.{Bool, true, false, ◌||◌}
use mathlib.Core.List.{List, [], ◌∷◌, map}
use zencan.Base.Lists.{All}
use zencan.Base.Tests.{Bool-cases}

module _ {ℓ} {A : Type ℓ} where
  abbrev pub any : (A → Bool) → List A → Bool
  any test [] = false
  any test (x ∷ xs) = test x || any test xs

  abbrev pub Any : (A → Type 0) → List A → Type 0
  Any P [] = ⊥
  Any P (x ∷ xs) = P x ⊎ Any P xs

  -- A test that holds somewhere holds at an element with what all elements have.
  pub any-Any :
      (test : A → Bool) (P : A → Type 0) (Q : A → Type 0) (xs : List A)
      → ((x : A) → P x → test x ≡ true → Q x)
      → All P xs
      → any test xs ≡ true
      → Any Q xs
  any-Any test P Q [] use_at all h = cc
  any-Any test P Q (x ∷ xs) use_at all h = elim (Bool-cases (test x)) [
    | inl here ↦ inl (use_at x all.0 here)
    | inr not_here ↦ inr (any-Any test P Q xs use_at all.1 (rw not_here at h))
  ]

  -- Where a test fails everywhere, it fails at the element with a property.
  pub Any-map_fail :
      (test : A → Bool) (P : A → Type 0) (Q : A → Type 0) (R : A → Type 0) (xs : List A)
      → ((x : A) → P x → Q x → test x ≡ false → R x)
      → All P xs
      → any test xs ≡ false
      → Any Q xs
      → Any R xs
  Any-map_fail test P Q R [] use_at all h some_x = some_x
  Any-map_fail test P Q R (x ∷ xs) use_at all h some_x = elim (Bool-cases (test x)) [
    | inl here ↦ absurd (cc (rw here at h))
    | inr not_here ↦ elim some_x [
      | inl q ↦ inl (use_at x all.0 q not_here)
      | inr q ↦ inr (Any-map_fail test P Q R xs use_at all.1 (rw not_here at h) q)
    ]
  ]

  -- An element with a property passes the test, so the test holds somewhere.
  pub any_of_Any :
      (test : A → Bool) (P : A → Type 0) (Q : A → Type 0) (xs : List A)
      → ((x : A) → P x → Q x → test x ≡ true)
      → All P xs
      → Any Q xs
      → any test xs ≡ true
  any_of_Any test P Q [] passes all q = absurd q
  any_of_Any test P Q (x ∷ xs) passes all (inl q) = rw (passes x all.0 q) refl
  any_of_Any test P Q (x ∷ xs) passes all (inr q) = elim (Bool-cases (test x)) [
    | inl here ↦ rw here refl
    | inr not_here ↦ rw not_here (any_of_Any test P Q xs passes all.1 q)
  ]

  pub any_none :
      (test : A → Bool) (P : A → Type 0) (xs : List A)
      → ((x : A) → P x → test x ≡ false)
      → All P xs
      → any test xs ≡ false
  any_none test P [] fails all = refl
  any_none test P (x ∷ xs) fails all = rw (fails x all.0) (any_none test P xs fails all.1)

  pub map-All :
      (f : A → A) (P : A → Type 0) (Q : A → Type 0) (xs : List A)
      → ((x : A) → P x → Q (f x))
      → All P xs
      → All Q (map f xs)
  map-All f P Q [] step all = tt
  map-All f P Q (x ∷ xs) step all = (step x all.0, map-All f P Q xs step all.1)

  pub map-Any :
      (f : A → A) (P : A → Type 0) (Q : A → Type 0) (R : A → Type 0) (xs : List A)
      → ((x : A) → P x → Q x → R (f x))
      → All P xs
      → Any Q xs
      → Any R (map f xs)
  map-Any f P Q R [] step all q = absurd q
  map-Any f P Q R (x ∷ xs) step all (inl q) = inl (step x all.0 q)
  map-Any f P Q R (x ∷ xs) step all (inr q) = inr (map-Any f P Q R xs step all.1 q)

  pub map_fixed :
      (f : A → A) (P : A → Type 0) (xs : List A)
      → ((x : A) → P x → f x ≡ x)
      → All P xs
      → map f xs ≡ xs
  map_fixed f P [] fixed all = refl
  map_fixed f P (x ∷ xs) fixed all = rw (fixed x all.0, map_fixed f P xs fixed all.1) refl

  pub All-imp : (P Q : A → Type 0) (xs : List A) → ((x : A) → P x → Q x) → All P xs → All Q xs
  All-imp P Q [] imp all = tt
  All-imp P Q (x ∷ xs) imp all = (imp x all.0, All-imp P Q xs imp all.1)

  pub Any-elim :
      (P Q : A → Type 0) {C : Type 0} (xs : List A)
      → ((x : A) → P x → Q x → C)
      → All P xs
      → Any Q xs
      → C
  Any-elim P Q [] use_at all q = absurd q
  Any-elim P Q (x ∷ xs) use_at all (inl q) = use_at x all.0 q
  Any-elim P Q (x ∷ xs) use_at all (inr q) = Any-elim P Q xs use_at all.1 q

  pub Any-imp : (P Q : A → Type 0) (xs : List A) → ((x : A) → P x → Q x) → Any P xs → Any Q xs
  Any-imp P Q [] imp q = q
  Any-imp P Q (x ∷ xs) imp (inl q) = inl (imp x q)
  Any-imp P Q (x ∷ xs) imp (inr q) = inr (Any-imp P Q xs imp q)
