-- ===== src/Base/Search.antt =====
-- Where `position` and `rposition` find their element.
use Prim.Native.Nat.{ℕ, suc, ◌+◌, ◌<◌}
use mathlib.Core.Path.{◌≡◌, refl, ap, subst}
use mathlib.Core.Logic.{inl, inr}
use mathlib.Core.Bool.{Bool, true, false, ◌||◌}
use mathlib.Core.List.{List, [], ◌∷◌, ◌++◌}
use mathlib.Core.Option.{none, some}
use native.Mathlib.Omega.{arith}
use nntp_proxy.Base.Tests.{Bool-cases, Option-cases}
use nntp_proxy.Base.Lists.{
  length, length-append, take, take-length-append, drop, drop-length-append_suc, any, position,
  rposition,
}

module _ {ℓ} {A : Type ℓ} (p : A → Bool) where
  pub position-none : (xs : List A) → any p xs ≡ false → position p xs ≡ none
  unfolding position
  position-none [] h = refl
  position-none (x ∷ xs) h = ground (arith, position-none xs)

  pub position-any : (xs : List A) → position p xs ≡ none → any p xs ≡ false
  unfolding position
  position-any [] h = refl
  position-any (x ∷ xs) h = ground (arith, position-any xs)

  pub position-append :
      (xs : List A) (y : A) (ys : List A)
      → any p xs ≡ false
      → p y ≡ true
      → position p (xs ++ y ∷ ys) ≡ some (length xs)
  unfolding position
  position-append [] y ys h e = ground arith
  position-append (x ∷ xs) y ys h e = ground (arith, position-append xs y ys)

  -- The list splits at the position: the first element that passes the test stands there.
  pub record FirstAt (xs : List A) (n : ℕ) : Type ℓ where
    pub before : List A
    pub found : A
    pub after : List A
    pub splits : xs ≡ before ++ found ∷ after
    pub at : length before ≡ n
    pub passes : p found ≡ true
    pub earlier : any p before ≡ false

  FirstAt-cons :
      (x : A) {xs : List A} {n : ℕ} → p x ≡ false → FirstAt xs n → FirstAt (x ∷ xs) (suc n)
  FirstAt-cons x e f = record {
    before = x ∷ f.before;
    found = f.found;
    after = f.after;
    splits = ap (◌∷◌ x) f.splits;
    at = ap suc f.at;
    passes = f.passes;
    earlier = rw e f.earlier;
  }

  pub position_split : (xs : List A) {n : ℕ} → position p xs ≡ some n → FirstAt xs n
  unfolding position
  position_split [] h = cc
  position_split (x ∷ xs) {n} h = elim (Bool-cases (p x)) [
    | inl e ↦ record {
      before = [];
      found = x;
      after = xs;
      splits = refl;
      at = ground arith;
      passes = e;
      earlier = refl;
    }
    | inr e ↦ elim (Option-cases (position p xs)) [
      | inl f ↦ ground arith
      | inr (k, f) ↦
          subst (FirstAt (x ∷ xs)) (ground arith) (FirstAt-cons x e (position_split xs f))
    ]
  ]

  pub any-append : (xs ys : List A) → any p (xs ++ ys) ≡ any p xs || any p ys
  any-append [] ys = refl
  any-append (x ∷ xs) ys = ground (arith, any-append xs ys)

  pub rposition-none : (xs : List A) → any p xs ≡ false → rposition p xs ≡ none
  unfolding rposition
  rposition-none [] h = refl
  rposition-none (x ∷ xs) h = ground (arith, rposition-none xs)

  pub rposition-append :
      (xs : List A) (y : A) (ys : List A)
      → any p ys ≡ false
      → p y ≡ true
      → rposition p (xs ++ y ∷ ys) ≡ some (length xs)
  unfolding rposition
  rposition-append [] y ys h e = ground (arith, rposition-none ys)
  rposition-append (x ∷ xs) y ys h e = ground (arith, rposition-append xs y ys)

  -- The last element that passes the test stands at the position.
  pub record LastAt (xs : List A) (n : ℕ) : Type ℓ where
    pub before : List A
    pub found : A
    pub after : List A
    pub splits : xs ≡ before ++ found ∷ after
    pub at : length before ≡ n
    pub passes : p found ≡ true
    pub later : any p after ≡ false

  rposition-any : (xs : List A) → rposition p xs ≡ none → any p xs ≡ false
  unfolding rposition
  rposition-any [] h = refl
  rposition-any (x ∷ xs) h = ground (arith, rposition-any xs)

  LastAt-cons : (x : A) {xs : List A} {n : ℕ} → LastAt xs n → LastAt (x ∷ xs) (suc n)
  LastAt-cons x f = record {
    before = x ∷ f.before;
    found = f.found;
    after = f.after;
    splits = ap (◌∷◌ x) f.splits;
    at = ap suc f.at;
    passes = f.passes;
    later = f.later;
  }

  pub rposition_split : (xs : List A) {n : ℕ} → rposition p xs ≡ some n → LastAt xs n
  unfolding rposition
  rposition_split [] h = cc
  rposition_split (x ∷ xs) {n} h = elim (Option-cases (rposition p xs)) [
    | inr (k, f) ↦ subst (LastAt (x ∷ xs)) (ground arith) (LastAt-cons x (rposition_split xs f))
    | inl f ↦ elim (Bool-cases (p x)) [
      | inr e ↦ ground arith
      | inl e ↦ record {
        before = [];
        found = x;
        after = xs;
        splits = refl;
        at = ground arith;
        passes = e;
        later = rposition-any xs f;
      }
    ]
  ]

  pub FirstAt-take : {xs : List A} {n : ℕ} → FirstAt xs n → any p (take n xs) ≡ false
  FirstAt-take f = rw (f.splits, ← f.at, take-length-append f.before (f.found ∷ f.after)) f.earlier

  pub LastAt-drop : {xs : List A} {n : ℕ} → LastAt xs n → any p (drop (n + 1) xs) ≡ false
  LastAt-drop f = rw (f.splits, ← f.at, drop-length-append_suc f.before f.found f.after) f.later

  pub FirstAt-lt : {xs : List A} {n : ℕ} → FirstAt xs n → n < length xs
  FirstAt-lt f = omega (arith, ap length f.splits, length-append f.before (f.found ∷ f.after), f.at)

  pub LastAt-lt : {xs : List A} {n : ℕ} → LastAt xs n → n < length xs
  LastAt-lt f = omega (arith, ap length f.splits, length-append f.before (f.found ∷ f.after), f.at)
