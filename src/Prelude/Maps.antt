-- ===== src/Prelude/Maps.antt =====
-- Maps as association lists, an entry per key, and the equality of keys that they need.
use Prim.Native.Nat.{ℕ}
use mathlib.Core.Path.{◌≡◌, refl, sym, ap, ap₂, ◌∙◌}
use mathlib.Core.Logic.{◌↔◌, ◌≢◌, inl, inr}
use mathlib.Core.Bool.{Bool, true, false, false≢true, ◌||◌}
use mathlib.Core.Option.{Option, none, some}
use mathlib.Core.List.{List, [], ◌∷◌, ◌++◌}
use portask.Prelude.Tests.{◌==◌, ==_iff, if◌then◌else◌, Bool-cases}

pub record Eq {ℓ} (A : Type ℓ) : Type ℓ where
  pub beq : A → A → Bool
  pub beq_iff : (a b : A) → (beq a b ≡ true) ↔ (a ≡ b)

instance abbrev pub nat_eq : Eq ℕ
nat_eq = record { beq = λ a b. a == b; beq_iff = ==_iff }

module _ {ℓ} {A : Type ℓ} ⦃e : Eq A⦄ where
  pub beq_refl : (a : A) → e.beq a a ≡ true
  beq_refl a = (e.beq_iff a a).1 refl

  pub beq-ne : {a b : A} → a ≢ b → e.beq a b ≡ false
  beq-ne {a} {b} n = elim (Bool-cases (e.beq a b)) [
    | inl h ↦ absurd (n ((e.beq_iff a b).0 h))
    | inr h ↦ h
  ]

  abbrev pub beq_list : List A → List A → Bool
  beq_list [] [] = true
  beq_list [] (y ∷ ys) = false
  beq_list (x ∷ xs) [] = false
  beq_list (x ∷ xs) (y ∷ ys) = if e.beq x y then beq_list xs ys else false

  beq_list→eq : (xs ys : List A) → beq_list xs ys ≡ true → xs ≡ ys
  beq_list→eq [] [] h = refl
  beq_list→eq [] (y ∷ ys) h = absurd (false≢true h)
  beq_list→eq (x ∷ xs) [] h = absurd (false≢true h)
  beq_list→eq (x ∷ xs) (y ∷ ys) h = elim (Bool-cases (e.beq x y)) [
    | inl p ↦ ap₂ (λ a l. a ∷ l) ((e.beq_iff x y).0 p) (beq_list→eq xs ys (rw p at h))
    | inr p ↦ absurd (false≢true (rw p at h))
  ]

  beq_list_refl : (xs : List A) → beq_list xs xs ≡ true
  beq_list_refl [] = refl
  beq_list_refl (x ∷ xs) = rw (beq_refl x) (beq_list_refl xs)

  pub beq_list_iff : (xs ys : List A) → (beq_list xs ys ≡ true) ↔ (xs ≡ ys)
  beq_list_iff xs ys = (beq_list→eq xs ys, λ p. ap (λ l. beq_list xs l) (sym p) ∙ beq_list_refl xs)

  instance abbrev pub list_eq : Eq (List A)
  list_eq = record { beq = beq_list; beq_iff = beq_list_iff }

  unfoldable pub contains : List A → A → Bool
  contains [] a = false
  contains (x ∷ xs) a = if e.beq x a then true else contains xs a

  pub contains-append :
      (xs ys : List A) (a : A) → contains (xs ++ ys) a ≡ (contains xs a || contains ys a)
  unfolding contains
  contains-append [] ys a = refl
  contains-append (x ∷ xs) ys a = elim (Bool-cases (e.beq x a)) [
    | inl p ↦ rw p refl
    | inr p ↦ rw p (contains-append xs ys a)
  ]

module _ {ℓ κ} {K : Type ℓ} {V : Type κ} ⦃e : Eq K⦄ where
  unfoldable pub find : List (K × V) → K → Option V
  find [] k = none
  find ((k', v) ∷ m) k = if e.beq k' k then some v else find m k

  -- `m[k] = v`
  unfoldable pub put : List (K × V) → K → V → List (K × V)
  put [] k v = (k, v) ∷ []
  put ((k', v') ∷ m) k v = if e.beq k' k then (k', v) ∷ m else (k', v') ∷ put m k v

  pub find-put_self : (m : List (K × V)) (k : K) (v : V) → find (put m k v) k ≡ some v
  unfolding find put
  find-put_self [] k v = rw (beq_refl k) refl
  find-put_self ((k', v') ∷ m) k v = elim (Bool-cases (e.beq k' k)) [
    | inl p ↦ rw (p, p) refl
    | inr p ↦ rw (p, p) (find-put_self m k v)
  ]

  pub find-put_ne : (m : List (K × V)) {k j : K} (v : V) → k ≢ j → find (put m k v) j ≡ find m j
  unfolding find put
  find-put_ne [] v n = rw (beq-ne n) refl
  find-put_ne ((k', v') ∷ m) {k} {j} v n = elim (Bool-cases (e.beq k' k)) [
    | inl p ↦ rw (p, beq-ne {a = k'} {b = j} (λ q. n (sym ((e.beq_iff k' k).0 p) ∙ q))) refl
    | inr p ↦ rw p (ap (λ o. if e.beq k' j then some v' else o) (find-put_ne m {k = k} {j = j} v n))
  ]

  -- `delete(m, k)`
  unfoldable pub remove : List (K × V) → K → List (K × V)
  remove [] k = []
  remove ((k', v') ∷ m) k = let rest = remove m k in if e.beq k' k then rest else (k', v') ∷ rest

  pub find-remove_self : (m : List (K × V)) (k : K) → find (remove m k) k ≡ none
  unfolding find remove
  find-remove_self [] k = refl
  find-remove_self ((k', v') ∷ m) k = elim (Bool-cases (e.beq k' k)) [
    | inl p ↦ rw p (find-remove_self m k)
    | inr p ↦ rw (p, p) (find-remove_self m k)
  ]

  pub find-remove_ne : (m : List (K × V)) {k j : K} → k ≢ j → find (remove m k) j ≡ find m j
  unfolding find remove
  find-remove_ne [] n = refl
  find-remove_ne ((k', v') ∷ m) {k} {j} n = elim (Bool-cases (e.beq k' k)) [
    | inl p ↦
        rw (p, beq-ne {a = k'} {b = j} (λ q. n (sym ((e.beq_iff k' k).0 p) ∙ q)))
          (find-remove_ne m {k = k} {j = j} n)
    | inr p ↦
        rw p (ap (λ o. if e.beq k' j then some v' else o) (find-remove_ne m {k = k} {j = j} n))
  ]

  pub find-put :
      (m : List (K × V)) (k j : K) (v : V)
      → find (put m k v) j ≡ (if e.beq k j then some v else find m j)
  find-put m k j v = elim (Bool-cases (e.beq k j)) [
    | inl p ↦ rw p (ap (λ i. find (put m k v) i) (sym ((e.beq_iff k j).0 p)) ∙ find-put_self m k v)
    | inr p ↦ rw p (find-put_ne m {k = k} {j = j} v (λ q. false≢true (sym p ∙ (e.beq_iff k j).1 q)))
  ]

  pub find-remove :
      (m : List (K × V)) (k j : K) → find (remove m k) j ≡ (if e.beq k j then none else find m j)
  find-remove m k j = elim (Bool-cases (e.beq k j)) [
    | inl p ↦
        rw p (ap (λ i. find (remove m k) i) (sym ((e.beq_iff k j).0 p)) ∙ find-remove_self m k)
    | inr p ↦
        rw p (find-remove_ne m {k = k} {j = j} (λ q. false≢true (sym p ∙ (e.beq_iff k j).1 q)))
  ]
