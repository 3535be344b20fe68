-- ===== src/Prelude/Lists.antt =====
-- Lists measured by native numbers, and predicates on their elements by recursion.
use Prim.Native.Nat.{ℕ, zero, suc, ◌+◌}
use mathlib.Core.Path.{◌≡◌, refl, sym, ap, subst, ◌∙◌}
use mathlib.Core.Logic.{◌≢◌}
use mathlib.Core.Option.{Option, none, some, some-injective, none-ne-some}
use mathlib.Core.List.{Permᴰ, List, [], ◌∷◌, ◌++◌, map}
use native.Mathlib.Omega.{arith}

module _ {ℓ} {A : Type ℓ} where
  abbrev pub length : List A → ℕ
  length [] = 0
  length (x ∷ xs) = suc (length xs)

  pub length-append : (xs ys : List A) → length (xs ++ ys) ≡ length xs + length ys
  length-append [] ys = omega arith
  length-append (x ∷ xs) ys = omega (arith, length-append xs ys)

  -- Every element satisfies `P`: computes to a tuple.
  abbrev pub All {κ} : (A → Type κ) → List A → Type κ
  All P [] = Unit
  All P (x ∷ xs) = P x × All P xs

  pub All-map {κ μ} :
      (P : A → Type κ) (Q : A → Type μ) (xs : List A) → ((x : A) → P x → Q x) → All P xs → All Q xs
  All-map P Q [] f h = tt
  All-map P Q (x ∷ xs) f h = (f x h.0, All-map P Q xs f h.1)

  pub All-append {κ} : (P : A → Type κ) (xs ys : List A) → All P xs → All P ys → All P (xs ++ ys)
  All-append P [] ys h k = k
  All-append P (x ∷ xs) ys h k = (h.0, All-append P xs ys h.1 k)

module _ {ℓ κ} {A : Type ℓ} {B : Type κ} where
  pub length-map : (xs : List A) (f : A → B) → length (map f xs) ≡ length xs
  length-map [] f = refl
  length-map (x ∷ xs) f = ap suc (length-map xs f)

-- No element stands twice.
abbrev pub Distinct : List ℕ → Type 0
Distinct [] = Unit
Distinct (i ∷ l) = All (λ j. i ≢ j) l × Distinct l

-- A property of every element holds in every order.
pub All-perm {ℓ κ} :
    {A : Type ℓ} (P : A → Type κ) {xs ys : List A} → Permᴰ xs ys → All P xs → All P ys
All-perm P Permᴰ.nil h = h
All-perm P (Permᴰ.cons e p) h = (subst P e h.0, All-perm P p h.1)
All-perm P (Permᴰ.swap e e') h = (subst P e' h.1.0, (subst P e h.0, h.1.1))
All-perm P (Permᴰ.trans p q) h = All-perm P q (All-perm P p h)

pub All-front {ℓ κ} : {A : Type ℓ} (P : A → Type κ) (xs ys : List A) → All P (xs ++ ys) → All P xs
All-front P [] ys h = tt
All-front P (x ∷ xs) ys h = (h.0, All-front P xs ys h.1)

pub Distinct-perm : {xs ys : List ℕ} → Permᴰ xs ys → Distinct xs → Distinct ys
Distinct-perm Permᴰ.nil h = h
Distinct-perm (Permᴰ.cons {a = x} {b = y} {l₁ = xs} e p) h =
    (All-perm (λ j. y ≢ j) p (subst (λ z. All (λ j. z ≢ j) xs) e h.0), Distinct-perm p h.1)
Distinct-perm (Permᴰ.swap {l = l} e e') h = (
  (λ same. h.0.0 (e ∙ sym same ∙ sym e'), subst (λ z. All (λ j. z ≢ j) l) e' h.1.0),
  (subst (λ z. All (λ j. z ≢ j) l) e h.0.1, h.1.1),
)
Distinct-perm (Permᴰ.trans p q) h = Distinct-perm q (Distinct-perm p h)

pub Distinct-front : (xs ys : List ℕ) → Distinct (xs ++ ys) → Distinct xs
Distinct-front [] ys h = tt
Distinct-front (x ∷ xs) ys h = (All-front (λ j. x ≢ j) xs ys h.0, Distinct-front xs ys h.1)

pub map-perm {ℓ κ} :
    {A : Type ℓ} {B : Type κ} (f : A → B) {xs ys : List A}
    → Permᴰ xs ys
    → Permᴰ (map f xs) (map f ys)
map-perm f Permᴰ.nil = Permᴰ.nil
map-perm f (Permᴰ.cons e p) = Permᴰ.cons (ap f e) (map-perm f p)
map-perm f (Permᴰ.swap e e') = Permᴰ.swap (ap f e) (ap f e')
map-perm f (Permᴰ.trans p q) = Permᴰ.trans (map-perm f p) (map-perm f q)

pub All-rest {ℓ κ} : {A : Type ℓ} (P : A → Type κ) (xs ys : List A) → All P (xs ++ ys) → All P ys
All-rest P [] ys h = h
All-rest P (x ∷ xs) ys h = All-rest P xs ys h.1

pub All-both {ℓ κ μ} :
    {A : Type ℓ} (P : A → Type κ) (Q : A → Type μ) (xs : List A)
    → All P xs
    → All Q xs
    → All (λ x. P x × Q x) xs
All-both P Q [] h k = tt
All-both P Q (x ∷ xs) h k = ((h.0, k.0), All-both P Q xs h.1 k.1)

pub All-every {ℓ κ} : {A : Type ℓ} {P : A → Type κ} → ((x : A) → P x) → (xs : List A) → All P xs
All-every h [] = tt
All-every h (x ∷ xs) = (h x, All-every h xs)

abbrev pub get_elem? {ℓ} : {A : Type ℓ} → List A → ℕ → Option A
get_elem? [] i = none
get_elem? (x ∷ xs) zero = some x
get_elem? (x ∷ xs) (suc i) = get_elem? xs i

pub get_elem?-map {ℓ κ} :
    {A : Type ℓ} {B : Type κ} (h : A → B) (xs : List A) (b : ℕ) {x : A}
    → get_elem? xs b ≡ some x
    → get_elem? (map h xs) b ≡ some (h x)
get_elem?-map h [] b e = absurd (none-ne-some _ e)
get_elem?-map h (x ∷ xs) zero e = ap (λ y. some (h y)) (some-injective _ _ e)
get_elem?-map h (x ∷ xs) (suc b) e = get_elem?-map h xs b e

pub All-get_elem? {ℓ κ} :
    {A : Type ℓ} (Q : A → Type κ) (xs : List A) (b : ℕ) {x : A}
    → get_elem? xs b ≡ some x
    → All Q xs
    → Q x
All-get_elem? Q [] b e h = absurd (none-ne-some _ e)
All-get_elem? Q (x ∷ xs) zero e h = subst Q (some-injective _ _ e) h.0
All-get_elem? Q (x ∷ xs) (suc b) e h = All-get_elem? Q xs b e h.1
