-- ===== src/Base/Lists.antt =====
-- Lists measured by native numbers, and predicates on lists by recursion.
use Prim.Native.Nat.{ℕ, zero, suc, ◌+◌, ◌≤◌}
use mathlib.Core.Path.{◌≡◌, refl, ap, subst}
use mathlib.Core.Bool.{Bool, true, false, ◌&&◌, ◌||◌}
use mathlib.Core.Logic.{inl, inr}
use mathlib.Core.Option.{Option, none, some, some-injective}
use mathlib.Core.List.{List, [], ◌∷◌, ◌++◌, map}
use native.Mathlib.Omega.{arith}
use open_mdm.Base.Tests.{if◌then◌else◌, Bool-cases, or_left, or_right}

module _ {ℓ} {A : Type ℓ} where
  abbrev pub length : List A → ℕ
  length [] = 0
  length (x ∷ xs) = suc (length xs)

  abbrev pub take : ℕ → List A → List A
  take zero xs = []
  take (suc n) [] = []
  take (suc n) (x ∷ xs) = x ∷ take n xs

  -- `[x for x in xs if p(x)]`; the library's `filter` wants a decision.
  abbrev pub keep : (A → Bool) → List A → List A
  keep p [] = []
  keep p (x ∷ xs) = let rest = keep p xs in if p x then x ∷ rest else rest

  -- `any(p(x) for x in xs)` and `all(p(x) for x in xs)`
  abbrev pub any : (A → Bool) → List A → Bool
  any p [] = false
  any p (x ∷ xs) = p x || any p xs

  abbrev pub all : (A → Bool) → List A → Bool
  all p [] = true
  all p (x ∷ xs) = p x && all p xs

  -- The first element that passes, as `.first()` of a query.
  abbrev pub find_first : (A → Bool) → List A → Option A
  find_first p [] = none
  find_first p (x ∷ xs) = if p x then some x else find_first p xs

  -- An SQL UPDATE with a WHERE clause.
  abbrev pub update_where : (A → Bool) → (A → A) → List A → List A
  update_where p f [] = []
  update_where p f (x ∷ xs) = (if p x then f x else x) ∷ update_where p f xs

  abbrev pub is_empty : List A → Bool
  is_empty [] = true
  is_empty (x ∷ xs) = false

  pub length-append : (xs ys : List A) → length (xs ++ ys) ≡ length xs + length ys
  length-append [] ys = omega arith
  length-append (x ∷ xs) ys = omega (arith, length-append xs ys)

  pub length-update_where :
      (p : A → Bool) (f : A → A) (xs : List A) → length (update_where p f xs) ≡ length xs
  length-update_where p f [] = refl
  length-update_where p f (x ∷ xs) = ap suc (length-update_where p f xs)

  pub length-take : (n : ℕ) (xs : List A) → length (take n xs) ≤ n
  length-take zero xs = omega arith
  length-take (suc n) [] = omega arith
  length-take (suc n) (x ∷ xs) = omega (arith, length-take n xs)

abbrev pub All {ℓ κ} : {A : Type ℓ} → (A → Type κ) → List A → Type κ
All P [] = Unit
All P (x ∷ xs) = P x × All P xs

module _ {ℓ κ} {A : Type ℓ} (P : A → Type κ) where
  pub All-append : (xs ys : List A) → All P xs → All P ys → All P (xs ++ ys)
  All-append [] ys hx hy = hy
  All-append (x ∷ xs) ys hx hy = (hx.0, All-append xs ys hx.1 hy)

  pub All-split : (xs ys : List A) → All P (xs ++ ys) → All P xs × All P ys
  All-split [] ys h = (tt, h)
  All-split (x ∷ xs) ys (p, h) = let (hx, hy) = All-split xs ys h in ((p, hx), hy)

  pub All-map {μ} : (Q : A → Type μ) → ((x : A) → P x → Q x) → (xs : List A) → All P xs → All Q xs
  All-map Q f [] h = tt
  All-map Q f (x ∷ xs) (p, h) = (f x p, All-map Q f xs h)

  pub All-update_where :
      (p : A → Bool) (f : A → A)
      → ((x : A) → P x → P (f x))
      → (xs : List A) → All P xs
      → All P (update_where p f xs)
  All-update_where p f step [] h = h
  All-update_where p f step (x ∷ xs) h = (choose (p x), All-update_where p f step xs h.1)
    where
      choose : (b : Bool) → P (if b then f x else x)
      choose true = step x h.0
      choose false = h.0

pub find_first-append {ℓ} :
    {A : Type ℓ} (p : A → Bool) (xs : List A) (x : A)
    → find_first p xs ≡ none
    → p x ≡ true
    → find_first p (xs ++ x ∷ []) ≡ some x
find_first-append p [] x h k = rw k
find_first-append p (y ∷ xs) x h k = elim (Bool-cases (p y)) [
  | inl t ↦ absurd (cc (rw t at h))
  | inr f ↦ rw f (find_first-append p xs x (rw f at h) k)
]

pub any-find_first {ℓ} :
    {A : Type ℓ} (p : A → Bool) (xs : List A) → find_first p xs ≡ none → any p xs ≡ false
any-find_first p [] h = refl
any-find_first p (y ∷ xs) h = elim (Bool-cases (p y)) [
  | inl t ↦ absurd (cc (rw t at h))
  | inr f ↦ rw f (any-find_first p xs (rw f at h))
]

pub find_first-any {ℓ} :
    {A : Type ℓ} (p : A → Bool) (xs : List A) → any p xs ≡ false → find_first p xs ≡ none
find_first-any p [] h = refl
find_first-any p (y ∷ xs) h = elim (Bool-cases (p y)) [
  | inl t ↦ absurd (cc (rw t at h))
  | inr f ↦ rw f (find_first-any p xs (rw f at h))
]

pub any-update_where {ℓ} :
    {A : Type ℓ} (p q : A → Bool) (f : A → A)
    → ((x : A) → p (f x) ≡ p x)
    → (xs : List A) → any p (update_where q f xs) ≡ any p xs
any-update_where p q f same [] = refl
any-update_where p q f same (x ∷ xs) = elim (Bool-cases (q x)) [
  | inl t ↦ rw (t, same x, any-update_where p q f same xs)
  | inr n ↦ rw (n, any-update_where p q f same xs)
]

pub any-add {ℓ} :
    {A : Type ℓ} (p : A → Bool) (xs : List A) (x : A)
    → any p xs ≡ false
    → p x ≡ false
    → any p (xs ++ x ∷ []) ≡ false
any-add p [] x h k = rw k
any-add p (y ∷ xs) x h k = elim (Bool-cases (p y)) [
  | inl t ↦ absurd (cc (rw t at h))
  | inr f ↦ rw f (any-add p xs x (rw f at h) k)
]

pub map-append {ℓ} :
    {A B : Type ℓ} (f : A → B) (xs ys : List A) → map f (xs ++ ys) ≡ map f xs ++ map f ys
map-append f [] ys = refl
map-append f (x ∷ xs) ys = ap (λ zs. f x ∷ zs) (map-append f xs ys)

pub append_assoc {ℓ} : {A : Type ℓ} (xs ys zs : List A) → (xs ++ ys) ++ zs ≡ xs ++ (ys ++ zs)
append_assoc [] ys zs = refl
append_assoc (x ∷ xs) ys zs = ap (λ ws. x ∷ ws) (append_assoc xs ys zs)

pub append-nil {ℓ} : {A : Type ℓ} (xs : List A) → xs ≡ xs ++ []
append-nil [] = refl
append-nil (x ∷ xs) = ap (λ ys. x ∷ ys) (append-nil xs)

pub any-keep {ℓ} :
    {A : Type ℓ} (p q : A → Bool) (xs : List A) → any p xs ≡ false → any p (keep q xs) ≡ false
any-keep p q [] h = refl
any-keep p q (x ∷ xs) h = elim (Bool-cases (p x)) [
  | inl t ↦ absurd (cc (rw t at h))
  | inr f ↦ elim (Bool-cases (q x)) [
    | inl t ↦ rw (t, f) (any-keep p q xs (rw f at h))
    | inr n ↦ rw n (any-keep p q xs (rw f at h))
  ]
]

-- An update of a row by its key does not lose it.
pub find_first-update_where {ℓ} :
    {A : Type ℓ} (p : A → Bool) (f : A → A) (xs : List A) (x : A)
    → ((y : A) → p (f y) ≡ p y)
    → find_first p xs ≡ some x
    → find_first p (update_where p f xs) ≡ some (f x)
find_first-update_where p f [] x same h = absurd (cc)
find_first-update_where p f (y ∷ xs) x same h = elim (Bool-cases (p y)) [
  | inl t ↦ rw (t, same y, t) (ap some (ap f (some-injective _ _ (rw t at h))))
  | inr n ↦ rw (n, n) (find_first-update_where p f xs x same (rw n at h))
]

pub update_where-none {ℓ} :
    {A : Type ℓ} (p : A → Bool) (f : A → A) (xs : List A)
    → any p xs ≡ false
    → update_where p f xs ≡ xs
update_where-none p f [] h = refl
update_where-none p f (y ∷ xs) h = elim (Bool-cases (p y)) [
  | inl t ↦ absurd (cc (rw t at h))
  | inr n ↦ rw n (ap (λ ys. y ∷ ys) (update_where-none p f xs (rw n at h)))
]

-- Whether some element comes twice.
abbrev pub repeated {ℓ} : {A : Type ℓ} → (A → A → Bool) → List A → Bool
repeated same [] = false
repeated same (x ∷ xs) = any (same x) xs || repeated same xs

pub repeated-add {ℓ} :
    {A : Type ℓ} (same : A → A → Bool) (xs : List A) (y : A)
    → repeated same xs ≡ false
    → All (λ x. same x y ≡ false) xs
    → repeated same (xs ++ y ∷ []) ≡ false
repeated-add same [] y h new = refl
repeated-add same (x ∷ xs) y h (here, new) =
    rw (any-add (same x) xs y (or_left (any (same x) xs) (repeated same xs) h) here)
      (repeated-add same xs y (or_right (any (same x) xs) (repeated same xs) h) new)

any-keep-map {ℓ} :
    {A B : Type ℓ} (q : B → Bool) (g : A → B) (p : A → Bool) (xs : List A)
    → any q (map g xs) ≡ false
    → any q (map g (keep p xs)) ≡ false
any-keep-map q g p [] h = refl
any-keep-map q g p (x ∷ xs) h = elim (Bool-cases (p x)) [
  | inl t ↦
      rw (t, or_left (q (g x)) (any q (map g xs)) h)
        (any-keep-map q g p xs (or_right (q (g x)) (any q (map g xs)) h))
  | inr f ↦ rw f (any-keep-map q g p xs (or_right (q (g x)) (any q (map g xs)) h))
]

pub repeated-keep {ℓ} :
    {A B : Type ℓ} (same : B → B → Bool) (g : A → B) (p : A → Bool) (xs : List A)
    → repeated same (map g xs) ≡ false
    → repeated same (map g (keep p xs)) ≡ false
repeated-keep same g p [] h = refl
repeated-keep same g p (x ∷ xs) h =
    let first = or_left (any (same (g x)) (map g xs)) (repeated same (map g xs)) h in
    let rest =
      repeated-keep same g p xs
        (or_right (any (same (g x)) (map g xs)) (repeated same (map g xs)) h) in
    elim (Bool-cases (p x)) [
      | inl t ↦ rw (t, any-keep-map (same (g x)) g p xs first) rest
      | inr f ↦ rw f rest
    ]

pub map-update_where {ℓ} :
    {A B : Type ℓ} (g : A → B) (p : A → Bool) (f : A → A)
    → ((x : A) → p x ≡ true → g (f x) ≡ g x)
    → (xs : List A) → map g (update_where p f xs) ≡ map g xs
map-update_where g p f same [] = refl
map-update_where g p f same (x ∷ xs) = elim (Bool-cases (p x)) [
  | inl t ↦ rw (t, same x t, map-update_where g p f same xs) refl
  | inr n ↦ rw (n, map-update_where g p f same xs) refl
]

pub All-keep {ℓ κ} :
    {A : Type ℓ} (P : A → Type κ) (p : A → Bool) (xs : List A) → All P xs → All P (keep p xs)
All-keep P p [] h = tt
All-keep P p (x ∷ xs) (here, h) = elim (Bool-cases (p x)) [
  | inl t ↦ rw t (here, All-keep P p xs h)
  | inr f ↦ rw f (All-keep P p xs h)
]

pub All-find_first {ℓ κ} :
    {A : Type ℓ} (P : A → Type κ) (p : A → Bool) (xs : List A) (a : A)
    → All P xs
    → find_first p xs ≡ some a
    → P a × (p a ≡ true)
All-find_first P p [] a h e = absurd (cc)
All-find_first P p (x ∷ xs) a (here, h) e = elim (Bool-cases (p x)) [
  | inl t ↦
      let same = some-injective x a (rw t at e) in
      (subst P same here, subst (λ y. p y ≡ true) same t)
  | inr f ↦ All-find_first P p xs a h (rw f at e)
]
