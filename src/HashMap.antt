-- ===== src/HashMap.antt =====
-- The order in which a `HashMap` is iterated: a parameter, documented to visit every entry once.
use hidden_steps.Prelude.{All, Bool, List, [], any, ap, false, refl, true, ◌||◌, ◌∙◌, ◌∷◌, ◌≡◌}

pub data Reordered {A : Type 0} : List A → List A → Type 0 where
  done : Reordered [] []
  same : {x : A} {xs ys : List A} → Reordered xs ys → Reordered (x ∷ xs) (x ∷ ys)
  swap : {x y : A} {xs : List A} → Reordered (x ∷ y ∷ xs) (y ∷ x ∷ xs)
  chain : {xs ys zs : List A} → Reordered xs ys → Reordered ys zs → Reordered xs zs

pub record HashOrder : Type 1 where
  pub order : {A : Type 0} → List A → List A
  pub order-Reordered : {A : Type 0} (xs : List A) → Reordered xs (order xs)

pub All-Reordered :
    {A : Type 0} (P : A → Type 0) {xs ys : List A} → Reordered xs ys → All P xs → All P ys
All-Reordered P done h = h
All-Reordered P (same r) h = (h.0, All-Reordered P r h.1)
All-Reordered P swap h = (h.1.0, (h.0, h.1.1))
All-Reordered P (chain r s) h = All-Reordered P s (All-Reordered P r h)

or_swap : (a b c : Bool) → (a || (b || c)) ≡ (b || (a || c))
or_swap true true c = refl
or_swap true false c = refl
or_swap false b c = refl

pub any-Reordered :
    {A : Type 0} (p : A → Bool) {xs ys : List A} → Reordered xs ys → any p ys ≡ any p xs
any-Reordered p done = refl
any-Reordered p (same {x = x} r) = ap (λ b. p x || b) (any-Reordered p r)
any-Reordered p (swap {x = x} {y = y} {xs = xs}) = or_swap (p y) (p x) (any p xs)
any-Reordered p (chain r s) = any-Reordered p s ∙ any-Reordered p r
