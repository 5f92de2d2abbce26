-- ===== src/Config/Folding.antt =====
-- Folds of a merge that may fail, as kube-client/src/config/file_config.rs folds documents and files:
-- they may be grouped where the merge may.
use kube.Prelude.{◌≡◌, refl, sym, ap, ◌∙◌, Option, none, some, List, [], ◌∷◌, ◌++◌}

abbrev pub bind {ℓ κ} : {A : Type ℓ} {B : Type κ} → Option A → (A → Option B) → Option B
bind none f = none
bind (some a) f = f a

module _ {ℓ κ} {A : Type ℓ} {B : Type κ} where
  pub bind_cong : (a : Option A) (f g : A → Option B) → ((x : A) → f x ≡ g x) → bind a f ≡ bind a g
  bind_cong none f g h = refl
  bind_cong (some x) f g h = h x

  pub bind_both :
      {a b : Option A} {f g : A → Option B} → a ≡ b → ((x : A) → f x ≡ g x) → bind a f ≡ bind b g
  bind_both {b = b} {f = f} {g = g} e h = ap (λ r. bind r f) e ∙ bind_cong b f g h

pub bind-some {ℓ} : {A : Type ℓ} (a : Option A) → bind a (λ x. some x) ≡ a
bind-some none = refl
bind-some (some x) = refl

module _ {A B C : Type 0} where
  pub bind_assoc :
      (a : Option A) (f : A → Option B) (g : B → Option C)
      → bind (bind a f) g ≡ bind a (λ x. bind (f x) g)
  bind_assoc none f g = refl
  bind_assoc (some x) f g = refl

  pub bind_swap :
      (a : Option A) (b : Option B) (f : A → B → Option C)
      → bind a (λ x. bind b (λ y. f x y)) ≡ bind b (λ y. bind a (λ x. f x y))
  bind_swap none none f = refl
  bind_swap none (some y) f = refl
  bind_swap (some x) b f = refl

module _ {A : Type 0} (join : A → A → Option A) where
  abbrev pub fold : A → List A → Option A
  fold a [] = some a
  fold a (x ∷ xs) = bind (join a x) (λ b. fold b xs)

  pub fold-append : (a : A) (xs ys : List A) → fold a (xs ++ ys) ≡ bind (fold a xs) (λ b. fold b ys)
  fold-append a [] ys = refl
  fold-append a (x ∷ xs) ys =
      bind_cong (join a x) _ _ (λ b. fold-append b xs ys)
      ∙ sym (bind_assoc (join a x) (λ b. fold b xs) (λ b. fold b ys))

  module _
      (assoc : (a b c : A)
        → bind (join a b) (λ ab. join ab c) ≡ bind (join b c) (λ bc. join a bc)) where
    fold-join :
        (a b : A) (xs : List A) → bind (join a b) (λ ab. fold ab xs) ≡ bind (fold b xs) (join a)
    fold-join a b [] = bind-some (join a b)
    fold-join a b (x ∷ xs) =
        sym (bind_assoc (join a b) (λ ab. join ab x) (λ c. fold c xs))
        ∙ ap (λ r. bind r (λ c. fold c xs)) (assoc a b x)
        ∙ bind_assoc (join b x) (join a) (λ c. fold c xs)
        ∙ bind_cong (join b x) _ _ (λ bx. fold-join a bx xs)
        ∙ sym (bind_assoc (join b x) (λ bx. fold bx xs) (join a))

    -- What has been merged by itself is merged into the rest.
    pub fold-grouped :
        (e : A)
        → ((a : A) → join a e ≡ some a)
        → (a : A) (xs : List A) → bind (fold e xs) (join a) ≡ fold a xs
    fold-grouped e unit a xs = sym (fold-join a e xs) ∙ ap (λ r. bind r (λ b. fold b xs)) (unit a)
