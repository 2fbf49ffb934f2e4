-- ===== src/Prelude/Pairwise.antt =====
-- A relation between each element of a list and each later one.
use circuitc.Prelude.{List, [], ◌∷◌, ◌++◌, map, All}

-- Every element stands in the relation to every later one.
abbrev pub Pairwise : {A : Type 0} → (A → A → Type 0) → List A → Type 0
Pairwise R [] = Unit
Pairwise R (x ∷ xs) = All (R x) xs × Pairwise R xs

pub All-map :
    {A B : Type 0} (P : A → Type 0) (Q : B → Type 0) (f : A → B) (xs : List A)
    → ((b : A) → P b → Q (f b))
    → All P xs
    → All Q (map f xs)
All-map P Q f [] h a = tt
All-map P Q f (x ∷ xs) h (p, a) = (h x p, All-map P Q f xs h a)

pub Pairwise-map :
    {A B : Type 0} (R : A → A → Type 0) (S : B → B → Type 0) (f : A → B) (xs : List A)
    → ((a b : A) → R a b → S (f a) (f b))
    → Pairwise R xs
    → Pairwise S (map f xs)
Pairwise-map R S f [] h p = tt
Pairwise-map R S f (x ∷ xs) h (a, p) =
    (All-map (R x) (S (f x)) f xs (λ b. h x b) a, Pairwise-map R S f xs h p)

pub All-weaken :
    {A : Type 0} (P Q : A → Type 0) (xs : List A) → ((b : A) → P b → Q b) → All P xs → All Q xs
All-weaken P Q [] h a = tt
All-weaken P Q (x ∷ xs) h (p, a) = (h x p, All-weaken P Q xs h a)

pub Pairwise-weaken :
    {A : Type 0} (R S : A → A → Type 0) (xs : List A)
    → ((a b : A) → R a b → S a b)
    → Pairwise R xs
    → Pairwise S xs
Pairwise-weaken R S [] h p = tt
Pairwise-weaken R S (x ∷ xs) h (a, p) =
    (All-weaken (R x) (S x) xs (λ b. h x b) a, Pairwise-weaken R S xs h p)

pub All-++ : {A : Type 0} (P : A → Type 0) (xs ys : List A) → All P xs → All P ys → All P (xs ++ ys)
All-++ P [] ys h k = k
All-++ P (x ∷ xs) ys (p, h) k = (p, All-++ P xs ys h k)

pub Pairwise-++ :
    {A : Type 0} (R : A → A → Type 0) (xs ys : List A)
    → Pairwise R xs
    → Pairwise R ys
    → All (λ x. All (R x) ys) xs
    → Pairwise R (xs ++ ys)
Pairwise-++ R [] ys p q h = q
Pairwise-++ R (x ∷ xs) ys (a, p) q (b, h) = (All-++ (R x) xs ys a b, Pairwise-++ R xs ys p q h)
