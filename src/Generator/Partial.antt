-- ===== src/Generator/Partial.antt =====
-- Runs that stop at a call that fails: `main` of src/probSemSharedMemAirLift.c ends with `exit` there, and has
-- done the first part of what it was to do.
use so_assignment2_air_bridg.Base.{◌≡◌, refl, List, [], ◌∷◌, ◌++◌, ap, arith}
use so_assignment2_air_bridg.Attempt.{Attempt, Failure, ok, fail}
use so_assignment2_air_bridg.Generator.{Action, Act, ◌>>=◌, lift, tell, ◌>>◌}

-- The first list begins the second.
unfoldable pub Begins : List Action → List Action → Type 0
Begins [] ys = Unit
Begins (x ∷ xs) [] = ⊥
Begins (x ∷ xs) (y ∷ ys) = (x ≡ y) × Begins xs ys

Begins-refl : (xs : List Action) → Begins xs xs
unfolding Begins
Begins-refl [] = tt
Begins-refl (x ∷ xs) = (refl, Begins-refl xs)

Begins-append : (xs ys zs : List Action) → Begins xs ys → Begins xs (ys ++ zs)
unfolding Begins
Begins-append [] ys zs b = tt
Begins-append (x ∷ xs) [] zs b = absurd b
Begins-append (x ∷ xs) (y ∷ ys) zs b = (b.0, Begins-append xs ys zs b.1)

Begins-both : (xs ys zs : List Action) → Begins ys zs → Begins (xs ++ ys) (xs ++ zs)
unfolding Begins
Begins-both [] ys zs b = b
Begins-both (x ∷ xs) ys zs b = (refl, Begins-both xs ys zs b)

-- A run does the whole plan and succeeds with a value that has the property, or it begins the plan and
-- fails.
pub data Follows {A : Type 0} (Q : A → Type 0) (m : Act A) (plan : List Action) : Type 0 where
  whole : (a : A) → m ≡ (plan, ok a) → Q a → Follows Q m plan
  part : (xs : List Action) (e : Failure) → m ≡ (xs, fail e) → Begins xs plan → Follows Q m plan

pub Follows-Begins :
    {A : Type 0} {Q : A → Type 0} (m : Act A) (plan : List Action)
    → Follows Q m plan
    → Begins m.0 plan
Follows-Begins m plan (whole a e q) = rw e (Begins-refl plan)
Follows-Begins m plan (part xs x e b) = rw e b

bind_part :
    {B : Type 0} {R : B → Type 0} (xs ys : List Action) (k : Act B)
    → Follows R k ys
    → Follows R (xs ++ k.0, k.1) (xs ++ ys)
bind_part xs ys k (whole b e r) = whole b (rw e refl) r
bind_part xs ys k (part zs x e b) = part (xs ++ zs) x (rw e refl) (Begins-both xs zs ys b)

pub bind-Follows :
    {A B : Type 0} {Q : A → Type 0} {R : B → Type 0} (xs ys : List Action) (m : Act A)
    (f : A → Act B)
    → Follows Q m xs
    → ((a : A) → Q a → Follows R (f a) ys)
    → Follows R (m >>= f) (xs ++ ys)
bind-Follows xs ys m f (whole a e q) k = rw e (bind_part xs ys (f a) (k a q))
bind-Follows xs ys m f (part zs x e b) k = rw e (part zs x refl (Begins-append zs xs ys b))

-- A call, of which only one result is possible.
pub call-Follows :
    {A B : Type 0} {R : B → Type 0} (ys : List Action) (r : Attempt A) (x : A) (f : A → Act B)
    → ((a : A) → r ≡ ok a → a ≡ x)
    → Follows R (f x) ys
    → Follows R (lift r >>= f) ys
unfolding Begins
call-Follows ys (ok a) x f only k = rw (only a refl) (bind_part [] ys (f x) k)
call-Follows ys (fail e) x f only k = part [] e refl tt

-- An action.
pub tell-Follows :
    {B : Type 0} {R : B → Type 0} (ys : List Action) (a : Action) (k : Act B)
    → Follows R k ys
    → Follows R (tell a >> k) (a ∷ ys)
tell-Follows ys a k f = bind_part (a ∷ []) ys k f

-- A run that succeeds has done the whole plan.
pub Follows-success :
    {A : Type 0} {Q : A → Type 0} (m : Act A) (plan : List Action) (a : A)
    → Follows Q m plan
    → m.1 ≡ ok a
    → (m.0 ≡ plan) × Q a
Follows-success m plan a (whole b e q) s =
    let same : a ≡ b = ground arith in (ap (λ p. p.0) e, rw same q)
Follows-success m plan a (part xs x e b) s = ground arith
