-- ===== src/Sort/Total/Ends.antt =====
-- Computations of sort.rs that end: with a value or with a Lua error, never with a panic.
use luajit_rs.Base.{List, Bool, true, false, if◌then◌else◌, ◌≡◌, refl}
use luajit_rs.Sort.Exec.{Exec, M, ret, raised, panicked, out_of_fuel, followed_by, ◌>>=◌, pure}

-- The slice satisfies `R` in either case, and the value `Q`.
pub data Ends {S I E A : Type 0} (R : List I → Type 0) (Q : A → Type 0)
    : Exec S I E A → Type 0 where
  returns : {a : A} {l : S} {xs : List I} → R xs → Q a → Ends R Q (ret a l xs)
  raises : {e : E} {l : S} {xs : List I} → R xs → Ends R Q (raised e l xs)

-- The computation ends so from every slice that satisfies `R`.
abbrev pub Keeps : {S I E A : Type 0} → (List I → Type 0) → (A → Type 0) → M S I E A → Type 0
Keeps {S = S} {I = I} R Q m = (l : S) (xs : List I) → R xs → Ends R Q (m l xs)

module _ {S I E A B : Type 0} {R : List I → Type 0} {Q : A → Type 0} {P : B → Type 0} where
  Ends-followed_by :
      (e : Exec S I E A) (f : A → M S I E B)
      → Ends R Q e
      → ((a : A) → Q a → Keeps R P (f a))
      → Ends R P (followed_by e f)
  Ends-followed_by (ret a l xs) f (returns r q) k = k a q l xs r
  Ends-followed_by (raised e l xs) f (raises r) k = raises r
  Ends-followed_by panicked f h k = elim h [ ]
  Ends-followed_by out_of_fuel f h k = elim h [ ]

  pub Keeps-bind :
      (m : M S I E A) (f : A → M S I E B)
      → Keeps R Q m
      → ((a : A) → Q a → Keeps R P (f a))
      → Keeps R P (m >>= f)
  Keeps-bind m f h k l xs r = Ends-followed_by (m l xs) f (h l xs r) k

module _ {S I E A : Type 0} {R : List I → Type 0} {Q : A → Type 0} where
  pub Keeps-pure : (a : A) → Q a → Keeps R Q (pure {S = S} {E = E} a)
  Keeps-pure a q l xs r = returns r q

  pub Keeps-if :
      (b : Bool) (m n : M S I E A)
      → (b ≡ true → Keeps R Q m)
      → (b ≡ false → Keeps R Q n)
      → Keeps R Q (if b then m else n)
  Keeps-if true m n h k = h refl
  Keeps-if false m n h k = k refl

module _ {S I E A : Type 0} {R : List I → Type 0} {Q P : A → Type 0} where
  Ends-weaken : (e : Exec S I E A) → Ends R Q e → ((a : A) → Q a → P a) → Ends R P e
  Ends-weaken (ret a l xs) (returns r q) k = returns r (k a q)
  Ends-weaken (raised e l xs) (raises r) k = raises r
  Ends-weaken panicked h k = elim h [ ]
  Ends-weaken out_of_fuel h k = elim h [ ]

  pub Keeps-weaken : (m : M S I E A) → Keeps R Q m → ((a : A) → Q a → P a) → Keeps R P m
  Keeps-weaken m h k l xs r = Ends-weaken (m l xs) (h l xs r) k
