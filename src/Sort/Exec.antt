-- ===== src/Sort/Exec.antt =====
-- Computations on the Lua state and the slice `items: &mut [(i32, LuaValue)]` that sort.rs
-- rearranges. They return a value, raise a Lua error, panic, or run out of the model's fuel; an
-- error leaves the slice as it then is.
use luajit_rs.Base.{List}

pub data Exec (S I E A : Type 0) : Type 0 where
  ret : A → S → List I → Exec S I E A
  raised : E → S → List I → Exec S I E A
  panicked : Exec S I E A
  out_of_fuel : Exec S I E A

abbrev pub M : Type 0 → Type 0 → Type 0 → Type 0 → Type 0
M S I E A = S → List I → Exec S I E A

abbrev pub followed_by : {S I E A B : Type 0} → Exec S I E A → (A → M S I E B) → Exec S I E B
followed_by (ret a l xs) f = f a l xs
followed_by (raised e l xs) f = raised e l xs
followed_by panicked f = panicked
followed_by out_of_fuel f = out_of_fuel

infixl 5 ◌>>=◌ ◌>>◌
abbrev pub ◌>>=◌ : {S I E A B : Type 0} → M S I E A → (A → M S I E B) → M S I E B
◌>>=◌ m f l xs = followed_by (m l xs) f

abbrev pub ◌>>◌ : {S I E A B : Type 0} → M S I E A → M S I E B → M S I E B
m >> k = m >>= λ _. k

abbrev pub pure : {S I E A : Type 0} → A → M S I E A
pure a l xs = ret a l xs

abbrev pub crash : {S I E A : Type 0} → M S I E A
crash l xs = panicked

abbrev pub starve : {S I E A : Type 0} → M S I E A
starve l xs = out_of_fuel
