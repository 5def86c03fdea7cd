-- ===== src/Compiler/Bc/Ins/Bytes.antt =====
-- A 32-bit word as its four bytes.
use luajit_rs.Base.{ℕ, ◌+◌, ◌*◌, ◌^◌, ◌<◌, bit_and, bit_or, bit_or-fields, bit_and-fields}
use luajit_rs.Base.{◌≡◌, refl}

abbrev pub word : ℕ → ℕ → ℕ → ℕ → ℕ
word o a c b = ((b * 2 ^ 8 + c) * 2 ^ 8 + a) * 2 ^ 8 + o

pub bit_or-word :
    (o a c b o' a' c' b' : ℕ)
    → (o < 2 ^ 8) × (a < 2 ^ 8) × (c < 2 ^ 8)
    → (o' < 2 ^ 8) × (a' < 2 ^ 8) × (c' < 2 ^ 8)
    → bit_or (word o a c b) (word o' a' c' b')
      ≡ word (bit_or o o') (bit_or a a') (bit_or c c') (bit_or b b')
bit_or-word o a c b o' a' c' b' (ho, ha, hc) (ho', ha', hc') =
    rw
      (
        bit_or-fields 8 ((b * 2 ^ 8 + c) * 2 ^ 8 + a) o ((b' * 2 ^ 8 + c') * 2 ^ 8 + a') o' ho ho',
        bit_or-fields 8 (b * 2 ^ 8 + c) a (b' * 2 ^ 8 + c') a' ha ha',
        bit_or-fields 8 b c b' c' hc hc',
      )
      refl

pub bit_and-word :
    (o a c b o' a' c' b' : ℕ)
    → (o < 2 ^ 8) × (a < 2 ^ 8) × (c < 2 ^ 8)
    → (o' < 2 ^ 8) × (a' < 2 ^ 8) × (c' < 2 ^ 8)
    → bit_and (word o a c b) (word o' a' c' b')
      ≡ word (bit_and o o') (bit_and a a') (bit_and c c') (bit_and b b')
bit_and-word o a c b o' a' c' b' (ho, ha, hc) (ho', ha', hc') =
    rw
      (
        bit_and-fields 8 ((b * 2 ^ 8 + c) * 2 ^ 8 + a) o ((b' * 2 ^ 8 + c') * 2 ^ 8 + a') o' ho ho',
        bit_and-fields 8 (b * 2 ^ 8 + c) a (b' * 2 ^ 8 + c') a' ha ha',
        bit_and-fields 8 b c b' c' hc hc',
      )
      refl
