-- ===== src/Pattern/Total/GsubPlain.antt =====
-- The loop of `gsub_plain` of crates/luajit-rs/src/stdlib/pattern/engine.rs.
use luajit_rs.Base.{
  ℕ, zero, suc, ◌+◌, ◌≤◌, ◌<◌, ◌≡◌, refl, false, ◌||◌, List, ◌++◌, Option, none, some, ltb, length,
  take, drop, length-drop, ◌-◌, Returns, ok, ◌>>=◌, arith, Bool-cases, Option-cases, inl, inr,
}
use luajit_rs.Pattern.Error.{Result, done, fail}
use luajit_rs.Pattern.Gsub.{
  has_percent, at_limit, slice, slice_from, plain_finish, plain_replacement, gsub_plain_loop,
}
use luajit_rs.Pattern.Invariant.{Returns-bind, Returns-if}
use luajit_rs.Pattern.Plain.{find_bytes_in_slice}
use luajit_rs.Pattern.Plain.First.{find_bytes_in_slice-le}
use luajit_rs.Pattern.Total.Gsub.{substitute_plain_bytes-Ends}

abbrev pub UpTo : Option ℕ → ℕ → Type 0
UpTo none count = Unit {0}
UpTo (some n) count = count ≤ n

-- No more replacements than the caller's limit.
abbrev pub CountPost : Option ℕ → Result (List ℕ × ℕ) → Type 0
CountPost limit (fail e) = Unit {0}
CountPost limit (done (bytes, count)) = UpTo limit count

pub UpTo-suc :
    (limit : Option ℕ) (count : ℕ) → at_limit limit count ≡ false → UpTo limit (count + 1)
UpTo-suc none count h = tt
UpTo-suc (some n) count h = ground arith

slice_from-eq : (text : List ℕ) (a : ℕ) → a ≤ length text → slice_from text a ≡ ok (drop a text)
unfolding slice_from
slice_from-eq text a le = let inside : ltb (length text) a ≡ false = ground arith in rw inside refl

slice-eq :
    (text : List ℕ) (a b : ℕ)
    → a ≤ b
    → b ≤ length text
    → slice text a b ≡ ok (take (b - a) (drop a text))
unfolding slice
slice-eq text a b le inside =
    let fits : (ltb b a || ltb (length text) b) ≡ false = ground arith in rw fits refl

plain_finish-CountPost :
    (text result : List ℕ) (limit : Option ℕ) (pos count : ℕ)
    → pos ≤ length text
    → UpTo limit count
    → Returns (plain_finish text pos count result) (CountPost limit)
unfolding plain_finish
plain_finish-CountPost text result limit pos count le up =
    rw (plain_finish, slice_from-eq text pos le) (_, refl, up)

plain_replacement-Ends :
    (text replacement : List ℕ) (start end : ℕ)
    → start ≤ end
    → end ≤ length text
    → Returns (plain_replacement text replacement start end) (λ r. Unit {0})
unfolding plain_replacement
plain_replacement-Ends text replacement start end le inside =
    Returns-if (has_percent replacement)
      (rw (slice-eq text start end le inside)
        (substitute_plain_bytes-Ends replacement (take (end - start) (drop start text))))
      (done replacement, refl, tt)

pub gsub_plain_loop-total :
    (fuel : ℕ) (text pattern replacement : List ℕ) (limit : Option ℕ) (pos count : ℕ)
    (result : List ℕ)
    → 0 < length pattern
    → pos ≤ length text
    → length text + 1 ≤ fuel + pos
    → UpTo limit count
    → Returns
        (gsub_plain_loop fuel text pattern replacement limit pos count result)
        (CountPost limit)
unfolding gsub_plain_loop
gsub_plain_loop-total zero text pattern replacement limit pos count result p le enough up =
    absurd (omega arith)
gsub_plain_loop-total (suc fuel) text pattern replacement limit pos count result p le enough up =
    let ends = plain_finish-CountPost text result limit pos count le up in
    let tail = slice_from-eq text pos le in
    elim (Bool-cases (ltb (length text) pos || at_limit limit count)) [
      | inl h ↦ rw h ends
      | inr h ↦ elim (Option-cases (find_bytes_in_slice (drop pos text) pattern)) [
        | inl g ↦ rw (h, tail, ◌>>=◌, g) ends
        | inr (k, g) ↦
            let fits = find_bytes_in_slice-le (drop pos text) pattern k g in
            let inside = length-drop pos text in
            let before = slice-eq text pos (pos + k) (omega arith) (omega arith) in
            let next = λ (bytes : List ℕ).
              gsub_plain_loop-total fuel text pattern replacement limit (pos + (k + length pattern))
                (count + 1) (result ++ take (pos + k - pos) (drop pos text) ++ bytes) p
                (omega arith) (omega arith) (UpTo-suc limit count (ground arith)) in
            rw (h, tail, ◌>>=◌, g, before)
              (Returns-bind
                (plain_replacement-Ends text replacement (pos + k) (pos + k + length pattern)
                  (omega arith) (omega arith))
                (elim [ fail e ↦ λ _. (_, refl, tt) | done bytes ↦ λ _. next bytes ]))
      ]
    ]
