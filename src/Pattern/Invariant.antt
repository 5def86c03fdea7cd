-- ===== src/Pattern/Invariant.antt =====
-- The invariant of the match state of crates/luajit-rs/src/stdlib/pattern/engine.rs, and what a
-- call of the matcher promises.
use luajit_rs.Base.{
  ℕ, ◌+◌, ◌≤◌, ◌<◌, ◌≡◌, refl, sym, ◌∙◌, Bool, true, false, List, Option, none, some, if◌then◌else◌,
  length, get_elem?, Run, ◌>>=◌, Returns, arith,
}
use luajit_rs.Pattern.Match.{Outcome, Matcher}
use luajit_rs.Pattern.Safe.{Safe}
use luajit_rs.Pattern.State.{MatchState, Capture, CaptureLen, CapKind, lua_maxcaptures}

-- how many bytes of the text a capture covers
abbrev pub width : CaptureLen → ℕ
width (CaptureLen.len l) = l
width CaptureLen.position = 0
width CaptureLen.unfinished = 0

abbrev pub kind_of : CaptureLen → CapKind
kind_of (CaptureLen.len _) = CapKind.closed
kind_of CaptureLen.position = CapKind.position
kind_of CaptureLen.unfinished = CapKind.unfinished

-- A capture lies in the text that is matched up to `si`, and its kind agrees with its length.
abbrev pub Within : ℕ → Capture → Type 0
Within si cap = (cap.start + width cap.len ≤ si) × (kind_of cap.len ≡ cap.kind)

pub record Inv (si : ℕ) (ms : MatchState) : Type 0 where
  pub slots : length ms.captures ≡ lua_maxcaptures
  pub used : ms.num_captures ≤ lua_maxcaptures
  pub within :
      (i : ℕ) (cap : Capture)
      → i < ms.num_captures
      → get_elem? ms.captures i ≡ some cap
      → Within si cap

-- What a failed attempt leaves as it was: the depth, the count, and the captures in use.
pub record Same (before after : MatchState) : Type 0 where
  pub depth : after.depth ≡ before.depth
  pub count : after.num_captures ≡ before.num_captures
  pub slots : length after.captures ≡ length before.captures
  pub kept :
      (i : ℕ) → i < before.num_captures → get_elem? after.captures i ≡ get_elem? before.captures i

-- A success ends in the text, at or behind `si`; a failure restores the captures.
abbrev pub Post : List ℕ → ℕ → MatchState → Option ℕ × MatchState → Type 0
Post text si ms (some end, after) =
    (si ≤ end) × (end ≤ length text) × Inv end after × (after.depth ≡ ms.depth)
Post text si ms (none, after) = Same ms after

-- A matcher that keeps its promise at depth `d`, on patterns shorter than `n`.
abbrev pub Keeps : List ℕ → ℕ → ℕ → Matcher → Type 0
Keeps text d n again =
    (si : ℕ) (p : List ℕ) (ms : MatchState)
    → length p < n
    → si ≤ length text
    → Safe p
    → Inv si ms
    → ms.depth ≡ d
    → Returns (again si p ms) (Post text si ms)

abbrev pub KeepsAll : List ℕ → ℕ → Matcher → Type 0
KeepsAll text d again =
    (si : ℕ) (p : List ℕ) (ms : MatchState)
    → si ≤ length text
    → Safe p
    → Inv si ms
    → ms.depth ≡ d
    → Returns (again si p ms) (Post text si ms)

pub Same-refl : (ms : MatchState) → Same ms ms
Same-refl ms = record { depth = refl; count = refl; slots = refl; kept = λ i h. refl }

pub Same-trans : {a b c : MatchState} → Same a b → Same b c → Same a c
Same-trans s t = record {
  depth = t.depth ∙ s.depth;
  count = t.count ∙ s.count;
  slots = t.slots ∙ s.slots;
  kept = λ i h. t.kept i (omega (arith, s.count)) ∙ s.kept i h;
}

pub Inv-Same : {si : ℕ} {a b : MatchState} → Inv si a → Same a b → Inv si b
Inv-Same v s = record {
  slots = s.slots ∙ v.slots;
  used = omega (arith, s.count, v.used);
  within = λ i cap h e.
      let j : i < _ = omega (arith, s.count) in v.within i cap j (sym (s.kept i j) ∙ e);
}

pub Inv-mono : {si end : ℕ} {ms : MatchState} → si ≤ end → Inv si ms → Inv end ms
Inv-mono le v = record {
  slots = v.slots;
  used = v.used;
  within = λ i cap h e. let (w, k) = v.within i cap h e in (omega arith, k);
}

module _ (text : List ℕ) where
  -- a failed attempt before a second one
  pub Post-Same :
      (si : ℕ) {a b : MatchState} (r : Option ℕ × MatchState)
      → Same a b
      → Post text si b r
      → Post text si a r
  Post-Same si (none, after) s p = Same-trans s p
  Post-Same si (some end, after) s p = (p.0, p.1, p.2, p.3 ∙ s.depth)

  pub Post-none :
      (si : ℕ) (ms : MatchState) (r : Option ℕ × MatchState)
      → r.0 ≡ none
      → Same ms r.1
      → Post text si ms r
  Post-none si ms (none, after) e s = s
  Post-none si ms (some end, after) e s = cc

  -- an attempt further on in the text
  pub Post-later :
      (si later : ℕ) (ms : MatchState) (r : Option ℕ × MatchState)
      → si ≤ later
      → Post text later ms r
      → Post text si ms r
  Post-later si later ms (none, after) le p = p
  Post-later si later ms (some end, after) le p = (omega (arith, p.0), p.1, p.2, p.3)

  -- an attempt and what is done with its result
  pub Post-bind {κ} :
      {si : ℕ} {ms : MatchState} {m : Outcome} (f : Option ℕ × MatchState → Outcome)
      (Q : Option ℕ × MatchState → Type κ)
      → Returns m (Post text si ms)
      → ((end : ℕ) (after : MatchState)
          → Post text si ms (some end, after)
          → Returns (f (some end, after)) Q)
      → ((after : MatchState) → Same ms after → Returns (f (none, after)) Q)
      → Returns (m >>= f) Q
  Post-bind f Q ((some end, after), e, p) good bad = rw e (good end after p)
  Post-bind f Q ((none, after), e, p) good bad = rw e (bad after p)

pub Returns-bind {ℓ κ} :
    {A B : Type ℓ} {P : A → Type κ} {Q : B → Type κ} {m : Run A} {f : A → Run B}
    → Returns m P
    → ((a : A) → P a → Returns (f a) Q)
    → Returns (m >>= f) Q
Returns-bind {Q = Q} {f = f} (a, e, p) k = rw e (k a p)

pub Returns-map {ℓ κ} :
    {A : Type ℓ} {P Q : A → Type κ} {m : Run A} → Returns m P → ((a : A) → P a → Q a) → Returns m Q
Returns-map (a, e, p) k = (a, e, k a p)

pub Returns-if {ℓ κ} :
    {A : Type ℓ} {P : A → Type κ} {m n : Run A} (b : Bool)
    → Returns m P
    → Returns n P
    → Returns (if b then m else n) P
Returns-if true p q = p
Returns-if false p q = q
