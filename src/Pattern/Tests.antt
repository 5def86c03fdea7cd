-- ===== src/Pattern/Tests.antt =====
-- Runs of the pattern matcher on concrete texts.
use Prim.Native.Char.{code}
use Prim.Native.String.{String}
use luajit_rs.Base.{
  ℕ, ◌≡◌, refl, List, [], ◌∷◌, none, some, ok, panic, ◌≢◌, Returns, arith, ◌==◌, ◌&&◌, ◌||◌, not,
  false, ◌-◌,
}
use luajit_rs.Pattern.Class.{
  match_class, match_escape, is_class_letter, matchset, matchset_loop, singlematch, set_end,
  element_end,
}
use luajit_rs.Pattern.Class.Laws.{isspace, match_class_algebra, match_escape-upper}
use luajit_rs.Pattern.Invariant.{Post}
use luajit_rs.Pattern.Safe.{Safe, validate_pattern-Safe}
use luajit_rs.Pattern.State.{new, reset}
use luajit_rs.Pattern.Total.Inner.{match_impl_backtracks}
use luajit_rs.Pattern.Error.{done, fail, ends_with_percent, invalid_capture}
use luajit_rs.Pattern.Find.{substring, position, find, find_assume_valid, find_impl}
use luajit_rs.Pattern.FindAll.{find_all_matches}
use luajit_rs.Pattern.Gsub.{gsub, has_percent, substitute_plain_bytes}
use luajit_rs.Pattern.Match.{match_impl}
use luajit_rs.Pattern.Plain.{find_bytes_in_slice}
use luajit_rs.Pattern.Plain.First.{FirstPost, find_bytes_in_slice-first}
use luajit_rs.Pattern.Repeat.{count_run}
use luajit_rs.Pattern.Repeat.Equivalence.{count_max_repetition-count_run}
use luajit_rs.Pattern.Total.Find.{FoundPost, find-total, find_assume_valid-total}
use luajit_rs.Pattern.Total.Attempt.{new-HasSlots, reset-Inv, reset-depth}
use luajit_rs.Pattern.Total.FindAll.{ScanPost, find_all_matches-total}
use luajit_rs.Pattern.Total.GsubLoop.{gsub-total}
use luajit_rs.Pattern.Total.GsubPlain.{CountPost}
use luajit_rs.Pattern.Validate.{validate_set_loop, pattern_start}
use luajit_rs.Pattern.Repeat.{count_max_repetition}

abbrev bytes : String → List ℕ
bytes String.[] = []
bytes (String.◌∷◌ c s) = code c ∷ bytes s

program : Unit {0}
unfolding match_class match_escape is_class_letter matchset matchset_loop singlematch set_end
    element_end count_max_repetition match_impl find find_impl find_all_matches gsub has_percent
    substitute_plain_bytes validate_set_loop
program = tt

-- captures of a key and a value
find-key_value :
    find (bytes "x = 42;") (bytes "(%a+)%s*=%s*(%d+)") 0
    ≡ ok (done (some (0, 6, substring 0 1 ∷ substring 4 6 ∷ [])))
unfolding program
find-key_value = refl

find-set : find (bytes "key]1") (bytes "()[]%d]+$") 0 ≡ ok (done (some (3, 5, position 4 ∷ [])))
unfolding program
find-set = refl

find-lazy : find (bytes "<a><b>") (bytes "<.->") 1 ≡ ok (done (some (3, 6, [])))
unfolding program
find-lazy = refl

find-balanced : find (bytes "f(a(b)c)d") (bytes "%b()") 0 ≡ ok (done (some (1, 8, [])))
unfolding program
find-balanced = refl

find-backref :
    find (bytes "say \"hi\"") (bytes "([\"'])(.-)%1") 0
    ≡ ok (done (some (4, 8, substring 4 5 ∷ substring 5 7 ∷ [])))
unfolding program
find-backref = refl

find-frontier :
    find (bytes "THE (quick) fox") (bytes "%f[%a]%a+%f[%A]") 1 ≡ ok (done (some (5, 10, [])))
unfolding program
find-frontier = refl

find-malformed : find (bytes "abc") (bytes "%a%") 0 ≡ ok (fail ends_with_percent)
unfolding program
find-malformed = refl

find-unopened : find (bytes "abc") (bytes "%a)") 0 ≡ ok (fail invalid_capture)
unfolding program
find-unopened = refl

gsub-swap :
    gsub (bytes "hello world") (bytes "(%w+) (%w+)") (bytes "%2 %1%%") none
    ≡ ok (done (bytes "world hello%", 1))
unfolding program
gsub-swap = refl

gsub-empty : gsub (bytes "ab") (bytes "x*") (bytes "-") none ≡ ok (done (bytes "-a-b-", 3))
unfolding program
gsub-empty = refl

gsub-plain :
    gsub (bytes "aXbXc") (bytes "X") (bytes "%0%0") (some 1) ≡ ok (done (bytes "aXXbXc", 1))
unfolding program
gsub-plain = refl

-- behind a non-empty match that ends the text, `find_all_matches` still reports an empty match
find_all-at_end :
    find_all_matches (bytes "a") (bytes "%a*") 0 none
    ≡ ok (
        done (
          record { start = 0; end = 1; captures = [] }
          ∷ record { start = 1; end = 1; captures = [] }
          ∷ []))
unfolding program
find_all-at_end = refl

gsub-at_end : gsub (bytes "a") (bytes "%a*") (bytes "x") none ≡ ok (done (bytes "x", 1))
unfolding program
gsub-at_end = refl

find-total_example :
    Returns (find (bytes "x = 42;") (bytes "(%a+)%s*=%s*(%d+)") 0) (FoundPost (bytes "x = 42;") 0)
find-total_example = find-total (bytes "x = 42;") (bytes "(%a+)%s*=%s*(%d+)") 0

find_assume_valid-total_example :
    Returns (find_assume_valid (bytes "f(a)") (bytes "%b()") 0) (FoundPost (bytes "f(a)") 0)
find_assume_valid-total_example =
    find_assume_valid-total (bytes "f(a)") (bytes "%b()") 0 (unfold program in refl)

gsub-total_example :
    Returns (gsub (bytes "aXbXc") (bytes "%u(.)") (bytes "%1") (some 1)) (CountPost (some 1))
gsub-total_example = gsub-total (bytes "aXbXc") (bytes "%u(.)") (bytes "%1") (some 1)

find_all_matches-total_example :
    Returns
      (find_all_matches (bytes "k1 k2") (bytes "%a()%d") 1 (some 3))
      (ScanPost (bytes "k1 k2") 1 (some 3))
find_all_matches-total_example = find_all_matches-total (bytes "k1 k2") (bytes "%a()%d") 1 (some 3)

find_bytes_in_slice-first_example :
    FirstPost (bytes "banana") (bytes "nan") 0 (find_bytes_in_slice (bytes "banana") (bytes "nan"))
find_bytes_in_slice-first_example = find_bytes_in_slice-first (bytes "banana") (bytes "nan")

readable : (c : ℕ) → singlematch c (bytes "%a*") ≢ panic
unfolding singlematch
readable c e = cc

count_max_repetition-count_run_example :
    count_max_repetition (bytes "abc1") (bytes "%a*")
    ≡ count_run (λ c. singlematch c (bytes "%a*")) (bytes "abc1")
count_max_repetition-count_run_example =
    count_max_repetition-count_run (bytes "abc1") (bytes "%a*") readable

match_class_algebra_example :
    (match_class 11 b's' ≡ (isspace 11 && not (11 == 11)))
    × (match_class 11 b'g' ≡ (match_class 11 b'w' || match_class 11 b'p'))
    × ((match_class 11 b'w' && match_class 11 b'p') ≡ false)
    × (match_class 11 b'w' ≡ (match_class 11 b'a' || match_class 11 b'd'))
    × ((match_class 11 b'a' && match_class 11 b'd') ≡ false)
match_class_algebra_example = match_class_algebra 11

match_escape-upper_example : match_escape b'7' (b'd' - 32) ≡ not (match_escape b'7' b'd')
match_escape-upper_example = match_escape-upper b'7' b'd' refl (unfold is_class_letter in refl)

escape_a : Safe (bytes "%a+(%d)")
unfolding pattern_start
escape_a = validate_pattern-Safe (bytes "%a+(%d)") (unfold program in refl)

match_impl_backtracks_example :
    Returns
      (match_impl (bytes "ab1") 201 0 (bytes "%a+(%d)") (reset new))
      (Post (bytes "ab1") 0 (reset new))
match_impl_backtracks_example =
    match_impl_backtracks (bytes "ab1") (bytes "%a+(%d)") 0 201 (reset new) escape_a (omega arith)
      (reset-Inv 0 new new-HasSlots) (omega (arith, reset-depth new))
      (omega (arith, reset-depth new))
