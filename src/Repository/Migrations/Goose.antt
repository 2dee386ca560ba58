-- ===== src/Repository/Migrations/Goose.antt =====
-- `extractGooseUp` (internal/repository/store.go) beside a description of it, and on a whole file.
use temporal_durable_event_p.Base.{
  String, Bool, true, false, not, ◌&&◌, List, [], ◌∷◌, ◌++◌, ◌≡◌, refl, arith, keep, eq_iff,
  if◌then◌else◌, ◌≢◌,
}
use mathlib.Core.List.{append-nil}
use temporal_durable_event_p.Base.Text.{
  trim_space, has_prefix, split_lines, join_lines, is_nil, AreLines, split_lines-join_lines_lem,
}
use temporal_durable_event_p.Repository.Db.Ordering.{All}
use temporal_durable_event_p.Repository.Migrations.{
  is_marker, is_up, is_down, up_lines, extract_goose_up,
}

-- The lines before the first marker `Down`.
abbrev pub before_down : List String → List String
before_down [] = []
before_down (line ∷ lines) =
    let rest = before_down lines in if is_down line then [] else line ∷ rest

-- The lines behind the first marker `Up`.
abbrev pub after_up : List String → List String
after_up [] = []
after_up (line ∷ lines) = let rest = after_up lines in if is_up line then lines else rest

-- A line that is neither blank nor a marker of goose.
abbrev pub is_text : String → Bool
is_text line = not (is_marker line) && not (is_nil (trim_space line))

is_down-is_marker : (line : String) → is_down line ≡ true → is_marker line ≡ true
unfolding has_prefix
is_down-is_marker line h = rw ((eq_iff (trim_space line) "-- +goose Down").0 h) refl

is_up-is_marker : (line : String) → is_up line ≡ true → is_marker line ≡ true
unfolding has_prefix
is_up-is_marker line h = rw ((eq_iff (trim_space line) "-- +goose Up").0 h) refl

is_up-is_down : (line : String) → is_up line ≡ true → is_down line ≡ false
is_up-is_down line h = rw ((eq_iff (trim_space line) "-- +goose Up").0 h) refl

up_lines-true : (lines : List String) → up_lines true lines ≡ keep is_text (before_down lines)
unfolding up_lines
up_lines-true [] = refl
up_lines-true (line ∷ lines) =
    ground (arith, up_lines-true lines, is_down-is_marker line, is_up-is_down line)

up_lines-false :
    (lines : List String) → up_lines false lines ≡ keep is_text (after_up (before_down lines))
unfolding up_lines
up_lines-false [] = refl
up_lines-false (line ∷ lines) = ground (
  arith,
  up_lines-false lines,
  up_lines-true lines,
  is_up-is_marker line,
  is_down-is_marker line,
  is_up-is_down line,
)

-- For every content, `extractGooseUp` gives the lines behind the first marker `Up` and before the
-- first marker `Down`, without blank lines and other markers of goose.
pub extract_goose_up-eq :
    (content : String)
    → extract_goose_up content
      ≡ join_lines (keep is_text (after_up (before_down (split_lines content))))
unfolding extract_goose_up
extract_goose_up-eq content = rw (up_lines-false (split_lines content)) refl

no_marker : (line : String) → is_marker line ≡ false → (is_up line ≡ false) × (is_down line ≡ false)
no_marker line h = ground (arith, is_up-is_marker line, is_down-is_marker line)

before_down-append :
    (ls rest : List String)
    → All (λ l. is_marker l ≡ false) ls
    → before_down (ls ++ rest) ≡ ls ++ before_down rest
before_down-append [] rest h = refl
before_down-append (l ∷ ls) rest h = rw ((no_marker l h.0).1, before_down-append ls rest h.1) refl

after_up-append :
    (ls rest : List String)
    → All (λ l. is_marker l ≡ false) ls
    → after_up (ls ++ rest) ≡ after_up rest
after_up-append [] rest h = refl
after_up-append (l ∷ ls) rest h = rw ((no_marker l h.0).0, after_up-append ls rest h.1) refl

append_cons-ne-nil : (ls rest : List String) (l : String) → ls ++ l ∷ rest ≢ []
append_cons-ne-nil [] rest l = λ e. cc
append_cons-ne-nil (x ∷ ls) rest l = λ e. cc

-- From a file whose lines are some without markers, a marker `Up`, a body without markers, a marker
-- `Down` and a rest, `extractGooseUp` takes the lines of the body that are not blank.
pub extract_goose_up-section :
    (head body rest : List String) (up down : String)
    → All (λ l. is_marker l ≡ false) head
    → is_up up ≡ true
    → All (λ l. is_marker l ≡ false) body
    → is_down down ≡ true
    → AreLines (head ++ up ∷ (body ++ down ∷ rest))
    → extract_goose_up (join_lines (head ++ up ∷ (body ++ down ∷ rest)))
      ≡ join_lines (keep is_text body)
extract_goose_up-section head body rest up down h u b d lines =
    rw
      (
        extract_goose_up-eq,
        split_lines-join_lines_lem (head ++ up ∷ (body ++ down ∷ rest))
            (append_cons-ne-nil head (body ++ down ∷ rest) up) lines,
        before_down-append head (up ∷ (body ++ down ∷ rest)) h,
        is_up-is_down up u,
        before_down-append body (down ∷ rest) b,
        d,
        after_up-append head (up ∷ (body ++ [])) h,
        u,
        append-nil body,
      )
      refl
