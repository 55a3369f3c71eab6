-- ===== src/Release/Files.antt =====
-- What filterTrackedFiles of internal/releasecandidate/releasecandidate.go includes, and in which order.
use parser_go.Prelude.{
  Text, text_eq, text_eq_iff, text_eq_refl, subst, text_eq→eq, text_lt, text_lt_irrefl,
  text_lt_trans, text_lt_total, Bool, true, false, ◌&&◌, ◌||◌, not, ◌≡◌, refl, ◌∙◌, List, [], ◌∷◌,
  arith, Bool-cases, inl, inr, any,
}
use parser_go.Prelude.Sorting.{IsStrictTotal, sort, insert, IsSorted, NoneBefore, sort-IsSorted}
use parser_go.Api.Space.{trim_space}
use parser_go.Release.Filter.{include_path, includes_file, filter_loop, filter_tracked_files}

text_lt-IsStrictTotal : IsStrictTotal text_lt
text_lt-IsStrictTotal = record {
  irrefl = text_lt_irrefl;
  trans = text_lt_trans;
  total = λ s t h k. ground (arith, text_lt_total s t, text_eq_iff s t);
}

-- A path that may be in an archive, and stands in the list of tracked files.
abbrev pub wanted : List Text → Text → Bool
wanted tracked path =
    not (text_eq path [])
    && (include_path path && any (λ rel. text_eq (trim_space rel) path) tracked)

-- A tracked file that gives the path, and one that gives another.
includes_file-taken :
    (seen tracked : List Text) (rel : Text)
    → ((seen : List Text)
        → includes_file (filter_loop seen tracked) (trim_space rel)
          ≡ (not (includes_file seen (trim_space rel)) && wanted tracked (trim_space rel)))
    → includes_file (filter_loop seen (rel ∷ tracked)) (trim_space rel)
      ≡ (not (includes_file seen (trim_space rel)) && wanted (rel ∷ tracked) (trim_space rel))
unfolding filter_loop includes_file
includes_file-taken seen tracked rel ih = ground (arith, ih seen, text_eq_refl (trim_space rel))

includes_file-other :
    (seen tracked : List Text) (rel path : Text)
    → text_eq (trim_space rel) path ≡ false
    → ((seen : List Text)
        → includes_file (filter_loop seen tracked) path
          ≡ (not (includes_file seen path) && wanted tracked path))
    → includes_file (filter_loop seen (rel ∷ tracked)) path
      ≡ (not (includes_file seen path) && wanted (rel ∷ tracked) path)
unfolding filter_loop includes_file
includes_file-other seen tracked rel path o ih = ground (arith, ih seen, ih (trim_space rel ∷ seen))

includes_file-filter_loop :
    (seen tracked : List Text) (path : Text)
    → includes_file (filter_loop seen tracked) path
      ≡ (not (includes_file seen path) && wanted tracked path)
unfolding filter_loop includes_file
includes_file-filter_loop seen [] path = ground arith
includes_file-filter_loop seen (rel ∷ tracked) path =
    elim (Bool-cases (text_eq (trim_space rel) path)) [
      | inl t ↦
          subst
            (λ p.
              includes_file (filter_loop seen (rel ∷ tracked)) p
              ≡ (not (includes_file seen p) && wanted (rel ∷ tracked) p))
            (text_eq→eq (trim_space rel) path t)
            (includes_file-taken seen tracked rel
              (λ seen. includes_file-filter_loop seen tracked (trim_space rel)))
      | inr f ↦
          includes_file-other seen tracked rel path f
            (λ seen. includes_file-filter_loop seen tracked path)
    ]

-- No path stands twice.
abbrev IsOnce : List Text → Type 0
IsOnce [] = Unit {0}
IsOnce (p ∷ ps) = (includes_file ps p ≡ false) × IsOnce ps

filter_loop-IsOnce : (seen tracked : List Text) → IsOnce (filter_loop seen tracked)
unfolding filter_loop includes_file
filter_loop-IsOnce seen [] = tt
filter_loop-IsOnce seen (rel ∷ tracked) =
    let normalized = trim_space rel in
    elim (Bool-cases (text_eq normalized [] || not (include_path normalized))) [
      | inl e ↦ rw e (filter_loop-IsOnce seen tracked)
      | inr e ↦ elim (Bool-cases (includes_file seen normalized)) [
        | inl f ↦ rw (e, f) (filter_loop-IsOnce seen tracked)
        | inr f ↦
            rw (e, f)
              (
                rw
                    (
                      includes_file-filter_loop (normalized ∷ seen) tracked normalized,
                      text_eq_refl normalized,
                    )
                    refl,
                filter_loop-IsOnce (normalized ∷ seen) tracked,
              )
      ]
    ]

includes_file-insert :
    (x p : Text) (ps : List Text)
    → includes_file (insert text_lt x ps) p ≡ (text_eq x p || includes_file ps p)
unfolding insert includes_file
includes_file-insert x p [] = ground arith
includes_file-insert x p (q ∷ ps) = ground (arith, includes_file-insert x p ps)

includes_file-sort :
    (p : Text) (ps : List Text) → includes_file (sort text_lt ps) p ≡ includes_file ps p
unfolding sort includes_file
includes_file-sort p [] = refl
includes_file-sort p (x ∷ ps) =
    ground (arith, includes_file-insert x p (sort text_lt ps), includes_file-sort p ps)

insert-IsOnce :
    (x : Text) (ps : List Text)
    → includes_file ps x ≡ false
    → IsOnce ps
    → IsOnce (insert text_lt x ps)
unfolding insert includes_file
insert-IsOnce x [] n o = (refl, tt)
insert-IsOnce x (q ∷ ps) n o = ground (
  arith,
  includes_file-insert x q ps,
  text_eq_iff x q,
  text_eq_iff q x,
  insert-IsOnce x ps (ground arith) o.1,
)

sort-IsOnce : (ps : List Text) → IsOnce ps → IsOnce (sort text_lt ps)
unfolding sort
sort-IsOnce [] o = tt
sort-IsOnce (x ∷ ps) o =
    insert-IsOnce x (sort text_lt ps) (rw (includes_file-sort x ps) o.0) (sort-IsOnce ps o.1)

abbrev pub AllAfter : Text → List Text → Type 0
AllAfter p [] = Unit {0}
AllAfter p (q ∷ ps) = (text_lt p q ≡ true) × AllAfter p ps

-- Each path comes before all that follow it.
abbrev pub IsIncreasing : List Text → Type 0
IsIncreasing [] = Unit {0}
IsIncreasing (p ∷ ps) = AllAfter p ps × IsIncreasing ps

NoneBefore-AllAfter :
    (p : Text) (ps : List Text)
    → NoneBefore text_lt p ps
    → includes_file ps p ≡ false
    → AllAfter p ps
unfolding includes_file
NoneBefore-AllAfter p [] n o = tt
NoneBefore-AllAfter p (q ∷ ps) n o =
    (ground (arith, text_lt_total q p), NoneBefore-AllAfter p ps n.1 (ground arith))

IsSorted-IsIncreasing : (ps : List Text) → IsSorted text_lt ps → IsOnce ps → IsIncreasing ps
IsSorted-IsIncreasing [] s o = tt
IsSorted-IsIncreasing (p ∷ ps) s o =
    (NoneBefore-AllAfter p ps s.0 o.0, IsSorted-IsIncreasing ps s.1 o.1)

-- The files of a release archive are, in increasing order and so each once, exactly the paths that
-- includePath lets through among the tracked files, with the space around them cut and without
-- empty ones.
pub filter_tracked_files_lem :
    (tracked : List Text) (path : Text)
    → (includes_file (filter_tracked_files tracked) path ≡ wanted tracked path)
      × IsIncreasing (filter_tracked_files tracked)
unfolding filter_tracked_files includes_file
filter_tracked_files_lem tracked path =
    let files = filter_loop [] tracked in
    (
      includes_file-sort path files ∙ includes_file-filter_loop [] tracked path,
      IsSorted-IsIncreasing (sort text_lt files) (sort-IsSorted text_lt-IsStrictTotal files)
          (sort-IsOnce files (filter_loop-IsOnce [] tracked)),
    )
