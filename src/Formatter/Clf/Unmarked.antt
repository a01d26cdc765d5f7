-- ===== src/Formatter/Clf/Unmarked.antt =====
-- formatter_clf.go: the formatter does not look whether a field is sensitive.
use onelog.Prelude.{◌≡◌, refl, ap, false, Option, none, some, List, [], ◌∷◌, map}
use onelog.Field.{Field, Entry}
use onelog.Formatter.{Printers}
use onelog.Formatter.Json.{TimeCache}
use onelog.Formatter.Clf.{
  ClfFormatter, Parts, find_parts, with_part, no_parts, clf_line, clf_with, clf_cached_time_string,
  format_clf,
}

abbrev pub unmark : Field → Field
unmark f = record f { is_sensitive = false }

find_parts-unmark : (fs : List Field) (x : Parts) → find_parts (map unmark fs) x ≡ find_parts fs x
unfolding find_parts
find_parts-unmark [] x = refl
find_parts-unmark (f ∷ fs) x = find_parts-unmark fs (with_part f x)

-- The output is the same whether fields are marked as sensitive or not: no value is redacted.
pub format_clf-unmark :
    (p : Printers) (f : ClfFormatter) (e : Entry)
    → format_clf p f (record e { fields = map unmark e.fields }) ≡ format_clf p f e
unfolding format_clf
format_clf-unmark p f e = by_cache f.time_cache
  where
    by_cache :
        (c : Option TimeCache)
        → clf_with p f c (record e { fields = map unmark e.fields }) ≡ clf_with p f c e
    by_cache none = refl
    by_cache (some c) =
        let (c', stamp) = clf_cached_time_string p c e.time in
        ap (λ x. some (record f { time_cache = some c' }, clf_line p f stamp x))
          (find_parts-unmark e.fields no_parts)
