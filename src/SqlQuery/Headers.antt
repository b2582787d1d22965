-- ===== src/SqlQuery/Headers.antt =====
-- The columns of a query of core/storage/sql_query: their names and their targets.
use csql.Base.{
  suc, ◌≡◌, refl, sym, ap, ◌∙◌, true, false, inl, inr, List, [], ◌∷◌, ◌++◌, length, arith, Str,
  codes, Bool-cases,
}
use mathlib.Core.Path.{subst}
use csql.Base.Text.{str_eq, str_eq_refl}
use csql.Base.Result.{ok, err, errors, ok_injective}
use csql.Expression.Aggregates.{TargetExpression}
use csql.SqlQuery.{SqlQuery, has_header, add_header, add_target, find_target, get_target}

abbrev pub IsDistinct : List Str → Type 0
IsDistinct [] = Unit {0}
IsDistinct (h ∷ hs) = (has_header h hs ≡ false) × IsDistinct hs

-- The columns have different names, and each has its target.
pub record IsAligned (q : SqlQuery) : Type 0 where
  pub distinct : IsDistinct q.headers
  pub aligned : length q.headers ≡ length q.targets

has_header-append :
    (name other : Str) (hs : List Str)
    → has_header name hs ≡ false
    → str_eq other name ≡ false
    → has_header name (hs ++ other ∷ []) ≡ false
unfolding has_header
has_header-append name other [] absent differs = rw differs refl
has_header-append name other (h ∷ hs) absent differs =
    ground (arith, has_header-append name other hs)

str_eq_sym : (s t : Str) → str_eq s t ≡ str_eq t s
unfolding str_eq
str_eq_sym [] [] = refl
str_eq_sym [] (b ∷ t) = refl
str_eq_sym (a ∷ s) [] = refl
str_eq_sym (a ∷ s) (b ∷ t) = ground (arith, str_eq_sym s t)

append-IsDistinct :
    (name : Str) (hs : List Str)
    → IsDistinct hs
    → has_header name hs ≡ false
    → IsDistinct (hs ++ name ∷ [])
unfolding has_header
append-IsDistinct name [] d absent = (refl, tt)
append-IsDistinct name (h ∷ hs) d absent =
    let differs : str_eq name h ≡ false = str_eq_sym name h ∙ ground arith in
    let later : has_header name hs ≡ false = ground arith in
    (has_header-append h name hs d.0 differs, append-IsDistinct name hs d.1 later)

-- The column that was added, and the columns before it.
find_target-new :
    (name : Str) (t : TargetExpression) (hs : List Str) (ts : List TargetExpression)
    → length hs ≡ length ts
    → has_header name hs ≡ false
    → find_target name (hs ++ name ∷ []) (ts ++ t ∷ []) ≡ ok t
unfolding find_target has_header
find_target-new name t [] [] same absent = rw (str_eq_refl name) refl
find_target-new name t [] (u ∷ ts) same absent = absurd (omega arith)
find_target-new name t (h ∷ hs) [] same absent = absurd (omega arith)
find_target-new name t (h ∷ hs) (u ∷ ts) same absent =
    ground (arith, find_target-new name t hs ts (omega arith))

find_target-old :
    (name other : Str) (t : TargetExpression) (hs : List Str) (ts : List TargetExpression)
    → length hs ≡ length ts
    → has_header other hs ≡ true
    → find_target other (hs ++ name ∷ []) (ts ++ t ∷ []) ≡ find_target other hs ts
unfolding find_target has_header
find_target-old name other t [] ts same found = cc
find_target-old name other t (h ∷ hs) [] same found = absurd (omega arith)
find_target-old name other t (h ∷ hs) (u ∷ ts) same found =
    ground (arith, find_target-old name other t hs ts (omega arith))

length-append {ℓ} : {A : Type ℓ} (a : A) (xs : List A) → length (xs ++ a ∷ []) ≡ suc (length xs)
length-append a [] = refl
length-append a (x ∷ xs) = rw (length-append a xs)

add_target-columns :
    (q q' : SqlQuery) (t : TargetExpression) (name : Str)
    → add_target q t name ≡ ok q'
    → (has_header name q.headers ≡ false)
      × (q'.headers ≡ q.headers ++ name ∷ [])
      × (q'.targets ≡ q.targets ++ t ∷ [])
unfolding add_target add_header
add_target-columns q q' t name added = elim (Bool-cases (has_header name q.headers)) [
  | inl here ↦
      let failed : add_target q t name ≡ err (errors (codes "Column name is duplicated")) =
        rw here refl in
      let clash : err (errors (codes "Column name is duplicated")) ≡ ok q' = sym failed ∙ added in
      absurd cc
  | inr new ↦
      let made = record q {
        targets = q.targets ++ t ∷ [];
        is_selected_all = false;
        is_aggregated = true;
        headers = q.headers ++ name ∷ [];
      } in
      let returns : add_target q t name ≡ ok made = rw new refl in
      let e : made ≡ q' = ok_injective made q' (sym returns ∙ added) in
      (new, ap (λ r. r.headers) (sym e), ap (λ r. r.targets) (sym e))
]

-- Adding a target that has a new column name keeps the names different and each with its target,
-- makes the name find the target, and leaves what every other name of a column finds.
pub add_target-IsAligned :
    (q q' : SqlQuery) (t : TargetExpression) (name : Str)
    → IsAligned q
    → add_target q t name ≡ ok q'
    → IsAligned q'
      × (get_target q' name ≡ ok t)
      × ((other : Str)
          → has_header other q.headers ≡ true
          → get_target q' other ≡ get_target q other)
unfolding get_target
add_target-IsAligned q q' t name is added =
    let (new, heads, targets) = add_target-columns q q' t name added in
    let as_many : length q'.headers ≡ length q'.targets =
      rw (heads, targets, length-append name q.headers, length-append t q.targets, is.aligned)
        refl in
    (
      record {
        distinct = subst IsDistinct (sym heads) (append-IsDistinct name q.headers is.distinct new);
        aligned = as_many;
      },
      rw (heads, targets) (find_target-new name t q.headers q.targets is.aligned new),
      λ other found.
          rw (heads, targets) (find_target-old name other t q.headers q.targets is.aligned found),
    )
