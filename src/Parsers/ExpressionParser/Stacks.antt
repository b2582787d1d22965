-- ===== src/Parsers/ExpressionParser/Stacks.antt =====
-- core/controller/tokenizer/expression_parser: values, and the work on the two stacks, end.
use csql.Base.{
  ℕ, false, ◌&&◌, ◌||◌, List, [], ◌∷◌, leb, ◌==◌, length, map, if◌then◌else◌, Str, str_eq, codes,
}
use csql.Base.Assoc.{mem, nat_eq}
use csql.Base.Result.{ok, errors, or_fail, guard}
use csql.Base.Ends.{Ends, Anything, bind-Ends, either-Ends, or_fail-Ends, if-Ends, guard-Ends}
use csql.Types.{DataTypes, SqlTypes, sql_bool, Floats}
use csql.Convert.{covert_string_to_sql_type, lower_char, stoi, stoull}
use csql.Operators.{SetTypes}
use csql.Expression.{Expression, make_set, all_same}
use csql.Tokenizer.{TokenType, Token}
use csql.Tokenizer.Keywords.{SqlKeywords, SqlOperators}
use csql.Tokenizer.Cursor.{has_type, keyword_place, operator_place}
use csql.Parsers.ExpressionParser.{
  covert_token_to_sql_type, exe_op, unwind, settle, drain, get_priority,
}

covert_string-Ends :
    (f : Floats) (d : DataTypes) (s : Str) → Ends Anything (covert_string_to_sql_type f d s)
unfolding covert_string_to_sql_type
covert_string-Ends f DataTypes.bool_type s =
    let low = map lower_char s in
    if-Ends Anything (str_eq low (codes "true")) _ _ tt
      (if-Ends Anything (str_eq low (codes "false")) (ok (sql_bool false)) _ tt tt)
covert_string-Ends f DataTypes.int_type s =
    let invalid = errors (codes "Invalid value for int type") in
    bind-Ends Anything Anything (or_fail (stoi s) invalid) _
      (or_fail-Ends Anything (stoi s) invalid tt (λ v e. tt)) (λ v d. tt)
covert_string-Ends f DataTypes.float_type s =
    let invalid = errors (codes "Invalid value for float type") in
    bind-Ends Anything Anything (or_fail (f.stof s) invalid) _
      (or_fail-Ends Anything (f.stof s) invalid tt (λ v e. tt)) (λ v d. tt)
covert_string-Ends f DataTypes.datetime_type s =
    let invalid = errors (codes "Invalid value for datetime type") in
    bind-Ends Anything Anything (or_fail (stoull s) invalid) _
      (or_fail-Ends Anything (stoull s) invalid tt (λ v e. tt)) (λ v d. tt)
covert_string-Ends f DataTypes.varchar_type s = tt
covert_string-Ends f _ s = tt

pub covert_token-Ends : (f : Floats) (t : Token) → Ends Anything (covert_token_to_sql_type f t)
unfolding covert_token_to_sql_type
covert_token-Ends f t =
    let is_bool =
      has_type TokenType.keyword t
      && ((keyword_place t.keyword == keyword_place SqlKeywords.true_kw)
          || (keyword_place t.keyword == keyword_place SqlKeywords.false_kw)) in
    let number = if mem 46 t.data_of then DataTypes.float_type else DataTypes.int_type in
    if-Ends Anything (has_type TokenType.number t) _ _ (covert_string-Ends f number t.data_of) (
      if-Ends Anything is_bool _ _ (covert_string-Ends f DataTypes.bool_type t.data_of) (
        if-Ends Anything (has_type TokenType.string t) _ _
          (covert_string-Ends f DataTypes.varchar_type t.data_of) tt))

exe_op-Ends : (op : SqlOperators) (es : List Expression) → Ends Anything (exe_op op es)
unfolding exe_op
exe_op-Ends SqlOperators.not_op (e ∷ es) = tt
exe_op-Ends SqlOperators.not_op [] = tt
exe_op-Ends op (r ∷ l ∷ es) = tt
exe_op-Ends op (r ∷ []) = tt
exe_op-Ends op [] = tt

pub unwind-Ends : (ops : List SqlOperators) (es : List Expression) → Ends Anything (unwind ops es)
unfolding unwind
unwind-Ends [] es = tt
unwind-Ends (op ∷ ops) es =
    either-Ends Anything (operator_place op == operator_place SqlOperators.open_parenthesis)
      (ok (ops, es)) _ tt
      (bind-Ends Anything Anything (exe_op op es) _ (exe_op-Ends op es)
        (λ more d. unwind-Ends ops more))

pub settle-Ends :
    (p : ℕ) (ops : List SqlOperators) (es : List Expression) → Ends Anything (settle p ops es)
unfolding settle
settle-Ends p [] es = tt
settle-Ends p (op ∷ ops) es =
    either-Ends Anything (leb p (get_priority op)) _ (ok (op ∷ ops, es))
      (bind-Ends Anything Anything (exe_op op es) _ (exe_op-Ends op es)
        (λ more d. settle-Ends p ops more))
      tt

pub drain-Ends : (ops : List SqlOperators) (es : List Expression) → Ends Anything (drain ops es)
unfolding drain
drain-Ends [] es = tt
drain-Ends (op ∷ ops) es =
    bind-Ends Anything Anything (exe_op op es) _ (exe_op-Ends op es) (λ more d. drain-Ends ops more)

pub make_set-Ends : (ty : SetTypes) (vs : List SqlTypes) → Ends Anything (make_set ty vs)
unfolding make_set
make_set-Ends SetTypes.list vs =
    let invalid = errors (codes "Type of operand invalid") in
    bind-Ends Anything Anything (guard (all_same vs) invalid) _
      (guard-Ends (all_same vs) invalid tt) (λ u d. tt)
make_set-Ends SetTypes.range vs =
    let invalid = errors (codes "Type of operand invalid") in
    let over = errors (codes "Number operand over") in
    bind-Ends Anything Anything (guard (all_same vs) invalid) _
      (guard-Ends (all_same vs) invalid tt)
      (λ u d.
        bind-Ends Anything Anything (guard (length vs == 2) over) _
          (guard-Ends (length vs == 2) over tt) (λ v e. tt))
