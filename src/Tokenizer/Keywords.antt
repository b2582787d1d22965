-- ===== src/Tokenizer/Keywords.antt =====
-- core/controller/tokenizer/keywords.h: the words of the language and the maps from their spelling.
use csql.Base.{List, [], ◌∷◌, Str, codes}

pub data SqlKeywords : Type 0 where
  alter_kw any_kw as_kw auto_increment asc_kw abort_kw by_kw bool_kw begin_kw case_kw check_kw
        constraint_kw create_kw cross_kw commit_kw default_kw delete_kw distinct_kw drop_kw date_kw
        database_kw describe_kw databases_kw desc_kw else_kw end_kw exists_kw foreign_kw from_kw
        float_kw false_kw full_kw group_kw having_kw if_kw inner_kw intersect_kw index_kw insert_kw
        into_kw int_kw join_kw key_kw left_kw limit_kw null_kw offset_kw on_kw order_kw primary_kw
        references_kw right_kw rollback_kw select_kw set_kw some_kw show_kw table_kw then_kw
        transaction_kw tables_kw true_kw union_kw unique_kw update_kw values_kw view_kw varchar_kw
        when_kw where_kw unkonwn_kw use_kw :
      SqlKeywords

pub data SqlFunctions : Type 0 where
  ascii_ft concat_ft concat_ws_ft char_length_ft char_ft length_ft left_ft locate_ft lower_ft
        substring_ft replace_ft right_ft reverse_ft insert_ft trim_ft upper_ft count_ft sum_ft
        avg_ft min_ft max_ft group_concat_ft unknown_ft :
      SqlFunctions

pub data SqlOperators : Type 0 where
  add_op and_op between_op divide_op dot_op equal_op gt_op gte_op in_op lt_op lte_op like_op mod_op
        multiply_op nor_op not_op not_equal_op not_between_op not_in_op not_like_op or_op power_op
        subtract_op unknown_op open_parenthesis close_parenthesis :
      SqlOperators

abbrev pub sql_keywords : List (Str × SqlKeywords)
sql_keywords =
    (codes "alter", SqlKeywords.alter_kw)
    ∷ (codes "any", SqlKeywords.any_kw)
    ∷ (codes "as", SqlKeywords.as_kw)
    ∷ (codes "auto_increment", SqlKeywords.auto_increment)
    ∷ (codes "asc", SqlKeywords.asc_kw)
    ∷ (codes "abort", SqlKeywords.abort_kw)
    ∷ (codes "by", SqlKeywords.by_kw)
    ∷ (codes "bool", SqlKeywords.bool_kw)
    ∷ (codes "begin", SqlKeywords.begin_kw)
    ∷ (codes "case", SqlKeywords.case_kw)
    ∷ (codes "check", SqlKeywords.check_kw)
    ∷ (codes "constraint", SqlKeywords.constraint_kw)
    ∷ (codes "create", SqlKeywords.create_kw)
    ∷ (codes "cross", SqlKeywords.cross_kw)
    ∷ (codes "commit", SqlKeywords.commit_kw)
    ∷ (codes "default", SqlKeywords.default_kw)
    ∷ (codes "delete", SqlKeywords.delete_kw)
    ∷ (codes "distinct", SqlKeywords.distinct_kw)
    ∷ (codes "drop", SqlKeywords.drop_kw)
    ∷ (codes "date", SqlKeywords.date_kw)
    ∷ (codes "database", SqlKeywords.database_kw)
    ∷ (codes "describe", SqlKeywords.describe_kw)
    ∷ (codes "databases", SqlKeywords.databases_kw)
    ∷ (codes "desc", SqlKeywords.desc_kw)
    ∷ (codes "else", SqlKeywords.else_kw)
    ∷ (codes "end", SqlKeywords.end_kw)
    ∷ (codes "exists", SqlKeywords.exists_kw)
    ∷ (codes "foreign", SqlKeywords.foreign_kw)
    ∷ (codes "from", SqlKeywords.from_kw)
    ∷ (codes "float", SqlKeywords.float_kw)
    ∷ (codes "false", SqlKeywords.false_kw)
    ∷ (codes "full", SqlKeywords.full_kw)
    ∷ (codes "group", SqlKeywords.group_kw)
    ∷ (codes "having", SqlKeywords.having_kw)
    ∷ (codes "if", SqlKeywords.if_kw)
    ∷ (codes "inner", SqlKeywords.inner_kw)
    ∷ (codes "intersect", SqlKeywords.intersect_kw)
    ∷ (codes "index", SqlKeywords.index_kw)
    ∷ (codes "insert", SqlKeywords.insert_kw)
    ∷ (codes "into", SqlKeywords.into_kw)
    ∷ (codes "int", SqlKeywords.int_kw)
    ∷ (codes "join", SqlKeywords.join_kw)
    ∷ (codes "key", SqlKeywords.key_kw)
    ∷ (codes "left", SqlKeywords.left_kw)
    ∷ (codes "limit", SqlKeywords.limit_kw)
    ∷ (codes "null", SqlKeywords.null_kw)
    ∷ (codes "offset", SqlKeywords.offset_kw)
    ∷ (codes "on", SqlKeywords.on_kw)
    ∷ (codes "order", SqlKeywords.order_kw)
    ∷ (codes "primary", SqlKeywords.primary_kw)
    ∷ (codes "references", SqlKeywords.references_kw)
    ∷ (codes "right", SqlKeywords.right_kw)
    ∷ (codes "rollback", SqlKeywords.rollback_kw)
    ∷ (codes "select", SqlKeywords.select_kw)
    ∷ (codes "set", SqlKeywords.set_kw)
    ∷ (codes "some", SqlKeywords.some_kw)
    ∷ (codes "show", SqlKeywords.show_kw)
    ∷ (codes "table", SqlKeywords.table_kw)
    ∷ (codes "then", SqlKeywords.then_kw)
    ∷ (codes "transaction", SqlKeywords.transaction_kw)
    ∷ (codes "tables", SqlKeywords.tables_kw)
    ∷ (codes "true", SqlKeywords.true_kw)
    ∷ (codes "union", SqlKeywords.union_kw)
    ∷ (codes "unique", SqlKeywords.unique_kw)
    ∷ (codes "update", SqlKeywords.update_kw)
    ∷ (codes "values", SqlKeywords.values_kw)
    ∷ (codes "view", SqlKeywords.view_kw)
    ∷ (codes "varchar", SqlKeywords.varchar_kw)
    ∷ (codes "when", SqlKeywords.when_kw)
    ∷ (codes "where", SqlKeywords.where_kw)
    ∷ (codes "unknown", SqlKeywords.unkonwn_kw)
    ∷ (codes "use", SqlKeywords.use_kw)
    ∷ []

abbrev pub sql_functions : List (Str × SqlFunctions)
sql_functions =
    (codes "ascii", SqlFunctions.ascii_ft)
    ∷ (codes "concat", SqlFunctions.concat_ft)
    ∷ (codes "concat_ws", SqlFunctions.concat_ws_ft)
    ∷ (codes "char_length", SqlFunctions.char_length_ft)
    ∷ (codes "char", SqlFunctions.char_ft)
    ∷ (codes "length", SqlFunctions.length_ft)
    ∷ (codes "left", SqlFunctions.left_ft)
    ∷ (codes "locate", SqlFunctions.locate_ft)
    ∷ (codes "lower", SqlFunctions.lower_ft)
    ∷ (codes "substring", SqlFunctions.substring_ft)
    ∷ (codes "substr", SqlFunctions.substring_ft)
    ∷ (codes "replace", SqlFunctions.replace_ft)
    ∷ (codes "right", SqlFunctions.right_ft)
    ∷ (codes "reverse", SqlFunctions.reverse_ft)
    ∷ (codes "insert", SqlFunctions.insert_ft)
    ∷ (codes "trim", SqlFunctions.trim_ft)
    ∷ (codes "upper", SqlFunctions.upper_ft)
    ∷ []

abbrev pub sql_aggregate_functions : List (Str × SqlFunctions)
sql_aggregate_functions =
    (codes "count", SqlFunctions.count_ft)
    ∷ (codes "sum", SqlFunctions.sum_ft)
    ∷ (codes "avg", SqlFunctions.avg_ft)
    ∷ (codes "min", SqlFunctions.min_ft)
    ∷ (codes "max", SqlFunctions.max_ft)
    ∷ (codes "group_concat", SqlFunctions.group_concat_ft)
    ∷ []

abbrev pub sql_operators : List (Str × SqlOperators)
sql_operators =
    (codes "+", SqlOperators.add_op)
    ∷ (codes "and", SqlOperators.and_op)
    ∷ (codes "between", SqlOperators.between_op)
    ∷ (codes "/", SqlOperators.divide_op)
    ∷ (codes ".", SqlOperators.dot_op)
    ∷ (codes "=", SqlOperators.equal_op)
    ∷ (codes ">", SqlOperators.gt_op)
    ∷ (codes ">=", SqlOperators.gte_op)
    ∷ (codes "in", SqlOperators.in_op)
    ∷ (codes "<", SqlOperators.lt_op)
    ∷ (codes "<=", SqlOperators.lte_op)
    ∷ (codes "like", SqlOperators.like_op)
    ∷ (codes "%", SqlOperators.mod_op)
    ∷ (codes "*", SqlOperators.multiply_op)
    ∷ (codes "nor", SqlOperators.nor_op)
    ∷ (codes "not", SqlOperators.not_op)
    ∷ (codes "<>", SqlOperators.not_equal_op)
    ∷ (codes "or", SqlOperators.or_op)
    ∷ (codes "^", SqlOperators.power_op)
    ∷ (codes "-", SqlOperators.subtract_op)
    ∷ (codes "unknown", SqlOperators.unknown_op)
    ∷ []
