-- ===== src/Parsers/Targets/Headers.antt =====
-- The columns that core/controller/parsers/sql_parser reads for a SELECT.
use csql.Base.{ℕ, zero, suc, codes}
use csql.Base.Result.{Post, after-Post, bind-Post, either-Post, Post-of}
use csql.Types.{Floats}
use csql.SqlQuery.{SqlQuery, add_target}
use csql.SqlQuery.Headers.{IsAligned, add_target-IsAligned}
use csql.Tokenizer.Cursor.{Cursor, check_string}
use csql.Parsers.Targets.{terminate_check, read_target, read_name, read_targets}

abbrev pub HasColumns : SqlQuery × Cursor → Type 0
HasColumns r = IsAligned r.0

pub read_targets-IsAligned :
    (f : Floats) (fuel : ℕ) (q : SqlQuery) (c : Cursor)
    → IsAligned q
    → Post HasColumns (read_targets f fuel q c)
unfolding read_targets
read_targets-IsAligned f zero q c is = tt
read_targets-IsAligned f (suc fuel) q c is = after-Post HasColumns (terminate_check c) _ (λ ended.
    either-Post HasColumns ended _ _ is (
      after-Post HasColumns (read_target f fuel c) _ (λ found.
        after-Post HasColumns (read_name found.1 found.2) _ (λ named.
          bind-Post HasColumns IsAligned (add_target q found.0 named.0) _
            (Post-of IsAligned (add_target q found.0 named.0)
              (λ q' added. (add_target-IsAligned q q' found.0 named.0 is added).0))
            (λ q' is'. after-Post HasColumns (terminate_check named.1) _ (λ last.
              either-Post HasColumns last _ _ is' (
                after-Post HasColumns (check_string (codes ",") named.1) _
                  (λ c3. read_targets-IsAligned f fuel q' c3 is'))))))))
