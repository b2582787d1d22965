-- ===== src/Parsers.antt =====
-- core/controller: the parsers, which move the cursor over the tokens.
pub mod ExpressionParser
pub mod Statements
pub mod TxnParser
pub mod SqlParser
pub mod CreateTable
pub mod Targets
pub mod Selecting
pub mod Dispatch
