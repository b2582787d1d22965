-- ===== src/Tests.antt =====
-- Runs of the models on concrete inputs, and the theorems applied to them.
mod Numbers
mod Locking
mod Pages
mod Storing
mod Reading
mod Texts
mod Trees
mod Parsing
mod Caching
mod Joining
mod Statements
mod Querying
