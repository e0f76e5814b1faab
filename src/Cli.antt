-- ===== src/Cli.antt =====
-- The command line (src/cli): the check of repository names.
pub mod RepoFilter
