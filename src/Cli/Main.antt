-- ===== src/Cli/Main.antt =====
-- mailtransporter/cli.py: what `main` returns.
