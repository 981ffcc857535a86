-- ===== src/Shell/Tests.antt =====
-- A command whose output comes in two pieces.
use sighttpd.Prelude.{◌≡◌, refl, some, [], ◌∷◌, codes}
use sighttpd.Shell.{Popen, copy_loop, copied, shell_copy}

abbrev hello : Popen
hello cmd = some (codes "hel" ∷ codes "lo" ∷ [])

shell_copy_run : shell_copy hello 4 (codes "kgctrl info") ≡ codes "hell"
unfolding shell_copy copied copy_loop
shell_copy_run = refl
