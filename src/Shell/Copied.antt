-- ===== src/Shell/Copied.antt =====
-- The buffer of `shell_copy` of src/shell.c.
use sighttpd.Prelude.{
  ℕ, ◌-◌, ◌≤◌, Text, Option, none, some, List, [], ◌∷◌, arith, length, take, length-append,
  length-take,
}
use sighttpd.Shell.{Popen, copy_loop, copied, shell_copy}

pub length-copy_loop : (n : ℕ) (pieces : List Text) → length (copy_loop n pieces) ≤ n
unfolding copy_loop
length-copy_loop n [] = omega arith
length-copy_loop n (piece ∷ pieces) =
    let ret = take n piece in
    ground (
      arith,
      length-append ret (copy_loop (n - length ret) pieces),
      length-take n piece,
      length-copy_loop (n - length ret) pieces,
    )

length-copied : (n : ℕ) (pf : Option (List Text)) → length (copied n pf) ≤ n
unfolding copied
length-copied n none = omega arith
length-copied n (some pieces) = length-copy_loop n pieces

-- `shell_copy` stays in its buffer, in however many pieces the output of the command comes.
pub length-shell_copy : (popen : Popen) (n : ℕ) (cmd : Text) → length (shell_copy popen n cmd) ≤ n
unfolding shell_copy
length-shell_copy popen n cmd = length-copied n (popen cmd)
