-- ===== src/Shell.antt =====
-- src/shell.c: the output of a command. `popen` is its argument here: the pieces that `fread` of the pipe
-- answers with, the last of them at the end of the output or at an error; `none` where popen(3) fails.
pub mod Copied
mod Tests
use sighttpd.Prelude.{
  ℕ, ◌-◌, Text, Option, none, some, List, [], ◌∷◌, ◌++◌, length, take, ◌==◌, if◌then◌else◌,
}

abbrev pub Popen : Type 0
Popen = Text → Option (List Text)

-- The loop of `shell_copy`: what it writes into the buffer that has `remaining` bytes.
unfoldable pub copy_loop : ℕ → List Text → Text
copy_loop remaining [] = []
copy_loop remaining (piece ∷ pieces) =
    let ret = take remaining piece in
    let rest = copy_loop (remaining - length ret) pieces in
    if remaining == 0 then [] else ret ++ rest

-- `if (pf == NULL) return 0;`
unfoldable pub copied : ℕ → Option (List Text) → Text
copied n none = []
copied n (some pieces) = copy_loop n pieces

-- `shell_copy`: the bytes written; its result is how many they are.
unfoldable pub shell_copy : Popen → ℕ → (cmd : Text) → Text
shell_copy popen n cmd = copied n (popen cmd)

-- The loop of `shell_stream`, where each `fread` asks for 4096 bytes and all of them are written.
unfoldable pub stream_loop : List Text → Text
stream_loop [] = []
stream_loop ([] ∷ pieces) = []
stream_loop ((c ∷ piece) ∷ pieces) = take 4096 (c ∷ piece) ++ stream_loop pieces

unfoldable pub streamed : Option (List Text) → Text
streamed none = []
streamed (some pieces) = stream_loop pieces

-- `shell_stream`: the bytes written to its descriptor.
unfoldable pub shell_stream : Popen → (cmd : Text) → Text
shell_stream popen cmd = streamed (popen cmd)
