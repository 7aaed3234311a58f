-- ===== src/Libc.antt =====
-- What app/main.c asks of the C library and the file system, which are not part of the program. A path is
-- a text; nobody changes the file while it is read.
use agoge.Prelude.{ℕ, ◌≤◌, ◌<◌, Bool, List}

-- A file that `fopen` has opened: its bytes; what `fread` returns when it is asked for so many of them;
-- and behind that, what `ferror` tells and the text that `strerror(errno)` gives.
pub record File : Type 0 where
  pub byte : ℕ → ℕ
  pub fread : ℕ → ℕ
  pub ferror : ℕ → Bool
  pub strerror : ℕ → List ℕ

-- A call that may fail, with the text of `strerror(errno)` then.
pub data Call (A : Type 0) : Type 0 where
  done : A → Call A
  failed : List ℕ → Call A

-- `stat` gives `st_size`.
pub record Libc : Type 0 where
  pub stat : List ℕ → Call ℕ
  pub fopen : List ℕ → Call File

-- As documented, `fread` stores bytes, and no more of them than it was asked for.
pub record IsFile (file : File) : Type 0 where
  pub byte_lt : (i : ℕ) → file.byte i < 256
  pub fread_le : (n : ℕ) → file.fread n ≤ n
