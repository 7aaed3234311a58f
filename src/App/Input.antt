-- ===== src/App/Input.antt =====
-- The reading of the cartridge's file in app/main.c.
use agoge.Prelude.{
  ℕ, ◌≤◌, ◌<◌, ◌≡◌, ◌≢◌, refl, true, false, ltb, ◌==◌, List, ◌++◌, arith, Bool-cases, inl, inr,
}
use Prim.Native.String.{String}
use agoge.Ctx.{Rom, cart_size_max}
use agoge.Step.{Result, ok, fault, out_of_bounds}
use agoge.Printf.{codes}
use agoge.Libc.{Libc, File, IsFile, Call, done, failed}
use agoge.Valid.{AreBytes}
use agoge.App.{Opened, opened, unread, rom_of, read_rom, open_file, open_sized, open_rom}

-- A message of `open_rom` on the standard error.
abbrev pub error_text : String → List ℕ → List ℕ → List ℕ
error_text what rom_file error = codes what ++ (rom_file ++ (codes ": " ++ (error ++ codes "\n")))

-- `rom` holds the first bytes of the file, and zeros behind them.
pub record IsCopy (file : File) (count : ℕ) (rom : Rom) : Type 0 where
  pub copied : (i : ℕ) → i < count → rom.byte i ≡ file.byte i
  pub blank : (i : ℕ) → count ≤ i → rom.byte i ≡ 0
  pub bytes : AreBytes rom.byte
  pub size_eq : rom.size ≡ cart_size_max
  pub holds : count ≤ rom.size

-- What the reading of a file comes to.
pub data IsRead (rom_file : List ℕ) (st_size : ℕ) (file : File) : Result Opened → Type 0 where
  loaded :
      (rom : Rom)
      → file.fread st_size ≡ st_size
      → file.ferror st_size ≡ false
      → IsCopy file st_size rom
      → IsRead rom_file st_size file (ok (opened rom st_size))
  overrun : cart_size_max < file.fread st_size → IsRead rom_file st_size file (fault out_of_bounds)
  cut_short :
      file.fread st_size ≤ cart_size_max
      → file.fread st_size ≢ st_size
      → IsRead rom_file st_size file
          (ok (unread (error_text "Error reading ROM " rom_file (file.strerror st_size))))
  erred :
      file.fread st_size ≤ cart_size_max
      → file.fread st_size ≡ st_size
      → file.ferror st_size ≡ true
      → IsRead rom_file st_size file
          (ok (unread (error_text "Error reading ROM " rom_file (file.strerror st_size))))

-- What `open_rom` comes to.
pub data IsOpening (libc : Libc) (rom_file : List ℕ) : Result Opened → Type 0 where
  no_size :
      (error : List ℕ)
      → libc.stat rom_file ≡ failed error
      → IsOpening libc rom_file
          (ok (unread (error_text "Unable to get file size of ROM " rom_file error)))
  no_file :
      (st_size : ℕ) (error : List ℕ)
      → libc.stat rom_file ≡ done st_size
      → libc.fopen rom_file ≡ failed error
      → IsOpening libc rom_file (ok (unread (error_text "Unable to open ROM " rom_file error)))
  read :
      (st_size : ℕ) (file : File) {r : Result Opened}
      → libc.stat rom_file ≡ done st_size
      → libc.fopen rom_file ≡ done file
      → IsRead rom_file st_size file r
      → IsOpening libc rom_file r

rom_of-IsCopy :
    (file : File) (count : ℕ)
    → IsFile file
    → count ≤ cart_size_max
    → IsCopy file count (rom_of file count)
rom_of-IsCopy file count known le = record {
  copied = λ i lt. ground arith;
  blank = λ i le. ground arith;
  bytes = λ i. ground (arith, known.byte_lt i);
  size_eq = refl;
  holds = le;
}

differs : (m n : ℕ) → (m == n) ≡ false → m ≢ n
differs m n e same = ground arith

read_rom_lem :
    (rom_file : List ℕ) (st_size : ℕ) (file : File)
    → IsFile file
    → IsRead rom_file st_size file (read_rom rom_file st_size file)
unfolding read_rom
read_rom_lem rom_file st_size file known =
    elim (Bool-cases (ltb cart_size_max (file.fread st_size))) [
      | inl big ↦ rw big (overrun (ground arith))
      | inr fits ↦ elim (Bool-cases (file.fread st_size == st_size)) [
        | inr short ↦
            rw (fits, short) (cut_short (ground arith) (differs (file.fread st_size) st_size short))
        | inl whole ↦ elim (Bool-cases (file.ferror st_size)) [
          | inl bad ↦ rw (fits, whole, bad) (erred (ground arith) (ground arith) bad)
          | inr good ↦
              let e : file.fread st_size ≡ st_size = ground arith in
              rw (fits, whole, good, e)
                (loaded (rom_of file st_size) e good
                  (rom_of-IsCopy file st_size known (ground arith)))
        ]
      ]
    ]

module _ (libc : Libc) (rom_file : List ℕ)
    (known : (file : File) → libc.fopen rom_file ≡ done file → IsFile file) where
  open_file-IsOpening :
      (st_size : ℕ) (c : Call File)
      → libc.stat rom_file ≡ done st_size
      → libc.fopen rom_file ≡ c
      → IsOpening libc rom_file (open_file rom_file st_size c)
  unfolding open_file
  open_file-IsOpening st_size (failed error) e e' = no_file st_size error e e'
  open_file-IsOpening st_size (done file) e e' =
      read st_size file e e' (read_rom_lem rom_file st_size file (known file e'))

  open_sized-IsOpening :
      (c : Call ℕ) → libc.stat rom_file ≡ c → IsOpening libc rom_file (open_sized libc rom_file c)
  unfolding open_sized
  open_sized-IsOpening (failed error) e = no_size error e
  open_sized-IsOpening (done st_size) e = open_file-IsOpening st_size (libc.fopen rom_file) e refl

  -- For a C library whose files give bytes, and no more of them than they are asked for: `open_rom`
  -- leaves a copy of the file exactly where its size is told, it opens, and all of it is read without
  -- an error; the copy is in the array of 8388608 bytes. Where `fread` gives more than that, `open_rom`
  -- ends in a write past the end of the array, whether or not all was read. Otherwise it prints what went
  -- wrong first, `stat`, `fopen` or the reading, and the text of the error.
  pub open_rom_lem : IsOpening libc rom_file (open_rom libc rom_file)
  unfolding open_rom
  open_rom_lem = open_sized-IsOpening (libc.stat rom_file) refl
