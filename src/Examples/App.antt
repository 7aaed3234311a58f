-- ===== src/Examples/App.antt =====
-- The theorems on app/main.c at concrete inputs: a file of 32 KiB, one that is cut short, and one that is
-- larger than the program's buffer.
use agoge.Prelude.{ℕ, ◌≡◌, refl, ◌⊎◌, false, List, [], ltb, if◌then◌else◌, subst, arith}
use agoge.Ctx.{Ctx}
use agoge.Step.{ok, fault, out_of_bounds}
use agoge.Printf.{codes}
use agoge.Libc.{Libc, File, IsFile, done, failed}
use agoge.Cpu.Run.{ctx_step}
use agoge.App.{unread, open_rom, main_loop}
use agoge.RunsCrowded.{IsCrowded}
use agoge.App.Loop.{IsStop}
use agoge.App.Untraced.{SameMachine, main_loop-ctx_step}
use agoge.App.Input.{IsOpening, open_rom_lem}
use agoge.Examples.{rom, ctx, rom-bytes, ctx-IsReady}

-- A file of which at most so many bytes can be read.
abbrev file : ℕ → File
file most = record {
  byte = (rom 0).byte;
  fread = λ n. if ltb most n then most else n;
  ferror = λ _. false;
  strerror = λ _. codes "Success";
}

-- It has the size that is told, or is missing.
abbrev libc : ℕ → ℕ → Libc
libc st_size most = record {
  stat = λ path. elim path [ [] ↦ failed (codes "No such file or directory") | _ ↦ done st_size ];
  fopen = λ _. done (file most);
}

abbrev path : List ℕ
path = codes "a.gb"

file-IsFile : (most : ℕ) → IsFile (file most)
file-IsFile most = record { byte_lt = rom-bytes 0 (omega arith); fread_le = λ n. ground arith }

done-inj : {f g : File} → done f ≡ done g → f ≡ g
done-inj e = cc e

opens : (st_size most : ℕ) (f : File) → (libc st_size most).fopen path ≡ done f → IsFile f
opens st_size most f e = subst IsFile (done-inj e) (file-IsFile most)

open_rom_lem_example : IsOpening (libc 32768 32768) path (open_rom (libc 32768 32768) path)
open_rom_lem_example = open_rom_lem (libc 32768 32768) path (opens 32768 32768)

main_loop-ctx_step_example :
    ((s' t : Ctx) × (main_loop 3 (ctx 6) ≡ ok (tt, s'))
      × (ctx_step 3 (ctx 6) ≡ ok (tt, t))
      × SameMachine s' t)
    ⊎ (IsStop 3 (ctx 6) ⊎ IsCrowded main_loop 3 127 (ctx 6))
main_loop-ctx_step_example =
    main_loop-ctx_step 3 127 (ctx 6) (ctx-IsReady 6 (omega arith)) (omega arith) (omega arith)

-- A file that is shorter than its size was told, one that is missing, and one of more than 8 MiB.
short_test :
    open_rom (libc 32768 100) path ≡ ok (unread (codes "Error reading ROM a.gb: Success\n"))
unfolding open_rom
short_test = refl

missing_test :
    open_rom (libc 32768 100) []
    ≡ ok (unread (codes "Unable to get file size of ROM : No such file or directory\n"))
unfolding open_rom
missing_test = refl

large_test : open_rom (libc 8388609 8388609) path ≡ fault out_of_bounds
unfolding open_rom
large_test = refl
