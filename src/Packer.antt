-- ===== src/Packer.antt =====
-- Toolchain/ModulePacker/main.c: the tool that appends modules to the kernel's binary. Bytes are
-- numbers, and what the files and the system calls give is a parameter.
pub mod Image
use basic_kernel_implementat.Prelude.{
  ℕ, zero, suc, ◌/◌, ◌%◌, ◌^◌, Bool, true, false, Option, none, some, List, [], ◌∷◌, ◌++◌, ltb,
  if◌then◌else◌, ◌>>=◌, length, take, drop,
}

abbrev pub FileName : Type 0
FileName = List ℕ

abbrev pub chunk_size : ℕ
chunk_size = 128

-- What `access`, `fopen` with `fread`, and `stat` say of a file, and whether a file can be created.
pub record Files : Type 0 where
  pub readable : FileName → Bool
  pub contents : FileName → List ℕ
  pub st_size : FileName → ℕ
  pub creates : FileName → Bool

unfoldable pub check_files : List FileName → Files → Bool
check_files [] fs = true
check_files (name ∷ names) fs = if fs.readable name then check_files names fs else false

-- The bytes of a number as `fwrite` takes them from memory.
abbrev pub uint32_bytes : ℕ → List ℕ
uint32_bytes n = n % 2 ^ 8 ∷ n / 2 ^ 8 % 2 ^ 8 ∷ n / 2 ^ 16 % 2 ^ 8 ∷ n / 2 ^ 24 % 2 ^ 8 ∷ []

unfoldable pub write_size : (target : List ℕ) → FileName → Files → List ℕ
write_size target name fs = target ++ uint32_bytes (fs.st_size name)

-- The end of a file is known once a read has met it, so a read that fills the buffer is not the last.
unfoldable pub write_file : ℕ → (target source : List ℕ) → Option (List ℕ)
write_file zero target source = none
write_file (suc fuel) target source =
    let written = target ++ take chunk_size source in
    let rest = write_file fuel written (drop chunk_size source) in
    if ltb (length source) chunk_size then some written else rest

-- The loop of buildImage.
unfoldable pub write_modules : ℕ → (target : List ℕ) → List FileName → Files → Option (List ℕ)
write_modules fuel target [] fs = some target
write_modules fuel target (name ∷ names) fs =
    write_file fuel (write_size target name fs) (fs.contents name) >>= λ written.
    write_modules fuel written names fs

-- Whether the image was built, and its bytes. There is a kernel file, which argp checks.
unfoldable pub build_image :
    ℕ
    → (kernel : FileName) (modules : List FileName) (output_file : FileName) → Files
    → Option (Bool × List ℕ)
build_image fuel kernel modules output_file fs =
    let built = write_file fuel [] (fs.contents kernel) >>= (λ written.
      write_modules fuel (written ++ uint32_bytes (length modules)) modules fs
      >>= (λ image. some (true, image))) in
    if fs.creates output_file then built else some (false, [])

-- What `main` returns, and the image.
unfoldable pub main :
    ℕ
    → (kernel : FileName) (modules : List FileName) (output_file : FileName) → Files
    → Option (ℕ × List ℕ)
main fuel kernel modules output_file fs =
    let image = build_image fuel kernel modules output_file fs in
    if check_files (kernel ∷ modules) fs
    then image >>= (λ r. some (if r.0 then 0 else 1, r.1))
    else some (1, [])
