-- ===== src/Loader/Tests.antt =====
-- An image with two modules, runs of the code, and the witness.
use basic_kernel_implementat.Prelude.{
  ℕ, ◌+◌, ◌-◌, ◌≡◌, refl, true, some, List, [], ◌∷◌, arith, ◌==◌, if◌then◌else◌, length, get_or,
  inl, inr,
}
use basic_kernel_implementat.Text.{Chars}
use basic_kernel_implementat.Console.{Console, video}
use basic_kernel_implementat.Packer.{
  FileName, Files, build_image, write_file, write_size, write_modules,
}
use basic_kernel_implementat.Loader.{set_loop, memset, load_modules}
use basic_kernel_implementat.Loader.Packing.{HoldsAt, Loaded}
use basic_kernel_implementat.Loader.RoundTrip.{load_modules-build_image}

-- Each file holds its own name.
abbrev files : Files
files = record {
  readable = λ _. true;
  contents = λ name. name;
  st_size = λ name. length name;
  creates = λ _. true;
}

abbrev modules : List FileName
modules = (1 ∷ 2 ∷ 3 ∷ []) ∷ (9 ∷ []) ∷ []

abbrev image : List ℕ
image = 7 ∷ 2 ∷ 0 ∷ 0 ∷ 0 ∷ 3 ∷ 0 ∷ 0 ∷ 0 ∷ 1 ∷ 2 ∷ 3 ∷ 1 ∷ 0 ∷ 0 ∷ 0 ∷ 9 ∷ []

abbrev memory : Chars
memory q = get_or image (q - 0x100) 0

abbrev targets : ℕ → ℕ
targets i = if i == 0 then 0x400 else 0x500

abbrev console : Console
console = record { buffer = λ _. 0; cells = λ _. 0; current_video = video }

filled : memset 4 0x1FF 2 (λ _. 0) 5 ≡ 255
unfolding memset set_loop
filled = refl

built : build_image 2000 (7 ∷ []) modules [] files ≡ some (true, image)
unfolding build_image write_file write_size write_modules
built = refl

image-HoldsAt : HoldsAt memory 0x100 image
image-HoldsAt k lt = let e : 0x100 + k - 0x100 ≡ k = omega arith in rw e refl

load_modules-build_image_example :
    (m' : Chars) × (con' : Console) × (load_modules 2000 0x101 targets memory console
      ≡ some (m', con'))
    × Loaded m' targets 0 modules
load_modules-build_image_example =
    load_modules-build_image 2000 targets (7 ∷ []) modules [] files image 0x100 memory console
      (omega arith) refl (refl, omega arith) ((refl, omega arith), ((refl, omega arith), tt))
      (omega arith) built image-HoldsAt
      (
        inr (omega arith),
        λ k lt. (inl (omega arith), tt),
        omega arith,
        omega arith,
        omega arith,
        omega arith,
        (inr (omega arith), λ k lt. tt, omega arith, omega arith, omega arith, omega arith, tt),
      )
      (record { from = omega arith; even = refl })
