-- ===== src/Loader/RoundTrip.antt =====
-- The modules that the packer appends to the kernel, loaded again.
use basic_kernel_implementat.Prelude.{
  ℕ, suc, ◌+◌, ◌^◌, ◌<◌, ◌≡◌, refl, sym, ap, ◌∙◌, Bool, true, Option, none, some, List, [], ◌∷◌,
  ◌++◌, map, length, length-map, All,
}
use basic_kernel_implementat.Text.{Chars}
use basic_kernel_implementat.Console.{Console}
use basic_kernel_implementat.Packer.{FileName, Files, uint32_bytes, build_image}
use basic_kernel_implementat.Packer.Image.{pack, Reads, build_image-pack}
use basic_kernel_implementat.Loader.{load_module, load_loop, load_modules, read_uint32}
use basic_kernel_implementat.Loader.Announce.{IsReady}
use basic_kernel_implementat.Loader.Packing.{
  HoldsAt, HoldsAt-left, HoldsAt-right, uint32_at-bytes, Off, Fits, Loaded, load_module-copies,
}

module _ (fuel : ℕ) (targets : ℕ → ℕ) (room : 81 < fuel) where
  load_loop_lem :
      (left i p p1 : ℕ) (m m1 : Chars) (con con1 : Console)
      → load_module fuel p (targets i) m con ≡ some (p1, m1, con1)
      → load_loop fuel (suc left) i p targets m con ≡ load_loop fuel left (i + 1) p1 targets m1 con1
  unfolding load_loop
  load_loop_lem left i p p1 m m1 con con1 e = rw e refl

  load_loop-none :
      (i p : ℕ) (m : Chars) (con : Console) → load_loop fuel 0 i p targets m con ≡ some (m, con)
  unfolding load_loop
  load_loop-none i p m con = refl

  load_loop-Loaded :
      (cs : List (List ℕ)) (i p : ℕ) (m : Chars) (con : Console)
      → HoldsAt m p (pack cs)
      → Fits fuel targets i p cs
      → IsReady con
      → (m' : Chars) × (con' : Console) × (load_loop fuel (length cs) i p targets m con
          ≡ some (m', con'))
        × Loaded m' targets i cs
        × ((q : ℕ) → Off targets i cs q → m' q ≡ m q)
  load_loop-Loaded [] i p m con h fits ok = (m, con, load_loop-none i p m con, tt, λ q off. refl)
  load_loop-Loaded (c ∷ cs) i p m con h fits ok =
      let (apart, free, h1, h2, h3, small, later) = fits in
      let (m1, con1, loaded, ok1, copied, behind, outside) =
        load_module-copies fuel targets room p i c (pack cs) m con h apart h1 h2 h3 small ok in
      let (m2, con2, others, rest, kept) =
        load_loop-Loaded cs (i + 1) (p + 4 + length c) m1 con1 behind later ok1 in
      (
        m2,
        con2,
        load_loop_lem (length cs) i p (p + 4 + length c) m m1 con con1 loaded ∙ others,
        (λ k lt. kept (targets i + k) (free k lt) ∙ copied k lt, rest),
        λ q off. kept q off.1 ∙ outside q off.0,
      )

  load_modules-Loaded :
      (cs : List (List ℕ)) (p : ℕ) (m : Chars) (con : Console)
      → HoldsAt m p (uint32_bytes (length cs) ++ pack cs)
      → length cs < 2 ^ 32
      → Fits fuel targets 0 (p + 4) cs
      → IsReady con
      → (m' : Chars) × (con' : Console) × (load_modules fuel p targets m con ≡ some (m', con'))
        × Loaded m' targets 0 cs
  unfolding load_modules read_uint32
  load_modules-Loaded cs p m con h small fits ok =
      let n = length cs in
      let count = uint32_at-bytes m p n (HoldsAt-left m p (uint32_bytes n) (pack cs) h) small in
      let (m', con', loaded, all, _) =
        load_loop-Loaded cs 0 (p + 4) m con (HoldsAt-right m p (uint32_bytes n) (pack cs) h) fits
          ok in
      (m', con', rw count loaded, all)

abbrev image_of : Option (Bool × List ℕ) → List ℕ
image_of none = []
image_of (some r) = r.1

-- loadModules takes back what buildImage packed: where memory holds the image that buildImage wrote,
-- loadModules at the end of the kernel's binary ends, and each module is at the address that is
-- meant for it. The output file can be created, `stat` tells the lengths of the files, the modules
-- do not overlap each other's places nor the part of the image that is still to be read, sizes and
-- the number of modules fit 32 bits, and the cursor of the console is at a character.
pub load_modules-build_image :
    (fuel : ℕ) (targets : ℕ → ℕ) (kernel : FileName) (modules : List FileName)
    (output_file : FileName) (fs : Files) (image : List ℕ) (image_at : ℕ) (m : Chars)
    (con : Console)
    → 81 < fuel
    → fs.creates output_file ≡ true
    → Reads fuel fs kernel
    → All (Reads fuel fs) modules
    → length (map fs.contents modules) < 2 ^ 32
    → build_image fuel kernel modules output_file fs ≡ some (true, image)
    → HoldsAt m image_at image
    → Fits fuel targets 0 (image_at + length (fs.contents kernel) + 4) (map fs.contents modules)
    → IsReady con
    → (m' : Chars) × (con' : Console) × (load_modules fuel
          (image_at + length (fs.contents kernel))
          targets
          m
          con
        ≡ some (m', con'))
      × Loaded m' targets 0 (map fs.contents modules)
load_modules-build_image fuel targets kernel modules output_file fs image image_at m con room can
      kernel_ok modules_ok few built holds fits ok =
    let cs = map fs.contents modules in
    let packed = build_image-pack fuel kernel modules output_file fs can kernel_ok modules_ok in
    let count : length modules ≡ length cs = sym (length-map modules fs.contents) in
    let is : image ≡ fs.contents kernel ++ (uint32_bytes (length cs) ++ pack cs) =
      ap image_of (sym built ∙ packed)
      ∙ ap (λ n. fs.contents kernel ++ (uint32_bytes n ++ pack cs)) count in
    let behind =
      HoldsAt-right m image_at (fs.contents kernel) (uint32_bytes (length cs) ++ pack cs)
        (rw is at holds) in
    load_modules-Loaded fuel targets room cs (image_at + length (fs.contents kernel)) m con behind
      few fits ok
