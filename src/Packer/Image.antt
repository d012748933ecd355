-- ===== src/Packer/Image.antt =====
-- The image that buildImage of Toolchain/ModulePacker/main.c writes.
use basic_kernel_implementat.Prelude.{
  append_assoc, append_nil, ℕ, zero, suc, ◌*◌, ◌≤◌, ◌<◌, ◌≡◌, refl, ap, ◌∙◌, inl, inr, some, List,
  [], ◌∷◌, ◌++◌, map, arith, ltb, Bool-cases, length, take, drop, length-drop, take-append-drop,
  sym, true, All,
}
use basic_kernel_implementat.Packer.{
  FileName, Files, uint32_bytes, write_size, write_file, write_modules, build_image,
}

-- Each module behind its size.
abbrev pub pack : List (List ℕ) → List ℕ
pack [] = []
pack (c ∷ cs) = uint32_bytes (length c) ++ (c ++ pack cs)

take_all {ℓ} : {A : Type ℓ} (n : ℕ) (xs : List A) → length xs ≤ n → take n xs ≡ xs
take_all zero [] h = refl
take_all zero (x ∷ xs) h = absurd (omega arith)
take_all (suc n) [] h = refl
take_all (suc n) (x ∷ xs) h = ap (λ t. x ∷ t) (take_all n xs (omega arith))

-- A file is written to its end.
write_file-append :
    (fuel : ℕ) (target source : List ℕ)
    → length source < fuel * 128
    → write_file fuel target source ≡ some (target ++ source)
unfolding write_file
write_file-append zero target source h = absurd (omega arith)
write_file-append (suc fuel) target source h = elim (Bool-cases (ltb (length source) 128)) [
  | inl short ↦ rw (short, take_all 128 source (ground arith)) refl
  | inr long ↦
      let shorter : length (drop 128 source) < fuel * 128 =
        let full : 128 ≤ length source = ground arith in
        rw (length-drop 128 source) (omega arith) in
      let rest = write_file-append fuel (target ++ take 128 source) (drop 128 source) shorter in
      rw long (
        rest
        ∙ ap some (
            append_assoc target (take 128 source) (drop 128 source)
            ∙ ap (λ t. target ++ t) (take-append-drop 128 source)))
]

-- `stat` tells the length of what `fread` gives, and the fuel is enough for the file.
abbrev pub Reads : (fuel : ℕ) → Files → FileName → Type 0
Reads fuel fs name =
    (fs.st_size name ≡ length (fs.contents name)) × (length (fs.contents name) < fuel * 128)

write_modules-pack :
    (fuel : ℕ) (target : List ℕ) (names : List FileName) (fs : Files)
    → All (Reads fuel fs) names
    → write_modules fuel target names fs ≡ some (target ++ pack (map fs.contents names))
unfolding write_modules write_size
write_modules-pack fuel target [] fs all = ap some (sym (append_nil target))
write_modules-pack fuel target (name ∷ names) fs all =
    let c = fs.contents name in
    let sized = target ++ uint32_bytes (length c) in
    let written = write_file-append fuel sized c all.0.1 in
    let rest = write_modules-pack fuel (sized ++ c) names fs all.1 in
    rw (all.0.0, written)
      (rest
        ∙ ap some (
            append_assoc sized c (pack (map fs.contents names))
            ∙ append_assoc target (uint32_bytes (length c)) (c ++ pack (map fs.contents names))))

-- buildImage ends, and writes the kernel, how many modules there are, and each module behind its
-- size, in order, if the output file can be created and `stat` tells the lengths of the files.
pub build_image-pack :
    (fuel : ℕ) (kernel : FileName) (modules : List FileName) (output_file : FileName) (fs : Files)
    → fs.creates output_file ≡ true
    → Reads fuel fs kernel
    → All (Reads fuel fs) modules
    → build_image fuel kernel modules output_file fs
      ≡ some (
        true,
        fs.contents kernel ++ (uint32_bytes (length modules) ++ pack (map fs.contents modules)),
      )
unfolding build_image
build_image-pack fuel kernel modules output_file fs can kernel_ok modules_ok =
    let first = write_file-append fuel [] (fs.contents kernel) kernel_ok.1 in
    let rest =
      write_modules-pack fuel (fs.contents kernel ++ uint32_bytes (length modules)) modules fs
        modules_ok in
    rw (can, first, rest)
      (ap (λ t. some (true, t))
        (append_assoc (fs.contents kernel) (uint32_bytes (length modules))
          (pack (map fs.contents modules))))
