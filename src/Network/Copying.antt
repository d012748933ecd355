-- ===== src/Network/Copying.antt =====
-- The loops of Kernel/RTL8139.c over bytes: which bytes mymemcpy writes, and what isForMe compares.
use basic_kernel_implementat.Prelude.{
  ℕ, zero, suc, ◌+◌, ◌-◌, ◌≤◌, ◌<◌, ◌≡◌, refl, ap, ◌∙◌, ◌⊎◌, inl, inr, true, ◌&&◌, arith, ltb, leb,
  ◌==◌, if◌then◌else◌, Bool-cases, update, length,
}
use basic_kernel_implementat.Text.{Chars}
use basic_kernel_implementat.Network.{copy_bytes, mymemcpy, same_mac}

copy_bytes_lem :
    (left i : ℕ) (dest : Chars) (d : ℕ) (src : Chars) (s : ℕ)
    → copy_bytes (suc left) i dest d src s
      ≡ copy_bytes left (i + 1) (update dest (d + i) (src (s + i))) d src s
unfolding copy_bytes
copy_bytes_lem left i dest d src s = refl

pub copy_bytes-outside :
    (left i : ℕ) (dest : Chars) (d : ℕ) (src : Chars) (s q : ℕ)
    → (q < d + i) ⊎ (d + i + left ≤ q)
    → copy_bytes left i dest d src s q ≡ dest q
unfolding copy_bytes
copy_bytes-outside zero i dest d src s q out = refl
copy_bytes-outside (suc left) i dest d src s q out =
    ground (arith, copy_bytes-outside left (i + 1) (update dest (d + i) (src (s + i))) d src s q)

pub copy_bytes-inside :
    (left i : ℕ) (dest : Chars) (d : ℕ) (src : Chars) (s k : ℕ)
    → i ≤ k
    → k < i + left
    → copy_bytes left i dest d src s (d + k) ≡ src (s + k)
copy_bytes-inside zero i dest d src s k after h = absurd (omega arith)
copy_bytes-inside (suc left) i dest d src s k after h =
    let d1 = update dest (d + i) (src (s + i)) in
    elim (Bool-cases (k == i)) [
      | inl here ↦
          rw (copy_bytes_lem left i dest d src s)
            (copy_bytes-outside left (i + 1) d1 d src s (d + k) (inl (ground arith)) ∙ ground arith)
      | inr later ↦
          rw (copy_bytes_lem left i dest d src s)
            (copy_bytes-inside left (i + 1) d1 d src s k (ground arith) (omega arith))
    ]

-- mymemcpy writes the bytes of the source, in order, and no others.
pub mymemcpy_lem :
    (dest : Chars) (d : ℕ) (src : Chars) (s length q : ℕ)
    → mymemcpy dest d src s length q
      ≡ (if leb d q && ltb q (d + length) then src (s + (q - d)) else dest q)
unfolding mymemcpy
mymemcpy_lem dest d src s length q = elim (Bool-cases (leb d q && ltb q (d + length))) [
  | inl inside ↦
      let here : q ≡ d + (q - d) = ground arith in
      let value : copy_bytes length 0 dest d src s (d + (q - d)) ≡ src (s + (q - d)) =
        copy_bytes-inside length 0 dest d src s (q - d) (omega arith) (ground arith) in
      rw inside (ap (copy_bytes length 0 dest d src s) here ∙ value)
  | inr outside ↦ rw outside (copy_bytes-outside length 0 dest d src s q (ground arith))
]

-- The comparison of two addresses holds exactly if all bytes are equal.
pub same_mac_complete :
    (left i : ℕ) (frame mac : Chars)
    → ((k : ℕ) → i ≤ k → k < i + left → frame k ≡ mac k)
    → same_mac left i frame mac ≡ true
unfolding same_mac
same_mac_complete zero i frame mac h = refl
same_mac_complete (suc left) i frame mac h =
    let rest =
      same_mac_complete left (i + 1) frame mac (λ k after lt. h k (omega arith) (omega arith)) in
    rw rest (ground (arith, h i (omega arith) (omega arith)))

same_mac-step :
    (left i : ℕ) (frame mac : Chars)
    → same_mac (suc left) i frame mac ≡ true
    → (frame i ≡ mac i) × (same_mac left (i + 1) frame mac ≡ true)
unfolding same_mac
same_mac-step left i frame mac h = ground arith

pub same_mac_sound :
    (left i : ℕ) (frame mac : Chars)
    → same_mac left i frame mac ≡ true
    → (k : ℕ) → i ≤ k
    → k < i + left
    → frame k ≡ mac k
same_mac_sound zero i frame mac h k after lt = absurd (omega arith)
same_mac_sound (suc left) i frame mac h k after lt =
    let (first, rest) = same_mac-step left i frame mac h in
    elim (Bool-cases (k == i)) [
      | inl here ↦ ground arith
      | inr later ↦ same_mac_sound left (i + 1) frame mac rest k (ground arith) (omega arith)
    ]
