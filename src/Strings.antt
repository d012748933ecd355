-- ===== src/Strings.antt =====
-- Userland/SampleCodeModule/string.c, the texts of user programs. A text is an address in the memory
-- of bytes, and ends before a 0. An `int` is the pattern of its 32 bits, and a bound `n` is not negative.
pub mod Compare
pub mod Reverse
mod Tests
use basic_kernel_implementat.Prelude.{
  ◌>>=◌, ℕ, zero, suc, ◌+◌, ◌-◌, ◌*◌, ◌/◌, ◌%◌, ◌^◌, ◌&&◌, Option, none, some, ltb, ◌==◌,
  if◌then◌else◌, update, length,
}
use basic_kernel_implementat.Kernel.{minus_one}
use basic_kernel_implementat.Text.{Chars}

unfoldable pub strlen_loop : ℕ → (str length : ℕ) → Chars → Option ℕ
strlen_loop zero str length m = none
strlen_loop (suc fuel) str length m =
    let rest = strlen_loop fuel (str + 1) (length + 1) m in if m str == 0 then some length else rest

unfoldable pub strlen : ℕ → (str : ℕ) → Chars → Option ℕ
strlen fuel str m = strlen_loop fuel str 0 m

-- The loop of strrev, with `left` rounds to go.
unfoldable pub strrev_loop : (left i medio str : ℕ) → Chars → Chars
strrev_loop zero i medio str m = m
strrev_loop (suc left) i medio str m =
    let aux = m (str + i) in
    let m1 = update m (str + i) (m (str + (2 * medio - i))) in
    strrev_loop left (i + 1) medio str (update m1 (str + (2 * medio - i)) aux)

unfoldable pub strrev : ℕ → (str : ℕ) → Chars → Option (ℕ × Chars)
strrev fuel str m = do
  length ← strlen fuel str m
  let medio = length / 2
  some (str, strrev_loop medio 0 medio str m)

-- `left` is what is left of `n`.
unfoldable pub strncat_loop : (left to from : ℕ) → Chars → Chars
strncat_loop zero to from m = update m to 0
strncat_loop (suc left) to from m =
    let rest = strncat_loop left (to + 1) (from + 1) (update m to (m from)) in
    if m from == 0 then update m to 0 else rest

unfoldable pub strncat : ℕ → (str1 str2 n : ℕ) → Chars → Option (ℕ × Chars)
strncat fuel str1 str2 n m = do
  length ← strlen fuel str1 m
  some (str1, strncat_loop n (str1 + length) str2 m)

unfoldable pub strpbrk_loop : ℕ → (str1 s i : ℕ) → Chars → Option ℕ
strpbrk_loop zero str1 s i m = none
strpbrk_loop (suc fuel) str1 s i m =
    let rest = strpbrk_loop fuel str1 s (i + 1) m in
    if m (str1 + i) == 0 then some minus_one else (if m (str1 + i) == s then some i else rest)

unfoldable pub strpbrk : ℕ → (str1 s : ℕ) → Chars → Option ℕ
strpbrk fuel str1 s m = strpbrk_loop fuel str1 s 0 m

unfoldable pub strcpy : ℕ → (dest src : ℕ) → Chars → Option Chars
strcpy zero dest src m = none
strcpy (suc fuel) dest src m =
    let rest = strcpy fuel (dest + 1) (src + 1) (update m dest (m src)) in
    if m src == 0 then some (update m dest 0) else rest

-- The loop of strcat is that of strcpy, at the end of the first text.
unfoldable pub strcat : ℕ → (str1 str2 : ℕ) → Chars → Option (ℕ × Chars)
strcat fuel str1 str2 m = do
  length ← strlen fuel str1 m
  m1 ← strcpy fuel (str1 + length) str2 m
  some (str1, m1)

unfoldable pub strncpy : (dest src n : ℕ) → Chars → Chars
strncpy dest src n m = strncat_loop n dest src m

-- A `char`, which has a sign, as an `int`.
abbrev pub char_int : ℕ → ℕ
char_int c = if ltb c 128 then c else c + 2 ^ 32 - 2 ^ 8

unfoldable pub strcmp : ℕ → (str1 str2 : ℕ) → Chars → Option ℕ
strcmp zero str1 str2 m = none
strcmp (suc fuel) str1 str2 m =
    let rest = strcmp fuel (str1 + 1) (str2 + 1) m in
    if (m str1 == m str2) && (ltb 0 (m str1)) && (ltb 0 (m str2))
    then rest
    else some ((char_int (m str1) + 2 ^ 32 - char_int (m str2)) % 2 ^ 32)

unfoldable pub string_to_num_loop : ℕ → (number ret : ℕ) → Chars → Option ℕ
string_to_num_loop zero number ret m = none
string_to_num_loop (suc fuel) number ret m =
    let rest =
      string_to_num_loop fuel (number + 1) ((ret * 10 + char_int (m number) + 2 ^ 32 - 48) % 2 ^ 32)
        m in
    if m number == 0 then some ret else rest

unfoldable pub string_to_num : ℕ → (number : ℕ) → Chars → Option ℕ
string_to_num fuel number m = string_to_num_loop fuel number 0 m

-- The inner loop of strstr: both texts from where they first differ on, and how many bytes were equal.
unfoldable pub strstr_match : ℕ → (str1 str2 count : ℕ) → Chars → Option (ℕ × ℕ × ℕ)
strstr_match zero str1 str2 count m = none
strstr_match (suc fuel) str1 str2 count m =
    let rest = strstr_match fuel (str1 + 1) (str2 + 1) (count + 1) m in
    if (m str1 == m str2) && (ltb 0 (m str2)) && (ltb 0 (m str1))
    then rest
    else some (str1, str2, count)

-- `flag` is set when `count` is not 0.
unfoldable pub strstr : ℕ → (str1 str2 : ℕ) → Chars → Option ℕ
strstr zero str1 str2 m = none
strstr (suc fuel) str1 str2 m =
    let found = strstr_match (suc fuel) str1 str2 0 m >>= λ r.
    let later = strstr fuel (r.0 + 1) (r.1 - r.2) m in
    if m (r.1) == 0 then some 1 else (if m (r.0) == 0 then some 0 else later) in
    if m str1 == 0 then some 0 else found
