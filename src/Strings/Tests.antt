-- ===== src/Strings/Tests.antt =====
-- Texts, and runs of Userland/SampleCodeModule/string.c.
use basic_kernel_implementat.Prelude.{◌≡◌, refl, ◌||◌, some, ◌==◌, if◌then◌else◌, ◌>>=◌}
use basic_kernel_implementat.Text.{Chars}
use basic_kernel_implementat.Strings.{
  strstr, strstr_match, strcpy, string_to_num_loop, string_to_num,
}

-- "ab" at 10 and "ac" at 20.
abbrev memory : Chars
memory q =
    if (q == 10) || (q == 20) then 97 else (if q == 11 then 98 else (if q == 21 then 99 else 0))

number : string_to_num 9 0 (λ q. if q == 0 then 52 else (if q == 1 then 50 else 0)) ≡ some 42
unfolding string_to_num string_to_num_loop
number = refl

copied : (strcpy 9 30 10 memory >>= λ m. some (m 31)) ≡ some 98
unfolding strcpy
copied = refl

-- "aaab" at 40, "aab" at 50 and "ab" at 60: the search goes on behind what was equal, and misses "aab".
abbrev letters : Chars
letters q =
    if (q == 43) || (q == 52) || (q == 61)
    then 98
    else (if (q == 40) || (q == 41) || (q == 42) || (q == 50) || (q == 51) || (q == 60)
        then 97
        else 0)

missed : strstr 9 40 50 letters ≡ some 0
unfolding strstr strstr_match
missed = refl

missed_too : strstr 9 50 60 letters ≡ some 0
unfolding strstr strstr_match
missed_too = refl

found_first : strstr 9 40 40 letters ≡ some 1
unfolding strstr strstr_match
found_first = refl
