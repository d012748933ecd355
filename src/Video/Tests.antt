-- ===== src/Video/Tests.antt =====
-- A screen whose cursor is at the end of the last line, a text, runs of the code, and the witnesses.
use basic_kernel_implementat.Prelude.{◌+◌, ◌≡◌, refl, arith, ◌==◌, if◌then◌else◌}
use basic_kernel_implementat.Video.{screen, Video, next_line, tab_stop, print_characters, current}
use basic_kernel_implementat.Video.Cursor.{IsOn, Stays}
use basic_kernel_implementat.Video.Printing.{print_characters-Stays}

abbrev sample : Video
sample = record {
  memory = λ p. if p == 100 then 72 else (if p == 101 then 105 else 0);
  current_position = screen + 3998;
  own_position = 0x200000;
}

sample-IsOn : IsOn screen sample.current_position
sample-IsOn = record { from = omega arith; before = omega arith; even = refl }

-- A tab from column 13 leads to column 24.
tab_13 : tab_stop (screen + 26) ≡ screen + 48
tab_13 = refl

-- A new line from the middle of line 1.
line_1 : next_line screen (screen + 200) ≡ screen + 320
line_1 = refl

print_characters-Stays_example : Stays screen current sample (print_characters 65 sample)
print_characters-Stays_example = print_characters-Stays 65 sample sample-IsOn
