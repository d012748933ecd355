-- ===== src/Shell/Tests.antt =====
-- Lines that the shell of Userland/SampleCodeModule/shell.c gets.
use basic_kernel_implementat.Prelude.{
  ℕ, ◌+◌, ◌/◌, ◌%◌, ◌≡◌, refl, Bool, true, ◌&&◌, some, List, [], ◌∷◌, arith, ltb, ◌==◌,
  if◌then◌else◌, get_or,
}
use basic_kernel_implementat.Text.{Chars}
use basic_kernel_implementat.Strings.Compare.{TextAt}
use basic_kernel_implementat.Stdio.{Stdio}
use basic_kernel_implementat.Stdio.Input.{HoldsLine}
use basic_kernel_implementat.Shell.Line.{shell_line-HoldsLine}
use basic_kernel_implementat.Shell.{shell_line, Names, process_comand, new_shell, echo, not_found}
use basic_kernel_implementat.Shell.Choice.{
  process_comand-command_of, HoldsNames, help_text, echo_text, hola_text, game_text, clear_text,
  chat_text, ps_text, philosophers_text, prodcons_text, shell_text, pipes_text, command_of,
}

-- The texts are 100 bytes apart, and the line is at 2000.
abbrev names : Names
names = record {
  help_at = 100;
  echo_at = 200;
  hola_at = 300;
  game_at = 400;
  clear_at = 500;
  chat_at = 600;
  ps_at = 700;
  philosophers_at = 800;
  prodcons_at = 900;
  shell_at = 1000;
  pipes_at = 1100;
}

abbrev texts : ℕ → List ℕ
texts k =
    if k == 1
    then help_text
    else if k == 2
    then echo_text
    else if k == 3
    then hola_text
    else if k == 4
    then game_text
    else if k == 5
    then clear_text
    else if k == 6
    then chat_text
    else if k == 7
    then ps_text
    else if k == 8
    then philosophers_text
    else if k == 9
    then prodcons_text
    else if k == 10
    then shell_text
    else if k == 11
    then pipes_text
    else shell_text

abbrev memory : Chars
memory a = get_or (texts (a / 100)) (a % 100) 0

abbrev has_text : (p : ℕ) (xs : List ℕ) → Bool
has_text p [] = memory p == 0
has_text p (x ∷ xs) = (memory p == x) && (ltb 0 x && (ltb x 256 && has_text (p + 1) xs))

has_text-TextAt : (p : ℕ) (xs : List ℕ) → has_text p xs ≡ true → TextAt memory p xs
has_text-TextAt p [] h = ground arith
has_text-TextAt p (x ∷ xs) h =
    let here : memory p ≡ x = ground arith in
    let rest : has_text (p + 1) xs ≡ true = ground arith in
    (here, ground arith, ground arith, has_text-TextAt (p + 1) xs rest)

names-HoldsNames : HoldsNames names memory
names-HoldsNames = record {
  helps = has_text-TextAt 100 help_text refl;
  echoes = has_text-TextAt 200 echo_text refl;
  holas = has_text-TextAt 300 hola_text refl;
  games = has_text-TextAt 400 game_text refl;
  clears = has_text-TextAt 500 clear_text refl;
  chats = has_text-TextAt 600 chat_text refl;
  ps = has_text-TextAt 700 ps_text refl;
  philosophies = has_text-TextAt 800 philosophers_text refl;
  prodconses = has_text-TextAt 900 prodcons_text refl;
  shells = has_text-TextAt 1000 shell_text refl;
  pipeses = has_text-TextAt 1100 pipes_text refl;
}

commands_test :
    (command_of (101 ∷ 99 ∷ 104 ∷ 111 ∷ 32 ∷ 97 ∷ []) ≡ echo)
    × (command_of (108 ∷ 115 ∷ []) ≡ not_found)
commands_test = (refl, refl)

process_comand-command_of_example : process_comand 13 names 2000 memory ≡ some new_shell
process_comand-command_of_example =
    process_comand-command_of 13 2000 names shell_text memory names-HoldsNames
      (has_text-TextAt 2000 shell_text refl) (omega arith) (omega arith)

abbrev typed : Stdio
typed = record {
  memory = memory;
  written = [];
  keys = 112 ∷ 115 ∷ 120 ∷ 8 ∷ 10 ∷ [];
  buffer = λ _. 0;
  i = 0;
}

shell_line-HoldsLine_example :
    (s' : Stdio) × (shell_line 9 3000 0 typed ≡ some s')
    × HoldsLine s'.memory 3000 (115 ∷ 112 ∷ [])
    × (s'.memory 3002 ≡ 0)
    × (s'.keys ≡ [])
shell_line-HoldsLine_example =
    shell_line-HoldsLine 9 3000 (112 ∷ 115 ∷ 120 ∷ 8 ∷ []) [] typed refl refl
      (omega arith, (omega arith, (omega arith, (omega arith, tt)))) (omega arith)
