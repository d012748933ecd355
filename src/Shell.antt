-- ===== src/Shell.antt =====
-- shell and processComand of Userland/SampleCodeModule/shell.c: the loop, and which command a line is. The
-- texts that it compares with are in memory, at the addresses of `Names`. What a command does are calls of other parts.
pub mod Choice
pub mod Line
mod Tests
use basic_kernel_implementat.Prelude.{
  ◌>>=◌, ℕ, Option, some, ◌==◌, if◌then◌else◌, zero, suc, ◌+◌, ◌-◌, none, [], ltb, update,
}
use basic_kernel_implementat.Text.{Chars}
use basic_kernel_implementat.Strings.{strcmp}
use basic_kernel_implementat.Stdio.{Stdio, newline, backspace, putchar, getchar, starts_with}
use basic_kernel_implementat.Stdio.Format.{printf}

pub data Command : Type 0 where
  help echo hola game run_clear chat processes run_philosophers run_prodcons new_shell pipes
        not_found :
      Command

-- Where the texts are.
pub record Names : Type 0 where
  pub help_at : ℕ
  pub echo_at : ℕ
  pub hola_at : ℕ
  pub game_at : ℕ
  pub clear_at : ℕ
  pub chat_at : ℕ
  pub ps_at : ℕ
  pub philosophers_at : ℕ
  pub prodcons_at : ℕ
  pub shell_at : ℕ
  pub pipes_at : ℕ

-- `!strcmp(p, q)`, and what comes then and otherwise.
abbrev pub if_equal :
    ℕ → (p q : ℕ) → Chars → (then_command : Command) → Option Command → Option Command
if_equal fuel p q m c others = strcmp fuel p q m >>= λ r. if r == 0 then some c else others

abbrev pub if_starts :
    ℕ → (p q : ℕ) → Chars → (then_command : Command) → Option Command → Option Command
if_starts fuel p q m c others = starts_with fuel p q m >>= λ b. if b then some c else others

unfoldable pub process_comand : ℕ → Names → (buffer : ℕ) → Chars → Option Command
process_comand fuel n buffer m = if_equal fuel buffer n.help_at m help (
    if_starts fuel n.echo_at buffer m echo (
      if_equal fuel buffer n.hola_at m hola (
        if_equal fuel buffer n.game_at m game (
          if_equal fuel n.clear_at buffer m run_clear (
            if_starts fuel n.chat_at buffer m chat (
              if_equal fuel n.ps_at buffer m processes (
                if_equal fuel n.philosophers_at buffer m run_philosophers (
                  if_equal fuel n.prodcons_at buffer m run_prodcons (
                    if_equal fuel n.shell_at buffer m new_shell
                      (if_equal fuel n.pipes_at buffer m pipes (some not_found)))))))))))

-- The loop of shell that reads a line, which prints what is typed.
unfoldable pub shell_line : ℕ → (buffer i : ℕ) → Stdio → Option Stdio
shell_line zero buffer i s = none
shell_line (suc fuel) buffer i s = getchar s >>= λ r.
    let c = r.0 in
    let s1 = r.1 in
    let ended = putchar newline s1 in
    let stored =
      shell_line fuel buffer (i + 1)
        (putchar c (record s1 { memory = update s1.memory (buffer + i) c })) in
    let erased = shell_line fuel buffer (i - 1) (putchar c s1) in
    let unchanged = shell_line fuel buffer i s1 in
    if c == newline
    then some (record ended { memory = update ended.memory (buffer + i) 0 })
    else if c == backspace
    then (if ltb 0 i then erased else unchanged)
    else stored

-- A round of the loop of shell, whose prompt is at `prompt`, up to the command that it runs.
unfoldable pub shell_round : ℕ → Names → (prompt buffer : ℕ) → Stdio → Option (Command × Stdio)
shell_round fuel n prompt buffer s = do
  s1 ← printf fuel prompt [] s
  s2 ← shell_line fuel buffer 0 s1
  c ← process_comand fuel n buffer s2.memory
  some (c, s2)
