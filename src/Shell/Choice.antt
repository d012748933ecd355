-- ===== src/Shell/Choice.antt =====
-- processComand of Userland/SampleCodeModule/shell.c on the text of a line.
use basic_kernel_implementat.Prelude.{
  ℕ, ◌<◌, ◌≡◌, refl, sym, ap, inl, inr, Bool, true, false, ◌&&◌, Option, some, List, [], ◌∷◌, ◌++◌,
  arith, ◌==◌, if◌then◌else◌, Bool-cases, length,
}
use basic_kernel_implementat.Text.{Chars}
use basic_kernel_implementat.Strings.Compare.{TextAt, strcmp-equal}
use basic_kernel_implementat.Stdio.Prefix.{IsPrefix, starts_with-IsPrefix}
use basic_kernel_implementat.Shell.{
  help, echo, hola, game, run_clear, chat, processes, run_philosophers, run_prodcons, new_shell,
  pipes, not_found, Command, Names, if_equal, if_starts, process_comand,
}

abbrev pub help_text : List ℕ
help_text = 104 ∷ 101 ∷ 108 ∷ 112 ∷ []

abbrev pub echo_text : List ℕ
echo_text = 101 ∷ 99 ∷ 104 ∷ 111 ∷ 32 ∷ []

abbrev pub hola_text : List ℕ
hola_text = 104 ∷ 111 ∷ 108 ∷ 97 ∷ []

abbrev pub game_text : List ℕ
game_text = 50 ∷ 48 ∷ 52 ∷ 56 ∷ 103 ∷ 97 ∷ 109 ∷ 101 ∷ []

abbrev pub clear_text : List ℕ
clear_text = 99 ∷ 108 ∷ 101 ∷ 97 ∷ 114 ∷ []

abbrev pub chat_text : List ℕ
chat_text = 99 ∷ 104 ∷ 97 ∷ 116 ∷ []

abbrev pub ps_text : List ℕ
ps_text = 112 ∷ 115 ∷ []

abbrev pub philosophers_text : List ℕ
philosophers_text = 112 ∷ 104 ∷ 105 ∷ 108 ∷ 111 ∷ 115 ∷ 111 ∷ 112 ∷ 104 ∷ 101 ∷ 114 ∷ 115 ∷ []

abbrev pub prodcons_text : List ℕ
prodcons_text = 112 ∷ 114 ∷ 111 ∷ 100 ∷ 99 ∷ 111 ∷ 110 ∷ 115 ∷ []

abbrev pub shell_text : List ℕ
shell_text = 110 ∷ 101 ∷ 119 ∷ 32 ∷ 115 ∷ 104 ∷ 101 ∷ 108 ∷ 108 ∷ []

abbrev pub pipes_text : List ℕ
pipes_text = 112 ∷ 105 ∷ 112 ∷ 101 ∷ 115 ∷ []

-- The texts are at their addresses.
pub record HoldsNames (n : Names) (m : Chars) : Type 0 where
  pub helps : TextAt m n.help_at help_text
  pub echoes : TextAt m n.echo_at echo_text
  pub holas : TextAt m n.hola_at hola_text
  pub games : TextAt m n.game_at game_text
  pub clears : TextAt m n.clear_at clear_text
  pub chats : TextAt m n.chat_at chat_text
  pub ps : TextAt m n.ps_at ps_text
  pub philosophies : TextAt m n.philosophers_at philosophers_text
  pub prodconses : TextAt m n.prodcons_at prodcons_text
  pub shells : TextAt m n.shell_at shell_text
  pub pipeses : TextAt m n.pipes_at pipes_text

abbrev pub same : (xs ys : List ℕ) → Bool
same [] [] = true
same [] (y ∷ ys) = false
same (x ∷ xs) [] = false
same (x ∷ xs) (y ∷ ys) = (x == y) && same xs ys

abbrev pub begins : (xs ys : List ℕ) → Bool
begins [] ys = true
begins (x ∷ xs) [] = false
begins (x ∷ xs) (y ∷ ys) = (x == y) && begins xs ys

-- The command that a line is.
abbrev pub command_of : List ℕ → Command
command_of line =
    if same line help_text
    then help
    else if begins echo_text line
    then echo
    else if same line hola_text
    then hola
    else if same line game_text
    then game
    else if same clear_text line
    then run_clear
    else if begins chat_text line
    then chat
    else if same ps_text line
    then processes
    else if same philosophers_text line
    then run_philosophers
    else if same prodcons_text line
    then run_prodcons
    else if same shell_text line
    then new_shell
    else if same pipes_text line
    then pipes
    else not_found

same_self : (xs : List ℕ) → same xs xs ≡ true
same_self [] = refl
same_self (x ∷ xs) = ground (arith, same_self xs)

same_sound : (xs ys : List ℕ) → same xs ys ≡ true → xs ≡ ys
same_sound [] [] h = refl
same_sound [] (y ∷ ys) h = absurd (ground arith)
same_sound (x ∷ xs) [] h = absurd (ground arith)
same_sound (x ∷ xs) (y ∷ ys) h =
    let first : x ≡ y = ground arith in
    let rest : same xs ys ≡ true = ground arith in rw (first, same_sound xs ys rest) refl

begins_append : (xs zs : List ℕ) → begins xs (xs ++ zs) ≡ true
begins_append [] zs = refl
begins_append (x ∷ xs) zs = ground (arith, begins_append xs zs)

begins_sound : (xs ys : List ℕ) → begins xs ys ≡ true → IsPrefix xs ys
begins_sound [] ys h = (ys, refl)
begins_sound (x ∷ xs) [] h = absurd (ground arith)
begins_sound (x ∷ xs) (y ∷ ys) h =
    let first : y ≡ x = ground arith in
    let rest : begins xs ys ≡ true = ground arith in
    let (zs, e) = begins_sound xs ys rest in (zs, rw (first, e) refl)

-- A comparison with a text, where the command is known otherwise.
if_equal-same :
    (fuel p q : ℕ) (xs ys : List ℕ) (m : Chars) (c d : Command) {others : Option Command}
    → TextAt m p xs
    → TextAt m q ys
    → length xs < fuel
    → others ≡ some d
    → if_equal fuel p q m c others ≡ some (if same xs ys then c else d)
if_equal-same fuel p q xs ys m c d s t h otherwise =
    let (r, ended, tells) = strcmp-equal fuel p q xs ys m s t h in
    elim (Bool-cases (same xs ys)) [
      | inl equal ↦
          let zero_result : r ≡ 0 = tells.1 (same_sound xs ys equal) in
          rw (ended, equal, zero_result) refl
      | inr other ↦
          let some_result : (r == 0) ≡ false = elim (Bool-cases (r == 0)) [
            | inr no_match ↦ no_match
            | inl match ↦
                let equal : xs ≡ ys = tells.0 (ground arith) in
                absurd (ground (arith, other, ap (same xs) (sym equal), same_self xs))
          ] in
          rw (ended, other, some_result) otherwise
    ]

if_starts-begins :
    (fuel p q : ℕ) (xs ys : List ℕ) (m : Chars) (c d : Command) {others : Option Command}
    → TextAt m p xs
    → TextAt m q ys
    → length xs < fuel
    → others ≡ some d
    → if_starts fuel p q m c others ≡ some (if begins xs ys then c else d)
if_starts-begins fuel p q xs ys m c d s t h otherwise =
    let (b, ended, tells) = starts_with-IsPrefix fuel p q xs ys m s t h in
    elim (Bool-cases (begins xs ys)) [
      | inl prefix ↦
          let yes_result : b ≡ true = tells.1 (begins_sound xs ys prefix) in
          rw (ended, prefix, yes_result) refl
      | inr other ↦
          let no_result : b ≡ false = elim (Bool-cases b) [
            | inr no_match ↦ no_match
            | inl match ↦
                let (zs, split) = tells.0 match in
                absurd (ground (arith, other, ap (begins xs) (sym split), begins_append xs zs))
          ] in
          rw (ended, other, no_result) otherwise
    ]

-- processComand finds the command that the line is: the one whose name the line equals, `echo` or `chat`
-- if it begins with that, and otherwise none.
pub process_comand-command_of :
    (fuel buffer : ℕ) (n : Names) (line : List ℕ) (m : Chars)
    → HoldsNames n m
    → TextAt m buffer line
    → length line < fuel
    → 12 < fuel
    → process_comand fuel n buffer m ≡ some (command_of line)
unfolding process_comand
process_comand-command_of fuel buffer n line m h t short enough =
    if_equal-same fuel buffer n.help_at line help_text m help _ t h.helps short (
      if_starts-begins fuel n.echo_at buffer echo_text line m echo _ h.echoes t (omega arith) (
        if_equal-same fuel buffer n.hola_at line hola_text m hola _ t h.holas short (
          if_equal-same fuel buffer n.game_at line game_text m game _ t h.games short (
            if_equal-same fuel n.clear_at buffer clear_text line m run_clear _ h.clears t
              (omega arith)
              (if_starts-begins fuel n.chat_at buffer chat_text line m chat _ h.chats t
                (omega arith)
                (if_equal-same fuel n.ps_at buffer ps_text line m processes _ h.ps t (omega arith) (
                  if_equal-same fuel n.philosophers_at buffer philosophers_text line m
                    run_philosophers _ h.philosophies t (omega arith)
                    (if_equal-same fuel n.prodcons_at buffer prodcons_text line m run_prodcons _
                      h.prodconses t (omega arith)
                      (if_equal-same fuel n.shell_at buffer shell_text line m new_shell _ h.shells t
                        (omega arith)
                        (if_equal-same fuel n.pipes_at buffer pipes_text line m pipes not_found
                          h.pipeses t (omega arith) refl))))))))))
