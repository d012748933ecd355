-- ===== src/Screens/Samples.antt =====
-- Two processes with a screen each, the first with the focus.
use basic_kernel_implementat.Prelude.{
  ℕ, ◌+◌, ◌≡◌, refl, ◌⊎◌, true, List, [], ◌∷◌, arith, ◌==◌, if◌then◌else◌, has,
}
use basic_kernel_implementat.Kernel.{null}
use basic_kernel_implementat.Kernel.Samples.{two}
use basic_kernel_implementat.Video.{Video}
use basic_kernel_implementat.Video
use basic_kernel_implementat.Screens.{ScreenNode, Screens}
use basic_kernel_implementat.Screens.Linked.{Linked}
use basic_kernel_implementat.Screens.Switch.{IsScreens}

abbrev first_node : ScreenNode
first_node = record {
  pid = 1;
  screen = 0x110000;
  current_position = 0x110000;
  next = 0x109000;
  prev = null;
}

abbrev pub last_node : ScreenNode
last_node = record {
  pid = 2;
  screen = 0x120000;
  current_position = 0x120002;
  next = null;
  prev = 0x108000;
}

-- Process 1 has the focus.
abbrev pub both : Screens
both = record {
  kernel = two;
  video = record {
    memory = λ p. if p == 0x120000 then 72 else 0;
    current_position = Video.screen + 4;
    own_position = 0;
  };
  nodes = λ p. if p == 0x108000 then first_node else last_node;
  list = 0x108000;
  on_focus_pid = 1;
}

abbrev pub pair : List ℕ
pair = 0x108000 ∷ 0x109000 ∷ []

pub both-Linked : Linked both.nodes null 0x108000 pair
both-Linked = (refl, omega arith, refl, (refl, omega arith, refl, refl))

in_pair : (a : ℕ) → has a pair ≡ true → (a ≡ 0x108000) ⊎ (a ≡ 0x109000)
in_pair a h = ground arith

pub both-IsScreens : IsScreens both pair
both-IsScreens = record {
  linked = both-Linked;
  once = λ a b i j e. ground (arith, in_pair a i, in_pair b j);
  apart = λ a b i j ne. ground (arith, in_pair a i, in_pair b j);
  off_video = λ a i. ground (arith, in_pair a i);
  cursors = λ a i. record {
    from = ground (arith, in_pair a i);
    inside = ground (arith, in_pair a i);
    fits = ground (arith, in_pair a i);
  };
  places = λ a i. ground (arith, in_pair a i);
}
