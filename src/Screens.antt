-- ===== src/Screens.antt =====
-- Kernel/screenLoader.c with Kernel/include/screenLoader.h: the list of the screens of processes that
-- are not on the video screen, and which process has the focus.
pub mod Linked
pub mod Switch
pub mod Focus
pub mod Added
pub mod Samples
mod Tests
use basic_kernel_implementat.Prelude.{
  ◌||◌, ℕ, zero, suc, ◌*◌, Bool, Option, none, some, ◌==◌, if◌then◌else◌, update, ◌>>=◌,
}
use basic_kernel_implementat.Kernel.{Kernel, null, minus_one}
use basic_kernel_implementat.Kernel.Lookup.{get_current_pid}
use basic_kernel_implementat.Kernel.Threads.{kernel_allocate, kernel_deallocate}
use basic_kernel_implementat.Video.{Video, window_size, clear, set_screen, backup_content}

abbrev pub no_focus : ℕ
no_focus = minus_one

pub record ScreenNode : Type 0 where
  pub pid : ℕ
  pub screen : ℕ
  pub current_position : ℕ
  pub next : ℕ
  pub prev : ℕ

abbrev pub sizeof_screen_node : ℕ
sizeof_screen_node = 40

-- `WINDOW_SIZE*sizeof(char *)`.
abbrev pub sizeof_screen : ℕ
sizeof_screen = window_size * 8

-- The globals of screenLoader.c, the memory of the nodes, the video, and the kernel.
pub record Screens : Type 0 where
  pub kernel : Kernel
  pub video : Video
  pub nodes : ℕ → ScreenNode
  pub list : ℕ
  pub on_focus_pid : ℕ

abbrev pub set_node : (p : ℕ) → ScreenNode → Screens → Screens
set_node p n s = record s { nodes = update s.nodes p n }

abbrev pub set_next : (p next : ℕ) → Screens → Screens
set_next p next s = set_node p (record (s.nodes p) { next = next }) s

-- The loop of findScreenNodeByPid.
unfoldable pub find_loop : ℕ → (pid node : ℕ) → (ℕ → ScreenNode) → Option ℕ
find_loop zero pid node nodes = none
find_loop (suc fuel) pid node nodes =
    let rest = find_loop fuel pid (nodes node).next nodes in
    if (node == null) || ((nodes node).pid == pid) then some node else rest

unfoldable pub find_screen_node_by_pid : ℕ → (pid : ℕ) → Screens → Option ℕ
find_screen_node_by_pid fuel pid s = find_loop fuel pid s.list s.nodes

unfoldable pub find_screen_by_pid : ℕ → (pid : ℕ) → Screens → Option ℕ
find_screen_by_pid fuel pid s = do
  node ← find_screen_node_by_pid fuel pid s
  some (if node == null then null else (s.nodes node).screen)

-- A node with an empty screen and the cursor at its start; the other fields are not written.
unfoldable pub new_screen_node : Screens → Option (ℕ × Screens)
new_screen_node s =
    let (node, k1) = kernel_allocate sizeof_screen_node s.kernel in
    let (screen, k2) = kernel_allocate sizeof_screen k1 in
    let s1 = set_node node (record (s.nodes node) { screen = screen }) (record s { kernel = k2 }) in
    let cleared = record s1.video { memory = clear screen s1.video.memory } in
    let placed = record (s1.nodes node) { current_position = screen } in
    if node == null
    then some (null, record s { kernel = k1 })
    else (if screen == null
        then kernel_deallocate node sizeof_screen_node k2
          >>= (λ k3. some (null, record s1 { kernel = k3 }))
        else some (node, set_node node placed (record s1 { video = cleared })))

-- addScreen at the end of the list.
unfoldable pub append_screen : (prev pid : ℕ) → Screens → Option (ℕ × Screens)
append_screen prev pid s = do
  (node, s1) ← new_screen_node s
  some (
    node,
    if node == null
        then s1
        else set_node node (record (s1.nodes node) { pid = pid; next = null; prev = prev }) s1,
  )

unfoldable pub add_screen : ℕ → (current prev pid : ℕ) → Screens → Option (ℕ × Screens)
add_screen zero current prev pid s = none
add_screen (suc fuel) current prev pid s =
    let rest = add_screen fuel (s.nodes current).next current pid s in
    if current == null
    then append_screen prev pid s
    else rest >>= λ r. some (current, set_next current r.0 r.1)

unfoldable pub save_screen : ℕ → Screens → Option Screens
save_screen fuel s = do
  node ← find_screen_node_by_pid fuel s.on_focus_pid s
  let (position, video) = backup_content (s.nodes node).screen s.video
  some (
      if node == null
      then s
      else set_node node (record (s.nodes node) { current_position = position })
          (record s { video = video }))

-- The part of loadScreen behind the search: the node goes on the video screen.
unfoldable pub show_screen : ℕ → (pid node : ℕ) → Screens → Option (ℕ × Screens)
show_screen fuel pid node s = do
  s1 ← save_screen fuel s
  let n = s1.nodes node
  some
      (1, record s1 { video = set_screen n.screen n.current_position s1.video; on_focus_pid = pid })

unfoldable pub load_screen : ℕ → (pid : ℕ) → Screens → Option (ℕ × Screens)
load_screen fuel pid s = do
  node ← find_screen_node_by_pid fuel pid s
  let added = do
    (list, s1) ← add_screen fuel s.list null pid s
    let s2 = record s1 { list = list }
    node1 ← find_screen_node_by_pid fuel pid s2
    let shown = show_screen fuel pid node1 s2
    if node1 == null then some (0, s2) else shown
  let shown = show_screen fuel pid node s
  if node == null then added else shown

unfoldable pub is_current_process_on_focus : Screens → Bool
is_current_process_on_focus s = s.on_focus_pid == get_current_pid s.kernel

unfoldable pub get_focus_process_pid : Screens → ℕ
get_focus_process_pid s = s.on_focus_pid

-- The list is not written here.
unfoldable pub get_current_screen_node : ℕ → Screens → Option (ℕ × Screens)
get_current_screen_node fuel s = do
  let pid = get_current_pid s.kernel
  node ← find_screen_node_by_pid fuel pid s
  let added = add_screen fuel s.list null pid s
  if node == null then added else some (node, s)

unfoldable pub get_current_screen : ℕ → Screens → Option (ℕ × Screens)
get_current_screen fuel s = do
  (node, s1) ← get_current_screen_node fuel s
  some (if node == null then null else (s1.nodes node).screen, s1)

unfoldable pub get_current_screen_position : ℕ → Screens → Option (ℕ × Screens)
get_current_screen_position fuel s = do
  (node, s1) ← get_current_screen_node fuel s
  some (if node == null then null else (s1.nodes node).current_position, s1)

unfoldable pub set_current_screen_position : ℕ → (new_position : ℕ) → Screens → Option Screens
set_current_screen_position fuel new_position s = do
  (node, s1) ← get_current_screen_node fuel s
  some (set_node node (record (s1.nodes node) { current_position = new_position }) s1)

-- What removeScreenInner does with the node of the process.
unfoldable pub unlink_screen : (node prev : ℕ) → Screens → Option (ℕ × Screens)
unlink_screen node prev s = do
  let next = (s.nodes node).next
  let s1 = record s {
    nodes =
        if next == null
        then s.nodes
        else update s.nodes next (record (s.nodes next) { prev = prev });
  }
  k1 ← kernel_deallocate (s1.nodes node).screen sizeof_screen s1.kernel
  k2 ← kernel_deallocate node sizeof_screen_node k1
  some (next, record s1 { kernel = k2 })

unfoldable pub remove_screen_inner :
    ℕ → (current_node prev pid : ℕ) → Screens → Option (ℕ × Screens)
remove_screen_inner zero current_node prev pid s = none
remove_screen_inner (suc fuel) current_node prev pid s =
    let rest = remove_screen_inner fuel (s.nodes current_node).next current_node pid s in
    if current_node == null
    then some (null, s)
    else (if (s.nodes current_node).pid == pid
        then unlink_screen current_node prev s
        else rest >>= λ r. some (current_node, set_next current_node r.0 r.1))

unfoldable pub remove_screen : ℕ → (pid : ℕ) → Screens → Option Screens
remove_screen fuel pid s = do
  let s1 = if pid == s.on_focus_pid then record s { on_focus_pid = no_focus } else s
  (list, s2) ← remove_screen_inner fuel s1.list null pid s1
  some (record s2 { list = list })

-- loadNextScreen and loadPreviousScreen, with the link that they follow.
unfoldable pub load_neighbour : (ScreenNode → ℕ) → ℕ → Screens → Option Screens
load_neighbour link fuel s = do
  node ← find_screen_node_by_pid fuel s.on_focus_pid s
  let there = link (s.nodes node)
  let loaded = load_screen fuel (s.nodes there).pid s >>= λ r. some r.1
  if there == null then some s else loaded

unfoldable pub load_next_screen : ℕ → Screens → Option Screens
load_next_screen fuel s =
    let found = load_neighbour (λ n. n.next) fuel s in
    if s.on_focus_pid == no_focus then some s else found

unfoldable pub load_previous_screen : ℕ → Screens → Option Screens
load_previous_screen fuel s =
    let found = load_neighbour (λ n. n.prev) fuel s in
    if s.on_focus_pid == no_focus then some s else found
