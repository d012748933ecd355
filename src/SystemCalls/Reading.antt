-- ===== src/SystemCalls/Reading.antt =====
-- Reading keys and writing characters by system call, in Kernel/systemCalls.c.
use Prim.Native.Nat.{min}
use basic_kernel_implementat.Prelude.{
  ℕ, zero, suc, ◌+◌, ◌%◌, ◌≤◌, ◌<◌, ◌≡◌, refl, ap, ◌∙◌, ◌≢◌, ◌⊎◌, false, List, [], ◌∷◌, arith, ◌==◌,
  update, length, get_or, drop, All,
}
use basic_kernel_implementat.Text.{Chars}
use basic_kernel_implementat.Video.{Video, screen, window_size, current, print_characters}
use basic_kernel_implementat.Video.Cursor.{IsOn, Stays, Stays-trans}
use basic_kernel_implementat.Video.Printing.{print_characters-Stays, IsString}
use basic_kernel_implementat.Video.Shown.{print_all, characters}
use basic_kernel_implementat.Keyboard.{Keyboard, get_key}
use basic_kernel_implementat.Keyboard.Queue.{HoldsKeys, get_key-HoldsKeys, get_key-empty}
use basic_kernel_implementat.SystemCalls.Io.{read_keys, video_loop}

-- What reading `n` keys at most leaves.
pub record IsRead (n buf : ℕ) (q : List ℕ) (b : Keyboard) (m : Chars) (r : ℕ × Keyboard × Chars)
    : Type 0 where
  pub count : r.0 ≡ min n (length q)
  pub rest : HoldsKeys r.1 (drop n q)
  pub bytes : (k : ℕ) → k < n → k < length q → r.2 (buf + k) ≡ get_or q k 0
  pub before : (a : ℕ) → a < buf → r.2 a ≡ m a

read_keys-none :
    (left buf : ℕ) (b : Keyboard) (m : Chars)
    → (get_key b).0 ≡ 0
    → read_keys (suc left) buf b m ≡ (0, (get_key b).1, update m buf 0)
unfolding read_keys
read_keys-none left buf b m e = rw e refl

read_keys-key :
    (left buf v : ℕ) (b : Keyboard) (m : Chars)
    → (get_key b).0 ≡ v
    → v ≢ 0
    → v < 256
    → read_keys (suc left) buf b m ≡ (
      (read_keys left (buf + 1) (get_key b).1 (update m buf v)).0 + 1,
      (read_keys left (buf + 1) (get_key b).1 (update m buf v)).1,
      (read_keys left (buf + 1) (get_key b).1 (update m buf v)).2,
    )
unfolding read_keys
read_keys-key left buf v b m e proper small =
    let byte : v % 256 ≡ v = omega arith in
    let more : (v == 0) ≡ false = ground arith in rw (e, byte, more) refl

bytes_cons :
    (m : Chars) (n buf v : ℕ) (q : List ℕ)
    → m buf ≡ v
    → ((k : ℕ) → k < n → k < length q → m (buf + 1 + k) ≡ get_or q k 0)
    → (k : ℕ) → k < suc n
    → k < length (v ∷ q)
    → m (buf + k) ≡ get_or (v ∷ q) k 0
bytes_cons m n buf v q here later zero lt inside = ground (arith, here)
bytes_cons m n buf v q here later (suc k) lt inside =
    ground (arith, later k (omega arith) (omega arith))

pub read_keys-IsRead :
    (n buf : ℕ) (q : List ℕ) (b : Keyboard) (m : Chars)
    → HoldsKeys b q
    → All (λ x. x < 256) q
    → IsRead n buf q b m (read_keys n buf b m)
read_keys-IsRead zero buf q b m h small =
    unfold read_keys in
    record {
      count = omega arith;
      rest = h;
      bytes = λ k lt _. absurd (omega arith);
      before = λ a lt. refl;
    }
read_keys-IsRead (suc n) buf [] b m h small =
    let nothing = get_key-empty b h in
    rw (read_keys-none n buf b m (ap (λ r. r.0) nothing)) (record {
      count = omega arith;
      rest = rw nothing h;
      bytes = λ k _ lt. absurd (omega arith);
      before = λ a lt. ground arith;
    })
read_keys-IsRead (suc n) buf (v ∷ q) b m h small =
    let (oldest, later) = get_key-HoldsKeys b v q h in
    let r = read_keys-IsRead n (buf + 1) q (get_key b).1 (update m buf v) later small.1 in
    rw (read_keys-key n buf v b m oldest h.proper.0 small.0) (record {
      count = omega (arith, r.count);
      rest = r.rest;
      bytes =
          bytes_cons (read_keys n (buf + 1) (get_key b).1 (update m buf v)).2 n buf v q
            (r.before buf (omega arith) ∙ ground arith) r.bytes;
      before = λ a lt. r.before a (omega arith) ∙ ground arith;
    })

-- What writing at most `n` characters of the text of `len` characters at `p` leaves.
pub record IsWritten (n p len : ℕ) (v : Video) (r : ℕ × Video) : Type 0 where
  pub count : r.0 ≡ min n len
  pub prints : r.1 ≡ print_all (characters v.memory p (min n len)) v
  pub stays : Stays screen current v r.1

video_loop-end : (left p : ℕ) (v : Video) → v.memory p ≡ 0 → video_loop (suc left) p v ≡ (0, v)
unfolding video_loop
video_loop-end left p v e = rw e refl

video_loop-more :
    (left p : ℕ) (v : Video)
    → v.memory p ≢ 0
    → video_loop (suc left) p v ≡ (
      (video_loop left (p + 1) (print_characters (v.memory p) v)).0 + 1,
      (video_loop left (p + 1) (print_characters (v.memory p) v)).1,
    )
unfolding video_loop
video_loop-more left p v ne = let more : (v.memory p == 0) ≡ false = ground arith in rw more refl

characters-same :
    (m m' : Chars) (p n : ℕ)
    → ((k : ℕ) → k < n → m' (p + k) ≡ m (p + k))
    → characters m' p n ≡ characters m p n
characters-same m m' p zero same = refl
characters-same m m' p (suc n) same =
    let first : m' p ≡ m p = ground (arith, same 0) in
    rw (first, characters-same m m' (p + 1) n (λ k lt. ground (arith, same (k + 1)))) refl

pub video_loop-IsWritten :
    (n p len : ℕ) (v : Video)
    → IsString v.memory p len
    → (p + len < screen) ⊎ (screen + window_size ≤ p)
    → IsOn screen v.current_position
    → IsWritten n p len v (video_loop n p v)
video_loop-IsWritten zero p len v text apart on =
    unfold video_loop in
    record {
      count = omega arith;
      prints = let none_left : min 0 len ≡ 0 = omega arith in rw none_left refl;
      stays = record { on = on; outside = λ q _. refl; others = refl };
    }
video_loop-IsWritten (suc n) p zero v text apart on =
    rw (video_loop-end n p v (ground (arith, text.ends))) (record {
      count = omega arith;
      prints = let none_left : min (suc n) 0 ≡ 0 = omega arith in rw none_left refl;
      stays = record { on = on; outside = λ q _. refl; others = refl };
    })
video_loop-IsWritten (suc n) p (suc len) v text apart on =
    let v1 = print_characters (v.memory p) v in
    let first = print_characters-Stays (v.memory p) v on in
    let kept : (k : ℕ) → k ≤ suc len → v1.memory (p + k) ≡ v.memory (p + k) =
      λ k le. first.outside (p + k) (ground arith) in
    let r =
      video_loop-IsWritten n (p + 1) len v1
        (record {
          proper = λ k lt. ground (arith, kept (k + 1), text.proper (k + 1));
          ends = ground (arith, kept (len + 1), text.ends);
        })
        (ground arith) first.on in
    let more : min (suc n) (suc len) ≡ suc (min n len) = omega arith in
    let rest_same : characters v1.memory (p + 1) (min n len)
        ≡ characters v.memory (p + 1) (min n len) =
      characters-same v.memory v1.memory (p + 1) (min n len)
        (λ k lt. ground (arith, kept (k + 1))) in
    rw (video_loop-more n p v (ground (arith, text.proper 0 (omega arith)))) (record {
      count = omega (arith, r.count);
      prints = rw more (r.prints ∙ ap (λ l. print_all l v1) rest_same);
      stays = Stays-trans {at = current} {v1 = v1} first.outside first.others r.stays;
    })
