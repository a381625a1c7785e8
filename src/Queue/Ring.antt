-- ===== src/Queue/Ring.antt =====
-- The ring of messages of an `os_queue_t`: its invariant, and the messages that it holds, in order.
use arduino_osh.Base.{
  ℕ, zero, suc, ◌+◌, ◌-◌, ◌≤◌, ◌<◌, ◌≡◌, refl, ap, ◌⊎◌, List, [], ◌∷◌, ◌++◌, arith, ◌==◌,
  if◌then◌else◌, length, update,
}
use arduino_osh.Types.{Ptr, Queue}
use arduino_osh.Queue.Defs.{advance, put, take}

-- The messages from index `i` on, `n` of them, going round at `size`.
abbrev pub window : (ℕ → Ptr) → ℕ → ℕ → ℕ → List Ptr
window messages size i zero = []
window messages size i (suc n) = messages i ∷ window messages size (advance i size) n

abbrev pub contents : Queue → List Ptr
contents q = window q.messages q.size q.last q.number

-- The indices lie in the ring, and `first` is `number` places behind `last`.
pub record IsValid (q : Queue) : Type 0 where
  pub some_room : 0 < q.size
  pub small : q.size < 65536
  pub first_in : q.first < q.size
  pub last_in : q.last < q.size
  pub number_in : q.number ≤ q.size
  pub place : (q.last + q.number ≡ q.first) ⊎ (q.last + q.number ≡ q.first + q.size)

pub advance_lem :
    (i size : ℕ) → i < size → size < 65536 → advance i size ≡ (if i + 1 == size then 0 else i + 1)
advance_lem i size h small = ground arith

window-put :
    (messages : ℕ → Ptr) (size f : ℕ) (v : Ptr) (i n : ℕ)
    → size < 65536
    → i < size
    → f < size
    → n < size
    → (i + n ≡ f) ⊎ (i + n ≡ f + size)
    → window (update messages f v) size i (suc n) ≡ window messages size i n ++ v ∷ []
window-put messages size f v i zero small hi hf hn e = ground arith
window-put messages size f v i (suc n) small hi hf hn e =
    ground (arith, window-put messages size f v (advance i size) n)

-- A message that is put into a ring with room stands behind the others.
pub contents-put :
    (q : Queue) (message : Ptr)
    → IsValid q
    → q.number < q.size
    → contents (put q message) ≡ contents q ++ message ∷ []
unfolding put
contents-put q message v room =
    ground (arith, window-put q.messages q.size q.first message q.last q.number)

pub put-IsValid :
    (q : Queue) (message : Ptr) → IsValid q → q.number < q.size → IsValid (put q message)
unfolding put
put-IsValid q message v room = ground arith

window_of_pos :
    (messages : ℕ → Ptr) (size i n : ℕ)
    → 0 < n
    → window messages size i n ≡ messages i ∷ window messages size (advance i size) (n - 1)
window_of_pos messages size i zero h = absurd (omega arith)
window_of_pos messages size i (suc n) h =
    ap (λ k. messages i ∷ window messages size (advance i size) k) (omega arith)

-- The oldest message is the first.
pub contents-take : (q : Queue) → 0 < q.number → contents q ≡ (take q).0 ∷ contents ((take q).1)
unfolding take
contents-take q some = window_of_pos q.messages q.size q.last q.number some

pub take-IsValid : (q : Queue) → IsValid q → 0 < q.number → IsValid ((take q).1)
unfolding take
take-IsValid q v some = ground arith

pub length-window : (messages : ℕ → Ptr) (size i n : ℕ) → length (window messages size i n) ≡ n
length-window messages size i zero = refl
length-window messages size i (suc n) =
    omega (arith, length-window messages size (advance i size) n)
