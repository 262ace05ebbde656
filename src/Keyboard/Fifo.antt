-- ===== src/Keyboard/Fifo.antt =====
-- The key buffer against the queue that it is meant to be.
use hypnoticos.Base.{ℕ, ◌<◌, ◌≡◌, ◌≢◌, refl, ap, ◌∙◌, List, [], ◌∷◌, ◌++◌, length}
use hypnoticos.Keyboard.{buffer_size, buffer_queue, buffer_get}
use hypnoticos.Keyboard.Buffer.{
  AllKeys, holding, buffer_queue-append, buffer_get-tail, buffer_get_empty,
}

-- The interrupt queues a key, a reader takes one.
pub data Op : Type 0 where
  queue : ℕ → Op
  get : Op

-- The keys that the reader sees, in order.
pub run : List ℕ → List Op → List ℕ
run buf [] = []
run buf (queue key ∷ ops) = run (buffer_queue buf key) ops
run buf (get ∷ ops) = let (key, buf') = buffer_get buf in key ∷ run buf' ops

-- A queue with no bound; a reader of an empty one sees 0.
pub fifo_run : List ℕ → List Op → List ℕ
fifo_run ks [] = []
fifo_run ks (queue key ∷ ops) = fifo_run (ks ++ key ∷ []) ops
fifo_run [] (get ∷ ops) = 0 ∷ fifo_run [] ops
fifo_run (k ∷ ks) (get ∷ ops) = k ∷ fifo_run ks ops

-- No KEY_EMPTY is queued, and at no time does the queue hold 40 keys.
abbrev pub NeverFull : List ℕ → List Op → Type 0
NeverFull ks [] = length ks < buffer_size
NeverFull ks (queue key ∷ ops) =
    (length ks < buffer_size) × (key ≢ 0) × NeverFull (ks ++ key ∷ []) ops
NeverFull [] (get ∷ ops) = NeverFull [] ops
NeverFull (k ∷ ks) (get ∷ ops) = (length (k ∷ ks) < buffer_size) × NeverFull ks ops

AllKeys-append : (ks : List ℕ) (key : ℕ) → AllKeys ks → key ≢ 0 → AllKeys (ks ++ key ∷ [])
AllKeys-append [] key a h = (h, tt)
AllKeys-append (k ∷ ks) key a h = (a.0, AllKeys-append ks key a.1 h)

-- While fewer than 40 keys wait, any interleaving of `KeyboardBufferQueue` and `KeyboardBufferGet`
-- shows the reader what an unbounded first-in first-out queue would, with KEY_EMPTY for a read of an
-- empty queue.
pub run_fifo :
    (ks : List ℕ) (ops : List Op)
    → AllKeys ks
    → NeverFull ks ops
    → run (holding ks) ops ≡ fifo_run ks ops
unfolding run fifo_run
run_fifo ks [] a h = refl
run_fifo ks (queue key ∷ ops) a h =
    ap (λ b. run b ops) (buffer_queue-append ks key a h.0)
    ∙ run_fifo (ks ++ key ∷ []) ops (AllKeys-append ks key a h.1) h.2
run_fifo [] (get ∷ ops) a h =
    ap (λ r. r.0 ∷ run r.1 ops) buffer_get_empty ∙ ap (λ r. 0 ∷ r) (run_fifo [] ops a h)
run_fifo (k ∷ ks) (get ∷ ops) a h =
    ap (λ r. r.0 ∷ run r.1 ops) (buffer_get-tail k ks h.0)
    ∙ ap (λ r. k ∷ r) (run_fifo ks ops a.1 h.1)
