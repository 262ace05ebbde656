-- ===== src/Keyboard/Buffer.antt =====
-- The key buffer as a bounded queue.
use hypnoticos.Base.{
  ℕ, zero, suc, ◌+◌, ◌-◌, ◌≤◌, ◌<◌, ◌≡◌, ◌≢◌, refl, ap, sym, ◌∙◌, List, [], ◌∷◌, ◌++◌, arith, eq→==,
  ne→==, length, length-append, length-replicate, append_assoc, get_or, set, set-append,
  replicate-append, replicate,
}
use native.Mathlib.Nat.{zero-add}
use hypnoticos.Keyboard.{
  buffer_size, first_empty, buffer_queue, shift_down, after_get, buffer_get, buffer_get_keep,
}

-- Every key of the list is a key and not KEY_EMPTY.
abbrev pub AllKeys : List ℕ → Type 0
AllKeys [] = Unit {0}
AllKeys (k ∷ ks) = (k ≢ 0) × AllKeys ks

-- The buffer that holds the keys `ks`, oldest first, and zeros behind them.
abbrev pub holding : List ℕ → List ℕ
holding ks = ks ++ replicate (buffer_size + 1 - length ks) 0

first_empty-append :
    (ks : List ℕ) (m i n : ℕ)
    → AllKeys ks
    → length ks ≤ n
    → first_empty (ks ++ replicate (suc m) 0) i n ≡ i + length ks
unfolding first_empty
first_empty-append [] m i zero a h = omega arith
first_empty-append [] m i (suc n) a h = omega arith
first_empty-append (k ∷ ks) m i zero a h = absurd (omega arith)
first_empty-append (k ∷ ks) m i (suc n) a h = ground (arith, first_empty-append ks m (i + 1) n a.1)

-- The place for the zeros behind fewer than 41 keys.
room : (ks : List ℕ) → length ks ≤ buffer_size → 41 - length ks ≡ suc (buffer_size - length ks)
room ks h = omega arith

zeros_left : (ks : List ℕ) (key : ℕ) → 41 - length (ks ++ key ∷ []) ≡ buffer_size - length ks
zeros_left ks key = omega (arith, length-append ks (key ∷ []))

-- `KeyboardBufferQueue` on a buffer that holds fewer than 40 keys puts the key behind them.
pub buffer_queue-append :
    (ks : List ℕ) (key : ℕ)
    → AllKeys ks
    → length ks < buffer_size
    → buffer_queue (holding ks) key ≡ holding (ks ++ key ∷ [])
unfolding buffer_queue
buffer_queue-append ks key a h = rw (
  room ks (omega arith),
  first_empty-append ks (buffer_size - length ks) 0 buffer_size a (omega arith),
  ne→== (0 + length ks) buffer_size (omega arith),
  zero-add (length ks),
  set-append ks 0 (replicate (buffer_size - length ks) 0) key,
  ← append_assoc ks (key ∷ []) (replicate (buffer_size - length ks) 0),
  zeros_left ks key,
)

-- `KeyboardBufferQueue` on a buffer that holds 40 keys discards the key.
pub buffer_queue_full :
    (ks : List ℕ) (key : ℕ)
    → AllKeys ks
    → length ks ≡ buffer_size
    → buffer_queue (holding ks) key ≡ holding ks
unfolding buffer_queue
buffer_queue_full ks key a h = rw (
  room ks (omega arith),
  first_empty-append ks (buffer_size - length ks) 0 buffer_size a (omega arith),
  eq→== (0 + length ks) buffer_size (omega arith),
)

shift_down-cons :
    (n i k : ℕ) (buf : List ℕ) → shift_down n (suc (suc i)) (k ∷ buf) ≡ k ∷ shift_down n (suc i) buf
unfolding shift_down
shift_down-cons zero i k buf = refl
shift_down-cons (suc n) i k buf =
    let up : suc (suc i) + 1 ≡ suc (suc (suc i)) = omega arith in
    let next : suc i + 1 ≡ suc (suc i) = omega arith in
    let down : suc (suc i) - 1 ≡ suc i = omega arith in
    let back : suc i - 1 ≡ i = omega arith in
    rw (up, next, down, back) (shift_down-cons n (suc i) k (set buf i (get_or buf (suc i) 0)))

-- What the loop leaves: each key moves one place down, and the last of the round stays where it was.
pub slide : ℕ → List ℕ → List ℕ
slide zero buf = buf
slide (suc n) [] = []
slide (suc n) (k ∷ []) = 0 ∷ []
slide (suc n) (k ∷ l ∷ buf) = l ∷ slide n (l ∷ buf)

shift_down-slide : (n : ℕ) (buf : List ℕ) → n < length buf → shift_down n 1 buf ≡ slide n buf
unfolding shift_down slide
shift_down-slide zero buf h = refl
shift_down-slide (suc n) [] h = absurd (omega arith)
shift_down-slide (suc n) (k ∷ []) h = absurd (omega arith)
shift_down-slide (suc n) (k ∷ l ∷ buf) h =
    shift_down-cons n 0 l (l ∷ buf) ∙ ap (λ r. l ∷ r) (shift_down-slide n (l ∷ buf) (omega arith))

slide-append :
    (k : ℕ) (is : List ℕ) (j : ℕ) (rest : List ℕ)
    → slide (suc (length is)) (k ∷ is ++ j ∷ rest) ≡ is ++ j ∷ j ∷ rest
unfolding slide
slide-append k [] j rest = refl
slide-append k (i ∷ is) j rest = ap (λ r. i ∷ r) (slide-append i is j rest)

set_last :
    (is : List ℕ) (a b x v : ℕ)
    → set (is ++ a ∷ b ∷ x ∷ []) (suc (suc (length is))) v ≡ is ++ a ∷ b ∷ v ∷ []
set_last [] a b x v = refl
set_last (i ∷ is) a b x v = ap (λ r. i ∷ r) (set_last is a b x v)

-- The whole effect on an array of 41 bytes: all but the last two move down, and the last but one
-- stays where it was as well.
after_get_lem :
    (k : ℕ) (is : List ℕ) (j x : ℕ)
    → length is ≡ 38
    → after_get (k ∷ is ++ j ∷ x ∷ []) ≡ is ++ j ∷ j ∷ 0 ∷ []
unfolding after_get
after_get_lem k is j x h =
    ap (λ b. set b 40 0) (shift_down-slide 39 (k ∷ is ++ j ∷ x ∷ []) size ∙ moved)
    ∙ ap (λ p. set (is ++ j ∷ j ∷ x ∷ []) p 0) place
    ∙ set_last is j j x 0
  where
    place : 40 ≡ suc (suc (length is))
    place = omega arith

    size : 39 < length (k ∷ is ++ j ∷ x ∷ [])
    size = omega (arith, length-append is (j ∷ x ∷ []))

    moved : slide 39 (k ∷ is ++ j ∷ x ∷ []) ≡ is ++ j ∷ j ∷ x ∷ []
    moved =
        let rounds : 39 ≡ suc (length is) = omega arith in
        ap (λ n. slide n (k ∷ is ++ j ∷ x ∷ [])) rounds ∙ slide-append k is j (x ∷ [])

-- The zeros behind at most 38 keys, less the last two.
zeros :
    (ks : List ℕ) (n m : ℕ) → m ≡ n + 2 → ks ++ replicate m 0 ≡ (ks ++ replicate n 0) ++ 0 ∷ 0 ∷ []
zeros ks n m e =
    ap (λ p. ks ++ replicate p 0) e
    ∙ ap (λ r. ks ++ r) (sym (replicate-append n 2 0))
    ∙ sym (append_assoc ks (replicate n 0) (0 ∷ 0 ∷ []))

-- `KeyboardBufferGet` returns the oldest key of a buffer of fewer than 40 keys and removes it.
pub buffer_get-tail :
    (k : ℕ) (ks : List ℕ)
    → length (k ∷ ks) < buffer_size
    → buffer_get (holding (k ∷ ks)) ≡ (k, holding ks)
unfolding buffer_get
buffer_get-tail k ks h =
    ap (λ b. (k, b))
      (ap (λ b. after_get (k ∷ b)) (zeros ks (38 - length ks) (41 - suc (length ks)) (omega arith))
        ∙ after_get_lem k (ks ++ replicate (38 - length ks) 0) 0 0 size
        ∙ append_assoc ks (replicate (38 - length ks) 0) (0 ∷ 0 ∷ 0 ∷ [])
        ∙ ap (λ r. ks ++ r) (replicate-append (38 - length ks) 3 0)
        ∙ ap (λ m. ks ++ replicate m 0) (omega arith))
  where
    size : length (ks ++ replicate (38 - length ks) 0) ≡ 38
    size = omega (
      arith,
      length-append ks (replicate (38 - length ks) 0),
      length-replicate (38 - length ks) (let z : ℕ = 0 in z),
    )

-- `KeyboardBufferGet` on a full buffer returns the oldest key, and leaves the newest key twice: the
-- buffer is as full as before.
pub buffer_get_full :
    (k : ℕ) (is : List ℕ) (j : ℕ)
    → length (k ∷ is ++ j ∷ []) ≡ buffer_size
    → buffer_get (holding (k ∷ is ++ j ∷ [])) ≡ (k, holding (is ++ j ∷ j ∷ []))
unfolding buffer_get
buffer_get_full k is j h =
    ap (λ b. (k, b))
      (ap (λ m. after_get (k ∷ (is ++ j ∷ []) ++ replicate m 0)) one
        ∙ ap (λ b. after_get (k ∷ b)) (append_assoc is (j ∷ []) (0 ∷ []))
        ∙ after_get_lem k is j 0 size
        ∙ sym (append_assoc is (j ∷ j ∷ []) (0 ∷ []))
        ∙ ap (λ m. (is ++ j ∷ j ∷ []) ++ replicate m 0) one')
  where
    one : 41 - length (k ∷ is ++ j ∷ []) ≡ 1
    one = omega arith

    size : length is ≡ 38
    size = omega (arith, length-append is (j ∷ []))

    one' : 1 ≡ 41 - length (is ++ j ∷ j ∷ [])
    one' = omega (arith, size, length-append is (j ∷ j ∷ []))

-- `KeyboardBufferGet` on an empty buffer returns KEY_EMPTY and leaves the buffer empty.
pub buffer_get_empty : buffer_get (holding []) ≡ (0, holding [])
unfolding buffer_get
buffer_get_empty = ap (λ b. (0, b)) (after_get_lem 0 (replicate 38 0) 0 0 refl)

-- `KeyboardBufferGet_Keep` sees the oldest key.
pub buffer_get_keep-holding : (k : ℕ) (ks : List ℕ) → buffer_get_keep (holding (k ∷ ks)) ≡ k
unfolding buffer_get_keep
buffer_get_keep-holding k ks = refl

pub buffer_get_keep_empty : buffer_get_keep (holding []) ≡ 0
unfolding buffer_get_keep
buffer_get_keep_empty = refl
