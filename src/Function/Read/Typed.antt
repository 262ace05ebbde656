-- ===== src/Function/Read/Typed.antt =====
-- A process that reads gets the characters of the keys that were pressed.
use hypnoticos.Base.{
  ℕ, zero, suc, ◌+◌, ◌-◌, ◌%◌, ◌≤◌, ◌<◌, ◌≡◌, ◌≢◌, refl, sym, ap, ◌∙◌, inl, inr, true, false,
  Option, none, some, List, [], ◌∷◌, ◌++◌, arith, ◌==◌, if◌then◌else◌, ltb, leb, add64, word,
  bit_and, length, all_below, all_below_sound, ne→==, Bool-cases, Option-cases, length-append,
}
use hypnoticos.Keyboard.{buffer_size}
use hypnoticos.Keyboard.Buffer.{holding, buffer_get-tail, buffer_get_keep-holding}
use hypnoticos.Function.Read.{
  key_char, FunctionRead, State, Outcome, returned, halted, deliver, take_key, read_suspend_test,
}

-- The character that a byte of the key buffer stands for: the press of a key that has one.
unfoldable pub typed_key : ℕ → Option ℕ
typed_key k = if ltb k 128 then none else key_char (k - 128)

-- The characters of the keys, in order.
unfoldable pub typed : List ℕ → List ℕ
typed [] = []
typed (k ∷ ks) = elim (typed_key k) [ none ↦ typed ks | some c ↦ c ∷ typed ks ]

-- Memory with the characters stored from an address on.
pub store_at : ℕ → List ℕ → (ℕ → ℕ) → ℕ → ℕ
store_at a [] m = m
store_at a (c ∷ cs) m = store_at (add64 a 1) cs (λ x. if x == a then c else m x)

abbrev then_poll : (State → Outcome) → Outcome → Outcome
then_poll next (returned s) = next s
then_poll next halted = halted

-- The dispatcher tests a suspended process `n` times.
pub poll : ℕ → State → Outcome
poll zero s = returned s
poll (suc n) s = elim s.suspended [
  | none ↦ returned s
  | some r ↦ then_poll (poll n) (read_suspend_test s r)
]

-- Each key is a byte and not KEY_EMPTY.
abbrev pub AllBytes : List ℕ → Type 0
AllBytes [] = Unit {0}
AllBytes (k ∷ ks) = (k ≢ 0) × (k < 256) × AllBytes ks

press_table :
    all_below 256 (λ k. elim (bit_and k 0x80 == 0) [ true ↦ ltb k 128 | false ↦ leb 128 k ]) ≡ true
unfolding all_below
press_table = refl

press_bit : (k : ℕ) → k < 256 → (bit_and k 0x80 == 0) ≡ ltb k 128
press_bit k h = ground (arith, all_below_sound 256 _ k press_table h)

-- The key alone decides what `take_key` does.
take_key-typed :
    (s : State) (r : FunctionRead) (k : ℕ)
    → k < 256
    → take_key s r k ≡ elim (typed_key k) [ none ↦ s | some c ↦ deliver s r c ]
unfolding take_key typed_key
take_key-typed s r k h = elim (Bool-cases (ltb k 128)) [
  | inl low ↦ rw (press_bit k h, low)
  | inr high ↦ let bits : k % 128 ≡ k - 128 = ground arith in rw (press_bit k h, high, bits)
]

-- A read of the standard input into `buffer`, with `offset` characters there already.
abbrev pub reading : (buffer count offset : ℕ) → FunctionRead
reading buffer count offset = record { fd = 0; buffer = buffer; count = count; offset = offset }

-- A process that waits for the rest of this read.
abbrev pub waiting : (ℕ → ℕ) → List ℕ → FunctionRead → ℕ → State
waiting m keys r rax = record { memory = m; keys = keys; suspended = some r; rax = rax }

-- A process that runs on, with the result of the call in rax.
abbrev pub finished : (ℕ → ℕ) → List ℕ → ℕ → State
finished m keys rax = record { memory = m; keys = keys; suspended = none; rax = rax }

module _ (m : ℕ → ℕ) (buffer count offset rax : ℕ) where
  -- One test with a key in the buffer.
  test_key :
      (k : ℕ) (ks : List ℕ)
      → k ≢ 0
      → k < 256
      → length (k ∷ ks) < buffer_size
      → read_suspend_test
          (waiting m (holding (k ∷ ks)) (reading buffer count offset) rax)
          (reading buffer count offset)
        ≡ returned (elim (typed_key k) [
          | none ↦ waiting m (holding ks) (reading buffer count offset) rax
          | some c ↦
              deliver
                (waiting m (holding ks) (reading buffer count offset) rax)
                (reading buffer count offset)
                c
        ])
  unfolding read_suspend_test
  test_key k ks nz small room =
      rw (buffer_get_keep-holding k ks, ne→== k 0 nz, buffer_get-tail k ks room)
        (ap returned (take_key-typed _ _ k small))

  deliver_more :
      (keys : List ℕ) (c : ℕ)
      → offset + 1 < count
      → deliver (waiting m keys (reading buffer count offset) rax) (reading buffer count offset) c
        ≡ waiting
            (store_at (add64 buffer offset) (c ∷ []) m)
            keys
            (reading buffer count (offset + 1))
            rax
  unfolding deliver store_at
  deliver_more keys c h = ground arith

  deliver_last :
      (keys : List ℕ) (c : ℕ)
      → count ≤ offset + 1
      → deliver (waiting m keys (reading buffer count offset) rax) (reading buffer count offset) c
        ≡ finished (store_at (add64 buffer offset) (c ∷ []) m) keys (offset + 1)
  unfolding deliver store_at
  deliver_last keys c h = ground arith

typed_skip : (k : ℕ) (ks : List ℕ) → typed_key k ≡ none → typed (k ∷ ks) ≡ typed ks
unfolding typed
typed_skip k ks e = rw (e, typed)

typed_char : (k : ℕ) (ks : List ℕ) (c : ℕ) → typed_key k ≡ some c → typed (k ∷ ks) ≡ c ∷ typed ks
unfolding typed
typed_char k ks c e = rw (e, typed)

typed_nil : typed [] ≡ []
unfolding typed
typed_nil = refl

-- After as many tests as there are keys in `ks`, a read that has room for their characters and more
-- has stored these one behind the other from its offset on, has moved its offset behind them, and
-- still waits; the keys behind `ks` are left in the buffer.
pub poll_delivers :
    (ks rest : List ℕ) (m : ℕ → ℕ) (buffer count offset rax : ℕ)
    → AllBytes ks
    → length (ks ++ rest) < buffer_size
    → offset + length (typed ks) < count
    → poll (length ks) (waiting m (holding (ks ++ rest)) (reading buffer count offset) rax)
      ≡ returned (
          waiting
            (store_at (add64 buffer offset) (typed ks) m)
            (holding rest)
            (reading buffer count (offset + length (typed ks)))
            rax)
unfolding poll store_at
poll_delivers [] rest m buffer count offset rax b l h =
    let e : offset + 0 ≡ offset = omega arith in rw (typed_nil, e)
poll_delivers (k ∷ ks) rest m buffer count offset rax b l h =
    let l' : length (ks ++ rest) < buffer_size = omega arith in
    ap (then_poll (poll (length ks))) (test_key m buffer count offset rax k (ks ++ rest) b.0 b.1 l)
    ∙ elim (Option-cases (typed_key k)) [
      | inl e ↦
          let same = typed_skip k ks e in
          rw (e, same) (poll_delivers ks rest m buffer count offset rax b.2 l' (rw same at h))
      | inr (c, e) ↦
          let here : add64 buffer (offset + 1) ≡ add64 (add64 buffer offset) 1 = omega arith in
          let more = typed_char k ks c e in
          let h' : offset + suc (length (typed ks)) < count = rw more at h in
          let there : offset + 1 + length (typed ks) ≡ offset + suc (length (typed ks)) =
            omega arith in
          rw (e, more)
            (ap (poll (length ks))
                (deliver_more m buffer count offset rax (holding (ks ++ rest)) c (omega arith))
              ∙ poll_delivers ks rest (store_at (add64 buffer offset) (c ∷ []) m) buffer count
                  (offset + 1) rax b.2 l' (omega arith)
              ∙ rw (here, there))
    ]

returned_injective : {s s' : State} → returned s ≡ returned s' → s ≡ s'
returned_injective e = cc

poll_zero : (s : State) → poll 0 s ≡ returned s
unfolding poll
poll_zero s = refl

poll_stop : (n : ℕ) (s : State) → s.suspended ≡ none → poll (suc n) s ≡ returned s
unfolding poll
poll_stop n s h = simp (h, poll)

poll_step :
    (n : ℕ) (s : State) (r : FunctionRead)
    → s.suspended ≡ some r
    → poll (suc n) s ≡ then_poll (poll n) (read_suspend_test s r)
unfolding poll
poll_step n s r h = simp (h, poll)

-- One more test goes on from the state that the tests before it left.
poll-suc : (n : ℕ) (s s' : State) → poll n s ≡ returned s' → poll (suc n) s ≡ poll 1 s'
poll-suc zero s s' e = ap (poll 1) (returned_injective (unfold poll in e))
poll-suc (suc n) s s' e = elim (Option-cases s.suspended) [
  | inl h ↦
      poll_stop (suc n) s h
      ∙ sym (poll_stop 0 s h)
      ∙ ap (poll 1) (returned_injective (sym (poll_stop n s h) ∙ e))
  | inr (r, h) ↦
      poll_step (suc n) s r h
      ∙ after (poll-suc n) (read_suspend_test s r) (sym (poll_step n s r h) ∙ e)
]
  where
    after :
        ((t t' : State) → poll n t ≡ returned t' → poll (suc n) t ≡ poll 1 t')
        → (o : Outcome) → then_poll (poll n) o ≡ returned s'
        → then_poll (poll (suc n)) o ≡ poll 1 s'
    after next (returned t) h = next t s' h
    after next halted h = cc

AllBytes-append :
    (ks : List ℕ) (k : ℕ) → AllBytes (ks ++ k ∷ []) → AllBytes ks × (k ≢ 0) × (k < 256)
AllBytes-append [] k b = (tt, b.0, b.1)
AllBytes-append (j ∷ ks) k b = let t = AllBytes-append ks k b.2 in ((b.0, b.1, t.0), t.1, t.2)

typed-append :
    (ks : List ℕ) (k c : ℕ) → typed_key k ≡ some c → typed (ks ++ k ∷ []) ≡ typed ks ++ c ∷ []
unfolding typed
typed-append [] k c e = typed_char k [] c e
typed-append (j ∷ ks) k c e = ground (arith, typed-append ks k c)

store_at-append :
    (a : ℕ) (cs : List ℕ) (c : ℕ) (m : ℕ → ℕ)
    → a < word
    → store_at a (cs ++ c ∷ []) m ≡ store_at (add64 a (length cs)) (c ∷ []) (store_at a cs m)
unfolding store_at
store_at-append a [] c m w = let e : add64 a 0 ≡ a = omega (arith, w) in rw e
store_at-append a (d ∷ cs) c m w =
    let e : add64 (add64 a 1) (length cs) ≡ add64 a (suc (length cs)) = omega arith in
    store_at-append (add64 a 1) cs c (λ x. if x == a then d else m x) (omega arith)
    ∙ ap (λ p. store_at p (c ∷ []) (store_at (add64 a 1) cs (λ x. if x == a then d else m x))) e

-- A read that lacks one character ends with the test that takes a key which has one: the call
-- returns `count`, and `count` characters are in the process's buffer.
pub poll_finishes :
    (ks : List ℕ) (k c : ℕ) (rest : List ℕ) (m : ℕ → ℕ) (buffer count offset rax : ℕ)
    → AllBytes (ks ++ k ∷ [])
    → length (ks ++ k ∷ rest) < buffer_size
    → typed_key k ≡ some c
    → offset + length (typed ks) + 1 ≡ count
    → poll
        (suc (length ks))
        (waiting m (holding (ks ++ k ∷ rest)) (reading buffer count offset) rax)
      ≡ returned
          (finished (store_at (add64 buffer offset) (typed (ks ++ k ∷ [])) m) (holding rest) count)
poll_finishes ks k c rest m buffer count offset rax b l e h =
    poll-suc (length ks) _ _ (
      poll_delivers ks (k ∷ rest) m buffer count offset rax (AllBytes-append ks k b).0 l
        (omega arith))
    ∙ last
  where
    offset' : ℕ
    offset' = offset + length (typed ks)

    m' : ℕ → ℕ
    m' = store_at (add64 buffer offset) (typed ks) m

    room : length (k ∷ rest) < buffer_size
    room = omega (arith, length-append ks (k ∷ rest))

    stored :
        store_at (add64 buffer offset') (c ∷ []) m'
        ≡ store_at (add64 buffer offset) (typed (ks ++ k ∷ [])) m
    stored =
        let here : add64 (add64 buffer offset) (length (typed ks)) ≡ add64 buffer offset' =
          omega arith in
        ap (λ a. store_at a (c ∷ []) m') (sym here)
        ∙ sym (store_at-append (add64 buffer offset) (typed ks) c m (omega arith))
        ∙ ap (λ cs. store_at (add64 buffer offset) cs m) (sym (typed-append ks k c e))

    last :
        poll 1 (waiting m' (holding (k ∷ rest)) (reading buffer count offset') rax)
        ≡ returned (
            finished (store_at (add64 buffer offset) (typed (ks ++ k ∷ [])) m) (holding rest) count)
    last =
        poll_step 0 _ _ refl
        ∙ ap (then_poll (poll 0)) (
            test_key m' buffer count offset' rax k rest (AllBytes-append ks k b).1
              (AllBytes-append ks k b).2 room)
        ∙ rw e (
            ap (poll 0) (deliver_last m' buffer count offset' rax (holding rest) c (omega arith))
            ∙ poll_zero _
            ∙ ap (λ m. returned (finished m (holding rest) (offset' + 1))) stored
            ∙ ap
                (λ n. returned (
                  finished (store_at (add64 buffer offset) (typed (ks ++ k ∷ [])) m) (holding rest)
                    n))
                h)
