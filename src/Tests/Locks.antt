-- ===== src/Tests/Locks.antt =====
-- Locked paths of src/dispatcher/open-indices.c.
use hypnoticos.Base.{ℕ, ◌≡◌, true, some, List, [], ◌∷◌, ◌++◌, arith}
use hypnoticos.Dispatcher.OpenIndices.{
  OpenIndex, new_index, lock_attempt, lock_retrieve, lock_done, lock_check,
}
use hypnoticos.Dispatcher.OpenIndices.Ids.{IsValid}
use hypnoticos.Dispatcher.OpenIndices.Exclusive.{lock_attempt_granted, lock_attempt-IsValid}
use hypnoticos.Dispatcher.OpenIndices.Check.{sweep, lock_check-sweep}

abbrev file_1 : OpenIndex
file_1 = new_index 1 (b'a' ∷ []) 5

abbrev file_2 : OpenIndex
file_2 = new_index 2 (b'a' ∷ b'b' ∷ []) 5

abbrev file_3 : OpenIndex
file_3 = new_index 3 (b'a' ∷ b'b' ∷ b'c' ∷ []) 6

abbrev locked : List OpenIndex
locked = file_1 ∷ file_2 ∷ file_3 ∷ []

abbrev path : List ℕ
path = b'd' ∷ []

locked-IsValid : IsValid locked
locked-IsValid = ground arith

lock_attempt_granted_example :
    (id : ℕ) × (lock_attempt true true 7 path locked
      ≡ (some (new_index id path 7), locked ++ new_index id path 7 ∷ []))
    × (lock_retrieve 7 id (locked ++ new_index id path 7 ∷ []) ≡ some (new_index id path 7))
    × (lock_done id (locked ++ new_index id path 7 ∷ []) ≡ locked)
lock_attempt_granted_example =
    lock_attempt_granted 7 path locked locked-IsValid (ground arith) (omega arith)

lock_attempt-IsValid_example : IsValid (lock_attempt true true 7 path locked).1
lock_attempt-IsValid_example = lock_attempt-IsValid true true 7 path locked locked-IsValid

lock_check-sweep_example : lock_check 5 locked ≡ sweep 5 locked
lock_check-sweep_example = lock_check-sweep 5 locked locked-IsValid.0
