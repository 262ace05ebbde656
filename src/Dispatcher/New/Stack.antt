-- ===== src/Dispatcher/New/Stack.antt =====
-- The stack of a new process: src/dispatcher/new.c.
use hypnoticos.Base.{
  ℕ, ◌+◌, ◌%◌, ◌<◌, ◌≡◌, ◌≢◌, refl, ap, sym, ◌∙◌, true, some, List, [], ◌∷◌, ◌++◌, arith,
  All-append, add64, word, ◌==◌, if◌then◌else◌,
}
use hypnoticos.Dispatcher.Addresses.{
  Va, Unmapped, process_map, get_pa, process_map_set, process_map-get_pa,
}
use hypnoticos.Dispatcher.Load.{Space}
use hypnoticos.Dispatcher.New.{stack_base, map_stack, stack_alloc_size, set_up_stack}

-- Two rounds of the loop, where both pages are set.
map_stack_two :
    (stack : ℕ) (vs vs' vs'' : List Va)
    → process_map true vs stack_base (add64 stack 0) 0 ≡ (1, vs')
    → process_map true vs' (stack_base + 4096) (add64 stack 4096) 0 ≡ (1, vs'')
    → map_stack 2 (λ i. true) stack 0 vs ≡ (1, vs'')
unfolding map_stack
map_stack_two stack vs vs' vs'' one two =
    let second : ℕ × List Va → ℕ × List Va = λ q. if q.0 == 0 then (0, q.1) else (1, q.1) in
    let first : ℕ × List Va → ℕ × List Va = λ q.
      if q.0 == 0
      then (0, q.1)
      else second (process_map true q.1 (stack_base + 4096) (add64 stack 4096) 0) in
    ap first one ∙ ap second two

-- Of a stack of one page, the memory is one page, but two pages are mapped: for an aligned stack that
-- is set up in a map with neither page, the process reaches the page behind the memory of its stack.
pub set_up_stack_behind :
    (stack rsp : ℕ) (s : Space) (ignore : ℕ)
    → stack % 4096 ≡ 0
    → stack + 8192 < word
    → Unmapped stack_base s.map
    → Unmapped (stack_base + 4096) s.map
    → (stack_alloc_size 4096 ≡ 4096)
      × ((set_up_stack (some stack) (λ i. true) 4096 rsp s).0 ≡ 1)
      × (get_pa (set_up_stack (some stack) (λ i. true) 4096 rsp s).2.map (stack_base + 4096) ignore
          ≡ some (stack + 4096))
unfolding set_up_stack stack_alloc_size
set_up_stack_behind stack rsp s ignore a l u v =
    let vs = s.map ++ record { va = stack_base; pa = stack; ignore = 0 } ∷ [] in
    let r = process_map true vs (stack_base + 4096) (stack + 4096) 0 in
    let one : process_map true s.map stack_base (add64 stack 0) 0 ≡ (1, vs) =
      ap (λ p. process_map true s.map stack_base p 0) (omega (arith, l))
      ∙ process_map_set s.map stack_base stack 0 refl a u in
    let there : add64 stack 4096 ≡ stack + 4096 = omega (arith, l) in
    let w : Unmapped (stack_base + 4096) vs =
      All-append (λ v. v.va ≢ stack_base + 4096) s.map
        (record { va = stack_base; pa = stack; ignore = 0 } ∷ []) v (omega arith, tt) in
    let aligned : (stack + 4096) % 4096 ≡ 0 = omega (arith, a) in
    let set = process_map_set vs (stack_base + 4096) (stack + 4096) 0 refl aligned w in
    let two : process_map true vs (stack_base + 4096) (add64 stack 4096) 0 ≡ (1, r.1) =
      ap (λ p. process_map true vs (stack_base + 4096) p 0) there
      ∙ (set ∙ ap (λ q. (1, q)) (sym (ap (λ q. q.1) set))) in
    let both = map_stack_two stack s.map vs r.1 one two in
    let found =
      (process_map-get_pa true vs (stack_base + 4096) (stack + 4096) 0 0 ignore refl aligned w
        (omega arith)).0 in
    let at : add64 (stack + 4096) 0 ≡ stack + 4096 = omega (arith, l) in
    (
      refl,
      ap (λ q. q.0) both,
      ap (λ q. get_pa q.1 (stack_base + 4096) ignore) both ∙ (found ∙ (ground arith ∙ ap some at)),
    )
